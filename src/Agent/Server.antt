-- ===== src/Agent/Server.antt =====
-- internal/agent/protocol.go: the server of an agent. `Goroutines` has its goroutines, this file what
-- one connection and the start of the server do.
pub mod Goroutines
pub mod Counts
pub mod Shutdown
pub mod Answers
pub mod Masked
use shimux.Base.{
  ◌==◌, if◌then◌else◌, Bytes, str, Error, wrap, Result, ok, err, error_text, ℕ, ◌+◌, ◌^◌, true,
  false, Option, none, some, [], ◌++◌,
}
use shimux.Base.FilePath.{dir_name}
use shimux.Agent.Client.{SendKeysResponse}

abbrev pub max_request_size : ℕ
max_request_size = 2 ^ 20

-- `connTimeout`, in milliseconds
abbrev pub conn_timeout : ℕ
conn_timeout = 5000

-- The calls on one accepted connection, over a world `W`.
pub record Conn (W : Type 0) : Type 0 where
  -- `SetDeadline`, from now
  pub set_deadline : ℕ → W → W
  -- `json.NewDecoder(lr).Decode(&req)` under an `io.LimitedReader` with `N` bytes to go: the text of
  -- the request or an error, and what is left of `N`
  pub decode : ℕ → W → Result Bytes × ℕ × W
  -- `json.NewEncoder(conn).Encode(resp)`, whose error is dropped
  pub encode : SendKeysResponse → W → W
  pub close : W → W

abbrev pub refusal : Bytes → SendKeysResponse
refusal text = record { ok = false; error = text }

abbrev pub success : SendKeysResponse
success = record { ok = true; error = [] }

-- The answer to a request that does not decode. `quote` is the verb `%q` in the text of an error.
unfoldable pub invalid_request : (Bytes → Bytes) → Error → ℕ → SendKeysResponse
unfolding error_text
invalid_request quote e left =
    refusal
      (if left == 0 then str "request too large" else str "invalid request: " ++ error_text quote e)

module _ {W : Type 0} (quote : Bytes → Bytes) (conn : Conn W)
    (handler : Bytes → W → Option Error × W) where
  -- The answer after the handler.
  unfoldable pub answer : Option Error → W → W
  unfolding error_text
  answer (some e) w = conn.encode (refusal (error_text quote e)) w
  answer none w = conn.encode success w

  unfoldable pub handle_request : Result Bytes → ℕ → W → W
  unfolding invalid_request answer
  handle_request (err e) left w = conn.encode (invalid_request quote e left) w
  handle_request (ok text) left w = let (r, w') = handler text w in answer r w'

  -- `handleConn`: the connection is closed on every way out.
  unfoldable pub handle_conn : W → W
  unfolding handle_request
  handle_conn w =
      let (r, left, w') = conn.decode (max_request_size + 1) (conn.set_deadline conn_timeout w) in
      conn.close (handle_request r left w')

-- The calls of `ListenAndServe`, over a world `W`.
pub record Listening (W : Type 0) : Type 0 where
  -- `os.MkdirAll(dir, mode)`
  pub make_dirs : Bytes → ℕ → W → Option Error × W
  -- `syscall.Umask`: sets the mask and returns the old one
  pub umask : ℕ → W → ℕ × W
  -- `net.Listen("unix", path)`
  pub listen : Bytes → W → Option Error × W
  -- `go srv.acceptLoop()` with its count in the wait group
  pub serve : W → W

module _ {W : Type 0} (sys : Listening W) where
  -- The mask is put back whether or not there is a listener.
  unfoldable pub listen_under_mask : Bytes → W → Option Error × W
  listen_under_mask path w =
      let (old, w₁) = sys.umask 0o077 w in
      let (r, w₂) = sys.listen path w₁ in let (mask, w₃) = sys.umask old w₂ in (r, w₃)

  unfoldable pub start_serving : Bytes → W → Option Error × W
  unfolding listen_under_mask
  start_serving path w =
      let (r, w') = listen_under_mask path w in
      elim r [
        | some e ↦ (some (wrap (str "listen on " ++ path) e), w')
        | none ↦ (none, sys.serve w')
      ]

  unfoldable pub listen_and_serve : Bytes → W → Option Error × W
  unfolding start_serving dir_name
  listen_and_serve path w =
      let (r, w') = sys.make_dirs (dir_name path) 0o700 w in
      elim r [
        | some e ↦ (some (wrap (str "create socket directory") e), w')
        | none ↦ start_serving path w'
      ]
