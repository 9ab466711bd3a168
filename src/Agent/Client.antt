-- ===== src/Agent/Client.antt =====
-- internal/agent/protocol.go: the socket paths, and the client side of send-keys.
use shimux.Base.{
  ltb, leb, if◌then◌else◌, length, take, Bytes, str, Error, message, wrap, Result, ok, err, ℕ, zero,
  suc, ◌+◌, ◌-◌, ◌*◌, ◌/◌, ◌%◌, Bool, not, Option, none, some, List, [], ◌∷◌, ◌++◌,
}
use shimux.Base.FilePath.{join}

-- What the paths depend on: `os.TempDir()` and the digest of a text by SHA-256.
pub record Host : Type 0 where
  pub temp_dir : Bytes
  pub sha256 : Bytes → List ℕ

abbrev pub max_sun_path : ℕ
max_sun_path = 104

unfoldable pub socket_dir : Host → Bytes → Bytes
unfolding join
socket_dir host session = join (host.temp_dir ∷ str "shimux" ∷ session ∷ [])

unfoldable pub socket_path : Host → Bytes → Bytes → Bytes
unfolding join socket_dir
socket_path host session pane_id =
    join (socket_dir host session ∷ (str "pane-" ++ (pane_id ++ str ".sock")) ∷ [])

abbrev hex_digit : ℕ → ℕ
hex_digit d = if ltb d 10 then b'0' + d else b'a' + (d - 10)

-- `%x` of a digest
unfoldable pub hex : List ℕ → Bytes
hex [] = []
hex (b ∷ bs) = hex_digit (b / 16) ∷ hex_digit (b % 16) ∷ hex bs

unfoldable pub safe_socket_path : Host → Bytes → Bytes → Bytes
unfolding socket_path hex
safe_socket_path host session pane_id =
    let p = socket_path host session pane_id in
    let hashed = take 16 (hex (host.sha256 session)) in
    if leb (length p) max_sun_path then p else socket_path host hashed pane_id

pub record SendKeysResponse : Type 0 where
  pub ok : Bool
  pub error : Bytes

-- The calls of the system that one exchange with an agent makes, over a world `W`.
pub record Net (W : Type 0) : Type 0 where
  -- `DialContext`
  pub dial : Bytes → W → Option Error × W
  -- `json.Marshal` of `SendKeysRequest`
  pub marshal_request : Bytes → Result Bytes
  pub write : Bytes → W → Option Error × W
  pub close_write : W → W
  -- `json.NewDecoder(conn).Decode(&resp)`
  pub read_response : W → Result SendKeysResponse × W
  pub close : W → W
  -- `time.Sleep`, in milliseconds
  pub sleep : ℕ → W → W

module _ {W : Type 0} (net : Net W) where
  abbrev failed : Bytes → Error → W → Option Error × W
  failed text e w = (some (wrap text e), net.close w)

  -- The connection is closed on every way out.
  unfoldable pub receive : W → Option Error × W
  receive w =
      let (r, w') = net.read_response w in
      elim r [
        | err e ↦ failed (str "read response") e w'
        | ok resp ↦
            if not resp.ok
            then (some (message (str "server error: " ++ resp.error)), net.close w')
            else (none, net.close w')
      ]

  unfoldable pub transmit : Bytes → W → Option Error × W
  unfolding receive
  transmit request w =
      let (r, w') = net.write request w in
      elim r [ some e ↦ failed (str "write request") e w' | none ↦ receive (net.close_write w') ]

  unfoldable pub request : Bytes → W → Option Error × W
  unfolding transmit
  request text w = elim (net.marshal_request text) [
    | err e ↦ failed (str "marshal request") e w
    | ok bytes ↦ transmit bytes w
  ]

  -- `SendKeysWithTimeout`; the deadline shows as an error of a call.
  unfoldable pub send_keys_with_timeout : Bytes → Bytes → W → Option Error × W
  unfolding request
  send_keys_with_timeout path text w =
      let (r, w') = net.dial path w in
      elim r [ some e ↦ (some (wrap (str "connect to " ++ path) e), w') | none ↦ request text w' ]

abbrev pub retry_init_interval : ℕ
retry_init_interval = 10

abbrev pub retry_max_interval : ℕ
retry_max_interval = 200

abbrev pub retry_max_attempts : ℕ
retry_max_attempts = 10

abbrev pub next_interval : ℕ → ℕ
next_interval i = if ltb retry_max_interval (i * 2) then retry_max_interval else i * 2

-- `fmt.Errorf("… %w", lastErr)`
abbrev pub gave_up : Option Error → Error
gave_up none = message (str "send-keys failed after 10 retries: %!w(<nil>)")
gave_up (some e) = wrap (str "send-keys failed after 10 retries") e

module _ {W : Type 0} (attempt : W → Option Error × W) (sleep : ℕ → W → W) where
  -- The loop of `SendKeys` with `n` attempts left.
  unfoldable pub retry : ℕ → ℕ → Option Error → W → Option Error × W
  retry zero interval last w = (some (gave_up last), w)
  retry (suc n) interval last w =
      let (r, w') = attempt w in
      elim r [
        | none ↦ (none, w')
        | some e ↦ retry n (next_interval interval) (some e) (sleep interval w')
      ]

unfoldable pub send_keys : {W : Type 0} → Net W → Bytes → Bytes → W → Option Error × W
unfolding retry send_keys_with_timeout
send_keys net path text =
    retry (send_keys_with_timeout net path text) net.sleep retry_max_attempts retry_init_interval
      none
