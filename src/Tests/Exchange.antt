-- ===== src/Tests/Exchange.antt =====
-- The client and the server of an agent joined, and the paths of the sockets.
use shimux.Base.{
  ◌==◌, if◌then◌else◌, length, Bytes, str, Error, message, Result, ok, err, error_text, ℕ, zero,
  suc, ◌-◌, ◌≤◌, ◌≡◌, refl, ap, Bool, true, false, Option, none, some, List, [], ◌∷◌, arith,
}
use shimux.Agent.Client.{SendKeysResponse, safe_socket_path, max_sun_path, send_keys, gave_up}
use shimux.Agent.PathBound.{length-safe_socket_path}
use shimux.Agent.Server.{Conn, handle_conn}
use shimux.Agent.Server.Answers.{Answered, decoded, handle_conn-Answered}
use shimux.Agent.Exchange.{send_keys-exchange, Codec, Wire, client_side}
use shimux.Tests.World.{host}

-- A text for each request and response: the flag as a byte in front of the error.
abbrev pub codec : Codec
codec = record {
  marshal_request = λ text. ok text;
  unmarshal_request = λ text. ok text;
  marshal_response = λ resp. (if resp.ok then b'1' else b'0') ∷ resp.error;
  unmarshal_response = unmarshal;
}
  where
    unmarshal : Bytes → Result SendKeysResponse
    unmarshal [] = err (message (str "EOF"))
    unmarshal (c ∷ s) = ok (record { ok = c == b'1'; error = s })

flag : (b : Bool) → ((if b then b'1' else b'0') == b'1') ≡ b
flag true = refl
flag false = refl

pub answered :
    (resp : SendKeysResponse) → codec.unmarshal_response (codec.marshal_response resp) ≡ ok resp
answered resp = ap (λ (b : Bool). ok (record { ok = b; error = resp.error })) (flag resp.ok)

-- A terminal that takes the text and then fails; the number of texts that it took.
abbrev failing_terminal : Bytes → ℕ → Option Error × ℕ
failing_terminal text n = (some (message (str "input/output error")), suc n)

abbrev idle_wire : Wire ℕ
idle_wire = record { agent = 0; sent = []; replied = [] }

-- The text is typed ten times.
typed_ten_times :
    (w' : Wire ℕ) × (send_keys
        (client_side (str "/tmp/s") codec (λ s. s) failing_terminal)
        (str "/tmp/s")
        (str "ls")
        idle_wire
      ≡ (some (gave_up (some (message (str "server error: input/output error")))), w'))
    × (w'.agent ≡ 10)
unfolding error_text
typed_ten_times =
    (send_keys-exchange (str "/tmp/s") codec (λ s. s) failing_terminal (str "ls") (str "ls") refl
        refl (omega arith) answered idle_wire).1
      (message (str "input/output error")) suc (λ a. refl)

-- A connection that sends no JSON, over a world that keeps the last answer.
abbrev garbled : Conn (List SendKeysResponse)
garbled = record {
  set_deadline = λ ms w. w;
  decode = λ limit w. (err (message (str "invalid character 'x'")), limit - 1, w);
  encode = λ resp w. resp ∷ w;
  close = λ w. w;
}

abbrev deaf : Bytes → List SendKeysResponse → Option Error × List SendKeysResponse
deaf text w = (none, w)

handle_conn-Answered_example :
    (after : List SendKeysResponse) × Answered
      (λ s. s)
      garbled
      deaf
      (decoded (λ s. s) garbled deaf [])
      after
    × (handle_conn (λ s. s) garbled deaf [] ≡ after)
handle_conn-Answered_example = handle_conn-Answered (λ s. s) garbled deaf []

-- A session with a name of 100 bytes.
abbrev long_name : Bytes
long_name = zeros 100
  where
    zeros : ℕ → Bytes
    zeros zero = []
    zeros (suc n) = b'0' ∷ zeros n

length-safe_socket_path_example : length (safe_socket_path host long_name (str "12")) ≤ max_sun_path
length-safe_socket_path_example = length-safe_socket_path host long_name (str "12") (omega arith)
