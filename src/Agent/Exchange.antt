-- ===== src/Agent/Exchange.antt =====
-- internal/agent/protocol.go: the client and the server of one agent, joined.
use shimux.Base.{
  if◌then◌else◌, length, take, Bytes, str, equal, equal_refl, Error, message, wrap, Result, ok,
  error_text, ℕ, zero, suc, ◌+◌, ◌-◌, ◌≤◌, ◌≡◌, refl, ap, ◌∙◌, Option, none, some, List, [], ◌∷◌,
  ◌++◌, arith,
}
use shimux.Agent.Retry.{Fails, fails_none, fails_more, send_keys-retries}
use shimux.Agent.Client.{
  SendKeysResponse, Net, send_keys_with_timeout, request, transmit, receive, send_keys, gave_up,
}
use shimux.Agent.Server.{
  Conn, max_request_size, handle_conn, handle_request, answer, refusal, success,
}

-- The JSON texts of requests and responses.
pub record Codec : Type 0 where
  pub marshal_request : Bytes → Result Bytes
  pub unmarshal_request : Bytes → Result Bytes
  pub marshal_response : SendKeysResponse → Bytes
  pub unmarshal_response : Bytes → Result SendKeysResponse

-- A connection carries the bytes that each side writes; `agent` is what the handler works on.
pub record Wire (A : Type 0) : Type 0 where
  pub agent : A
  pub sent : Bytes
  pub replied : Bytes

take_all : (n : ℕ) (s : Bytes) → length s ≤ n → take n s ≡ s
take_all zero [] h = refl
take_all (suc n) [] h = refl
take_all zero (c ∷ s) h = absurd (omega (arith, h))
take_all (suc n) (c ∷ s) h = ap (◌∷◌ c) (take_all n s (omega (arith, h)))

-- An effect on the agent, several times.
abbrev pub times : {A : Type 0} → ℕ → (A → A) → A → A
times zero f a = a
times (suc n) f a = times n f (f a)

abbrev copies : ℕ → Error → List Error
copies zero e = []
copies (suc n) e = e ∷ copies n e

-- An exchange on a connection that was made.
dialled :
    {W : Type 0} (net : Net W) (path text : Bytes) (w w' : W)
    → net.dial path w ≡ (none, w')
    → send_keys_with_timeout net path text w ≡ request net text w'
unfolding send_keys_with_timeout
dialled {W} net path text w w' e =
    ap
      (λ (x : Option Error × W). elim x.0 as (λ y. Option Error × W) [
        | some e ↦ (some (wrap (str "connect to " ++ path) e), x.1)
        | none ↦ request net text x.1
      ])
      e

module _ {A : Type 0} (address : Bytes) (codec : Codec) (quote : Bytes → Bytes)
    (handler : Bytes → A → Option Error × A) where
  abbrev pub on_agent : Bytes → Wire A → Option Error × Wire A
  on_agent text w = let (r, a) = handler text w.agent in (r, record w { agent = a })

  -- The server's side: the decoder gets at most `limit` of the bytes that were sent.
  abbrev pub server_side : Conn (Wire A)
  server_side = record {
    set_deadline = λ ms w. w;
    decode = λ limit w. (codec.unmarshal_request (take limit w.sent), limit - length w.sent, w);
    encode = λ resp w. record w { replied = w.replied ++ codec.marshal_response resp };
    close = λ w. w;
  }

  -- The client's side. The agent listens at `address` and at no other path. The server handles the request when the client has closed its half.
  abbrev pub client_side : Net (Wire A)
  client_side = record {
    dial = λ path w.
        if equal path address
        then (none, record w { sent = []; replied = [] })
        else (some (message (str "connect: no such file or directory")), w);
    marshal_request = codec.marshal_request;
    write = λ bytes w. (none, record w { sent = w.sent ++ bytes });
    close_write = λ w. handle_conn quote server_side on_agent w;
    read_response = λ w. (codec.unmarshal_response w.replied, w);
    close = λ w. w;
    sleep = λ ms w. w;
  }

  -- What the client reports of what the handler returned.
  abbrev pub reported : Option Error → Option Error
  reported none = none
  reported (some e) = some (message (str "server error: " ++ error_text quote e))

  abbrev response : Option Error → SendKeysResponse
  response none = success
  response (some e) = refusal (error_text quote e)

  answer-replied :
      (r : Option Error) (a : A) (sent : Bytes)
      → answer quote server_side on_agent r (record { agent = a; sent = sent; replied = [] })
        ≡ record { agent = a; sent = sent; replied = codec.marshal_response (response r) }
  unfolding answer
  answer-replied none a sent = refl
  answer-replied (some e) a sent = refl

  module _ (text bytes : Bytes) (sent : codec.marshal_request text ≡ ok bytes)
      (read : codec.unmarshal_request bytes ≡ ok text) (small : length bytes ≤ max_request_size + 1)
      (answered : (resp : SendKeysResponse)
        → codec.unmarshal_response (codec.marshal_response resp) ≡ ok resp) where
    -- The wire when the handler worked on `a`.
    abbrev handled : A → Wire A
    handled a = record {
      agent = (handler text a).1;
      sent = bytes;
      replied = codec.marshal_response (response (handler text a).0);
    }

    served :
        (a : A)
        → handle_conn quote server_side on_agent (record { agent = a; sent = bytes; replied = [] })
          ≡ handled a
    unfolding handle_conn handle_request
    served a =
        ap
          (λ (r : Result Bytes).
            handle_request quote server_side on_agent r (max_request_size + 1 - length bytes)
              (record { agent = a; sent = bytes; replied = [] }))
          (ap codec.unmarshal_request (take_all (max_request_size + 1) bytes small) ∙ read)
        ∙ answer-replied (handler text a).0 (handler text a).1 bytes

    received :
        (r : Option Error) (a : A)
        → let w : Wire A = record {
          agent = a;
          sent = bytes;
          replied = codec.marshal_response (response r);
        } in
          receive client_side w ≡ (reported r, w)
    unfolding receive
    received none a = rw (answered success, receive) refl
    received (some e) a = rw (answered (refusal (error_text quote e)), receive) refl

    exchange :
        (w : Wire A)
        → send_keys_with_timeout client_side address text w
          ≡ (reported (handler text w.agent).0, handled w.agent)
    unfolding transmit request
    exchange w =
        dialled client_side address text w (record w { sent = []; replied = [] })
          (rw (equal_refl address) refl)
        ∙ rw (sent, request)
            (ap (receive client_side) (served w.agent)
              ∙ received (handler text w.agent).0 (handler text w.agent).1)

    failing :
        (e : Error) (effect : A → A)
        → ((a : A) → handler text a ≡ (some e, effect a))
        → (n k : ℕ) (w : Wire A)
        → (w' : Wire A) × Fails
            (send_keys_with_timeout client_side address text)
            client_side.sleep
            k
            (copies n (message (str "server error: " ++ error_text quote e)))
            w
            w'
          × (w'.agent ≡ times n effect w.agent)
    failing e effect h zero k w = (w, fails_none, refl)
    failing e effect h (suc n) k w =
        let (w', f, same) = failing e effect h n (suc k) (handled w.agent) in
        (
          w',
          fails_more
              (exchange w
                ∙ ap (λ (x : Option Error × A). (reported x.0, handled w.agent)) (h w.agent))
              f,
          same ∙ ap (λ (x : Option Error × A). times n effect x.1) (h w.agent),
        )

    -- `SendKeys` to the address of an agent whose connections carry what is written on them, with JSON texts that read
    -- back and a request within the limit: if the handler accepts the text, it is handled once, with
    -- that text, and there is no error. If the handler takes effect and returns an error, as a write
    -- that stops halfway does, the request is made again: the effect takes place 10 times, and the error
    -- that is returned bears the handler's.
    pub send_keys-exchange :
        (w : Wire A)
        → ((a : A)
            → handler text w.agent ≡ (none, a)
            → (w' : Wire A) × (send_keys client_side address text w ≡ (none, w')) × (w'.agent ≡ a))
          × ((e : Error) (effect : A → A)
              → ((a : A) → handler text a ≡ (some e, effect a))
              → (w' : Wire A) × (send_keys client_side address text w ≡ (
                some (gave_up (some (message (str "server error: " ++ error_text quote e)))),
                w',
              ))
                × (w'.agent ≡ times 10 effect w.agent))
    send_keys-exchange w = (
      λ a h. (
        handled w.agent,
        (send_keys-retries client_side address text [] w w fails_none).0 (handled w.agent)
            (exchange w ∙ ap (λ (x : Option Error × A). (reported x.0, handled w.agent)) h)
            (omega arith),
        ap (λ (x : Option Error × A). x.1) h,
      ),
      λ e effect h.
          let (w', f, same) = failing e effect h 10 0 w in
          (w', (send_keys-retries client_side address text _ w w' f).1 refl, same),
    )
