-- ===== src/Agent/Server/Answers.antt =====
-- internal/agent/protocol.go: what `handleConn` answers.
use shimux.Base.{
  Bytes, str, Error, Result, ok, err, error_text, ℕ, ◌+◌, ◌<◌, ◌≡◌, refl, sym, ap, true, false,
  Option, none, some, ◌++◌, arith,
}
use shimux.Agent.Client.{SendKeysResponse}
use shimux.Agent.Server.{
  Conn, max_request_size, conn_timeout, refusal, success, invalid_request, handle_request,
  handle_conn, answer,
}

module _ {W : Type 0} (quote : Bytes → Bytes) (conn : Conn W)
    (handler : Bytes → W → Option Error × W) where
  -- What `Decode` gives: the request or an error, what is left of the limit, and the world after it.
  abbrev pub decoded : W → Result Bytes × ℕ × W
  decoded w = conn.decode (max_request_size + 1) (conn.set_deadline conn_timeout w)

  -- The answer `resp`, written in the world `before`, to the request that was decoded.
  abbrev pub IsAnswer : Result Bytes × ℕ × W → SendKeysResponse → W → Type 0
  IsAnswer (err e, left, w) resp before =
      (before ≡ w)
      × (resp.ok ≡ false)
      × (left ≡ 0 → resp.error ≡ str "request too large")
      × (0 < left → resp.error ≡ str "invalid request: " ++ error_text quote e)
  IsAnswer (ok text, left, w) resp before =
      (before ≡ (handler text w).1)
      × (resp.ok ≡ true → (handler text w).0 ≡ none)
      × (resp.ok ≡ false
          → (e : Error) × ((handler text w).0 ≡ some e) × (resp.error ≡ error_text quote e))

  abbrev pub Answered : Result Bytes × ℕ × W → W → Type 0
  Answered x after =
      (resp : SendKeysResponse) × (before : W) × IsAnswer x resp before
      × (after ≡ conn.encode resp before)

  answer-Answered :
      (text : Bytes) (left : ℕ) (w : W) (r : Option Error) (w' : W)
      → handler text w ≡ (r, w')
      → Answered (ok text, left, w) (answer quote conn handler r w')
  unfolding answer
  answer-Answered text left w none w' h =
      (success, w', (ap (λ x. x.1) (sym h), λ _. ap (λ x. x.0) h, λ f. cc), refl)
  answer-Answered text left w (some e) w' h = (
    refusal (error_text quote e),
    w',
    (ap (λ x. x.1) (sym h), λ f. cc, λ _. (e, ap (λ x. x.0) h, refl)),
    refl,
  )

  handle_request-Answered :
      (r : Result Bytes) (left : ℕ) (w : W)
      → Answered (r, left, w) (handle_request quote conn handler r left w)
  unfolding handle_request invalid_request
  handle_request-Answered (err e) left w = (
    invalid_request quote e left,
    w,
    (refl, refl, (λ h. ground (arith, h)), (λ h. ground (arith, h))),
    refl,
  )
  handle_request-Answered (ok text) left w = answer-Answered text left w _ _ refl

  -- `handleConn` answers each connection once and closes it after the answer, on every way out. A
  -- request that does not decode is refused and does not reach the handler: as too large when the
  -- limit is used up, and else as invalid, with the error. A request that decodes is handled once, with
  -- its text: the answer is ok exactly when the handler returned no error, and else bears the error.
  pub handle_conn-Answered :
      (w : W)
      → (after : W) × Answered (decoded w) after
        × (handle_conn quote conn handler w ≡ conn.close after)
  unfolding handle_conn
  handle_conn-Answered w =
      (_, handle_request-Answered (decoded w).0 (decoded w).1 (decoded w).2, refl)
