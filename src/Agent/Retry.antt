-- ===== src/Agent/Retry.antt =====
-- internal/agent/protocol.go: the retries of `SendKeys`.
use shimux.Base.{
  ltb, if◌then◌else◌, length, Bytes, Error, ℕ, zero, suc, ◌*◌, ◌^◌, ◌<◌, ◌≡◌, refl, ap, ◌∙◌, Option,
  none, some, List, [], ◌∷◌, arith,
}
use shimux.Agent.Client.{Net, retry, gave_up, next_interval, send_keys, send_keys_with_timeout}

-- The pause after the failure number `k`, from 0: it doubles from 10 ms up to 200 ms.
abbrev pub delay : ℕ → ℕ
delay k = if ltb 200 (10 * 2 ^ k) then 200 else 10 * 2 ^ k

next_interval-delay : (k : ℕ) → next_interval (delay k) ≡ delay (suc k)
next_interval-delay k = ground arith

abbrev pub last_of : Option Error → List Error → Option Error
last_of last [] = last
last_of last (e ∷ es) = last_of (some e) es

module _ {W : Type 0} (attempt : W → Option Error × W) (sleep : ℕ → W → W) where
  -- From `w`, attempts fail one after the other with the errors of a list, the first of them being
  -- the failure number `k`; each failure is followed by its pause, and `w'` is the world after them.
  pub data Fails : ℕ → List Error → W → W → Type 0 where
    fails_none : {k : ℕ} {w : W} → Fails k [] w w
    fails_more :
        {k : ℕ} {e : Error} {es : List Error} {w w₁ w' : W}
        → attempt w ≡ (some e, w₁)
        → Fails (suc k) es (sleep (delay k) w₁) w'
        → Fails k (e ∷ es) w w'

  after : ℕ → ℕ → Option Error × W → Option Error × W
  after n i x = elim x.0 [
    | none ↦ (none, x.1)
    | some e ↦ retry attempt sleep n (next_interval i) (some e) (sleep i x.1)
  ]

  retry-suc :
      (n i : ℕ) (last : Option Error) (w : W)
      → retry attempt sleep (suc n) i last w ≡ after n i (attempt w)
  unfolding retry after
  retry-suc n i last w = refl

  after_failure :
      (n k : ℕ) (e : Error) {w₁ : W} {x : Option Error × W}
      → x ≡ (some e, w₁)
      → after n (delay k) x ≡ retry attempt sleep n (delay (suc k)) (some e) (sleep (delay k) w₁)
  unfolding after
  after_failure n k e {w₁} {x} h =
      ap (after n (delay k)) h
      ∙ ap (λ i. retry attempt sleep n i (some e) (sleep (delay k) w₁)) (next_interval-delay k)

  retry-success :
      (n k : ℕ) (last : Option Error) (es : List Error) {w w' w'' : W}
      → Fails k es w w'
      → attempt w' ≡ (none, w'')
      → length es < n
      → retry attempt sleep n (delay k) last w ≡ (none, w'')
  unfolding after
  retry-success zero k last es f a h = absurd (omega (arith, h))
  retry-success (suc n) k last [] fails_none a h =
      retry-suc n (delay k) last _ ∙ ap (after n (delay k)) a
  retry-success (suc n) k last (e ∷ es) (fails_more b f) a h =
      retry-suc n (delay k) last _
      ∙ after_failure n k e b
      ∙ retry-success n (suc k) (some e) es f a (omega (arith, h))

  retry-failure :
      (n k : ℕ) (last : Option Error) (es : List Error) {w w' : W}
      → Fails k es w w'
      → length es ≡ n
      → retry attempt sleep n (delay k) last w ≡ (some (gave_up (last_of last es)), w')
  unfolding retry
  retry-failure zero k last [] fails_none h = refl
  retry-failure zero k last (e ∷ es) f h = absurd (omega (arith, h))
  retry-failure (suc n) k last [] f h = absurd (omega (arith, h))
  retry-failure (suc n) k last (e ∷ es) (fails_more b f) h =
      retry-suc n (delay k) last _
      ∙ after_failure n k e b
      ∙ retry-failure n (suc k) (some e) es f (omega (arith, h))

-- `SendKeys` makes an exchange with the agent and repeats it after each failure, with a pause that
-- doubles from 10 ms up to 200 ms. After fewer than 10 failures it stops at the first success without
-- an error; after 10 failures it makes no further attempt and returns an error that wraps the last one.
pub send_keys-retries :
    {W : Type 0} (net : Net W) (path text : Bytes) (es : List Error) (w w' : W)
    → Fails (send_keys_with_timeout net path text) net.sleep 0 es w w'
    → ((w'' : W)
        → send_keys_with_timeout net path text w' ≡ (none, w'')
        → length es < 10
        → send_keys net path text w ≡ (none, w''))
      × (length es ≡ 10 → send_keys net path text w ≡ (some (gave_up (last_of none es)), w'))
unfolding send_keys
send_keys-retries net path text es w w' f = (
  λ w'' a h. retry-success _ net.sleep 10 0 none es f a h,
  λ h. retry-failure _ net.sleep 10 0 none es f h,
)
