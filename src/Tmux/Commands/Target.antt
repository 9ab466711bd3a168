-- ===== src/Tmux/Commands/Target.antt =====
-- internal/tmux/commands.go, `extractPaneID`: the pane that a target names.
use shimux.Base.{
  ◌==◌, all, Bytes, ℕ, ◌≡◌, refl, Bool, true, false, not, none, some, [], ◌∷◌, ◌++◌, arith,
}
use shimux.Base.Decimal.{decimal, decimal-is_digit, is_digit}
use shimux.Tmux.Commands.{after_percent, leading_digits, extract_pane_id}

abbrev pub no_percent : Bytes → Bool
no_percent s = all (λ c. not (c == b'%')) s

-- The text ends, or goes on with a byte that is no digit.
abbrev pub starts_digit : Bytes → Bool
starts_digit [] = false
starts_digit (c ∷ s) = is_digit c

after_percent-no_percent : (s : Bytes) → no_percent s ≡ true → after_percent s ≡ none
unfolding after_percent
after_percent-no_percent [] h = refl
after_percent-no_percent (c ∷ s) h = ground (arith, after_percent-no_percent s)

after_percent-append :
    (pre s : Bytes) → no_percent s ≡ true → after_percent (pre ++ b'%' ∷ s) ≡ some s
unfolding after_percent
after_percent-append [] s h = rw (after_percent-no_percent s h)
after_percent-append (c ∷ pre) s h = rw (after_percent-append pre s h)

leading_digits-append :
    (ds rest : Bytes)
    → all is_digit ds ≡ true
    → starts_digit rest ≡ false
    → leading_digits (ds ++ rest) ≡ ds
unfolding leading_digits
leading_digits-append [] [] h k = refl
leading_digits-append [] (c ∷ rest) h k = rw k
leading_digits-append (d ∷ ds) rest h k = ground (arith, leading_digits-append ds rest)

digits-no_percent :
    (ds rest : Bytes)
    → all is_digit ds ≡ true
    → no_percent rest ≡ true
    → no_percent (ds ++ rest) ≡ true
unfolding is_digit
digits-no_percent [] rest h k = k
digits-no_percent (d ∷ ds) rest h k = ground (arith, digits-no_percent ds rest)

-- A target names the pane `n` if it is any text, a percent sign and `n` in decimal, and then nothing
-- or a text that starts with no digit and holds no percent sign: `%5`, `session:0.%5`, `%5.x`.
pub extract_pane_id-decimal :
    (pre rest : Bytes) (n : ℕ)
    → starts_digit rest ≡ false
    → no_percent rest ≡ true
    → extract_pane_id (pre ++ b'%' ∷ (decimal n ++ rest)) ≡ decimal n
unfolding extract_pane_id
extract_pane_id-decimal pre rest n h k =
    rw
      (
        after_percent-append pre (decimal n ++ rest)
            (digits-no_percent (decimal n) rest (decimal-is_digit n) k),
        extract_pane_id,
      )
      (leading_digits-append (decimal n) rest (decimal-is_digit n) h)
