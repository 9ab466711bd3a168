-- ===== src/Tmux/Parser/Scan.antt =====
-- The loop shared by the parsers of the commands: its steps, composition and invariants.
use mathlib.Core.Path.{subst}
use shimux.Base.{List, [], ◌∷◌, ◌++◌, ◌≡◌, refl, sym, ◌∙◌, ◌⊎◌, inl, inr, Bytes, ok, err, arith}
use shimux.Tmux.Parser.{Arg, bare, value, scan, requires}

pub Arg-cases :
    {O : Type 0} (a : Arg O)
    → ((o : O) × (a ≡ bare o)) ⊎ ((flag : Bytes) × (f : Bytes → O) × (a ≡ value flag f))
Arg-cases (bare o) = inl (o, refl)
Arg-cases (value flag f) = inr (flag, f, refl)

-- `P` holds of the options that the switch leaves, whatever the value.
abbrev pub Keeps : {O : Type 0} → (O → Type 0) → Arg O → Type 0
Keeps P (bare o) = P o
Keeps P (value flag f) = (v : Bytes) → P (f v)

module _ {O : Type 0} (step : Bytes → O → Arg O) where
  pub scan-bare :
      (arg : Bytes) (xs : List Bytes) (o : O) {o' : O}
      → step arg o ≡ bare o'
      → scan step (arg ∷ xs) o ≡ scan step xs o'
  unfolding scan
  scan-bare arg [] o s = ground arith
  scan-bare arg (v ∷ rest) o s = ground arith

  pub scan-value :
      (arg v : Bytes) (rest : List Bytes) (o : O) {flag : Bytes} {f : Bytes → O}
      → step arg o ≡ value flag f
      → scan step (arg ∷ v ∷ rest) o ≡ scan step rest (f v)
  unfolding scan
  scan-value arg v rest o s = ground arith

  pub scan_dangling :
      (arg : Bytes) (o : O) {flag : Bytes} {f : Bytes → O}
      → step arg o ≡ value flag f
      → scan step (arg ∷ []) o ≡ err (requires flag)
  unfolding scan
  scan_dangling arg o s = ground arith

  -- What a prefix that parses leaves behind is where the rest starts.
  pub scan-append :
      (xs ys : List Bytes) (o : O) {o' : O}
      → scan step xs o ≡ ok o'
      → scan step (xs ++ ys) o ≡ scan step ys o'
  scan-append [] ys o h = unfold scan in ground arith
  scan-append (arg ∷ []) ys o {o'} h = elim (Arg-cases (step arg o)) [
    | inl (o₁, e) ↦
        let done : scan step [] o₁ ≡ ok o' = sym (scan-bare arg [] o e) ∙ h in
        scan-bare arg ys o e ∙ (unfold scan in ground arith)
    | inr (flag, f, e) ↦ cc (scan_dangling arg o e)
  ]
  scan-append (arg ∷ v ∷ rest) ys o h = elim (Arg-cases (step arg o)) [
    | inl (o₁, e) ↦
        scan-bare arg (v ∷ rest ++ ys) o e
        ∙ scan-append (v ∷ rest) ys o₁ (sym (scan-bare arg (v ∷ rest) o e) ∙ h)
    | inr (flag, f, e) ↦
        scan-value arg v (rest ++ ys) o e
        ∙ scan-append rest ys (f v) (sym (scan-value arg v rest o e) ∙ h)
  ]

  -- An invariant of the switch is one of the loop.
  pub scan-keeps :
      (P : O → Type 0)
      → ((arg : Bytes) (o : O) → P o → Keeps P (step arg o))
      → (args : List Bytes) (o : O) → P o
      → {o' : O} → scan step args o ≡ ok o'
      → P o'
  scan-keeps P keep [] o h {o'} e = subst P {x = o} {y = o'} (unfold scan in cc) h
  scan-keeps P keep (arg ∷ []) o h {o'} e = elim (Arg-cases (step arg o)) [
    | inl (o₁, b) ↦
        let done : scan step [] o₁ ≡ ok o' = sym (scan-bare arg [] o b) ∙ e in
        subst P {x = o₁} {y = o'} (unfold scan in cc) (subst (Keeps P) b (keep arg o h))
    | inr (flag, f, b) ↦ cc (scan_dangling arg o b)
  ]
  scan-keeps P keep (arg ∷ v ∷ rest) o h e = elim (Arg-cases (step arg o)) [
    | inl (o₁, b) ↦
        scan-keeps P keep (v ∷ rest) o₁ (subst (Keeps P) b (keep arg o h))
          (sym (scan-bare arg (v ∷ rest) o b) ∙ e)
    | inr (flag, f, b) ↦
        scan-keeps P keep rest (f v) (subst (Keeps P) b (keep arg o h) v)
          (sym (scan-value arg v rest o b) ∙ e)
  ]
