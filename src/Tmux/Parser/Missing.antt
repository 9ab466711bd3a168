-- ===== src/Tmux/Parser/Missing.antt =====
-- internal/tmux/parser.go: the error of a flag whose value is missing.
use shimux.Base.{
  if◌then◌else◌, Bool-cases, Bytes, str, equal, equal_iff, Error, message, ok, err, ◌≡◌, refl, sym,
  ap, subst, ◌∙◌, ◌↔◌, inl, inr, Bool, true, false, ◌||◌, List, [], ◌∷◌, ◌++◌, append_assoc, arith,
}
use shimux.Tmux.Parser.{Arg, bare, value, scan, requires}
use shimux.Tmux.Parser.Scan.{Arg-cases, scan-bare, scan-value, scan_dangling, scan-append}

-- The flags of a command that take a value.
abbrev pub one_of : List Bytes → Bytes → Bool
one_of [] arg = false
one_of (flag ∷ flags) arg = equal arg flag || one_of flags arg

-- The arguments are read to their end: a flag with a value takes the argument behind it, whatever it
-- looks like; every other argument stands for itself.
pub data Reads (flags : List Bytes) : List Bytes → Type 0 where
  end : Reads flags []
  alone :
      {arg : Bytes} {rest : List Bytes}
      → one_of flags arg ≡ false
      → Reads flags rest
      → Reads flags (arg ∷ rest)
  pair :
      {arg v : Bytes} {rest : List Bytes}
      → one_of flags arg ≡ true
      → Reads flags rest
      → Reads flags (arg ∷ v ∷ rest)

-- The last argument is a flag whose value is missing, and the error bears its name.
pub record Misses (flags args : List Bytes) (e : Error) : Type 0 where
  pub before : List Bytes
  pub flag : Bytes
  pub splits : args ≡ before ++ flag ∷ []
  pub reads : Reads flags before
  pub takes_value : one_of flags flag ≡ true
  pub names : e ≡ message (flag ++ str " requires a value")

-- The switch takes the flags and no other argument for flags with a value, by their own names.
abbrev pub Fits : {O : Type 0} → List Bytes → Bytes → Arg O → Type 0
Fits flags arg (bare o) = one_of flags arg ≡ false
Fits flags arg (value flag f) = (one_of flags arg ≡ true) × (flag ≡ arg)

module _ {O : Type 0} (flags : List Bytes) (arg : Bytes) where
  -- One case of a switch: for an argument that stands for itself, and for a flag with a value.
  pub Fits-bare :
      (name : Bytes) (o : O) (rest : Arg O)
      → one_of flags name ≡ false
      → (equal arg name ≡ false → Fits flags arg rest)
      → Fits flags arg (if equal arg name then bare o else rest)
  Fits-bare name o rest n h = elim (Bool-cases (equal arg name)) [
    | inl e ↦ rw e (subst (λ a. one_of flags a ≡ false) (sym ((equal_iff arg name).0 e)) n)
    | inr e ↦ rw e (h e)
  ]

  pub Fits-value :
      (name : Bytes) (f : Bytes → O) (rest : Arg O)
      → one_of flags name ≡ true
      → (equal arg name ≡ false → Fits flags arg rest)
      → Fits flags arg (if equal arg name then value name f else rest)
  Fits-value name f rest n h = elim (Bool-cases (equal arg name)) [
    | inl e ↦
        let same = sym ((equal_iff arg name).0 e) in
        rw e (subst (λ a. one_of flags a ≡ true) same n, same)
    | inr e ↦ rw e (h e)
  ]

module _ {O : Type 0} (flags : List Bytes) (step : Bytes → O → Arg O)
    (fits : (arg : Bytes) (o : O) → Fits flags arg (step arg o)) where
  bare-Fits : (arg : Bytes) (o : O) {o' : O} → step arg o ≡ bare o' → one_of flags arg ≡ false
  bare-Fits arg o e = subst (Fits flags arg) e (fits arg o)

  value-Fits :
      (arg : Bytes) (o : O) {flag : Bytes} {f : Bytes → O}
      → step arg o ≡ value flag f
      → (one_of flags arg ≡ true) × (flag ≡ arg)
  value-Fits arg o e = subst (Fits flags arg) e (fits arg o)

  Misses-append :
      {args : List Bytes} {e : Error} (front : List Bytes)
      → ((rest : List Bytes) → Reads flags rest → Reads flags (front ++ rest))
      → Misses flags args e
      → Misses flags (front ++ args) e
  Misses-append {args} front r m = record {
    before = front ++ m.before;
    flag = m.flag;
    splits = ap (◌++◌ front) m.splits ∙ sym (append_assoc front m.before (m.flag ∷ []));
    reads = r m.before m.reads;
    takes_value = m.takes_value;
    names = m.names;
  }

  scan-Misses :
      (args : List Bytes) (o : O) {e : Error} → scan step args o ≡ err e → Misses flags args e
  scan-Misses [] o h = unfold scan in cc
  scan-Misses (arg ∷ []) o {e} h = elim (Arg-cases (step arg o)) [
    | inl (o₁, b) ↦
        let done : scan step [] o₁ ≡ err e = sym (scan-bare step arg [] o b) ∙ h in
        unfold scan in cc
    | inr (flag, f, b) ↦
        let (takes, same) = value-Fits arg o b in
        record {
          before = [];
          flag = arg;
          splits = refl;
          reads = end;
          takes_value = takes;
          names = cc (scan_dangling step arg o b, same);
        }
  ]
  scan-Misses (arg ∷ v ∷ rest) o h = elim (Arg-cases (step arg o)) [
    | inl (o₁, b) ↦
        Misses-append (arg ∷ []) (λ r. alone (bare-Fits arg o b))
          (scan-Misses (v ∷ rest) o₁ (sym (scan-bare step arg (v ∷ rest) o b) ∙ h))
    | inr (flag, f, b) ↦
        Misses-append (arg ∷ v ∷ []) (λ r. pair (value-Fits arg o b).0)
          (scan-Misses rest (f v) (sym (scan-value step arg v rest o b) ∙ h))
  ]

  -- Arguments that are read leave some options.
  Reads-scan :
      {args : List Bytes} → Reads flags args → (o : O) → (o' : O) × (scan step args o ≡ ok o')
  Reads-scan end o = (o, unfold scan in refl)
  Reads-scan (alone {arg} {rest} n r) o = elim (Arg-cases (step arg o)) [
    | inl (o₁, b) ↦ let (o', h) = Reads-scan r o₁ in (o', scan-bare step arg rest o b ∙ h)
    | inr (flag, f, b) ↦ absurd (ground (arith, value-Fits arg o b, n))
  ]
  Reads-scan (pair {arg} {v} {rest} n r) o = elim (Arg-cases (step arg o)) [
    | inl (o₁, b) ↦ absurd (ground (arith, bare-Fits arg o b, n))
    | inr (flag, f, b) ↦
        let (o', h) = Reads-scan r (f v) in (o', scan-value step arg v rest o b ∙ h)
  ]

  Misses-scan :
      (args : List Bytes) (o : O) {e : Error} → Misses flags args e → scan step args o ≡ err e
  Misses-scan args o {e} m =
      let (o', h) = Reads-scan m.reads o in
      ap (λ xs. scan step xs o) m.splits ∙ scan-append step m.before (m.flag ∷ []) o h ∙ last o'
    where
      last : (o' : O) → scan step (m.flag ∷ []) o' ≡ err e
      last o' = elim (Arg-cases (step m.flag o')) [
        | inl (o₁, b) ↦ absurd (ground (arith, bare-Fits m.flag o' b, m.takes_value))
        | inr (flag, f, b) ↦
            scan_dangling step m.flag o' b
            ∙ ap (λ x. err (requires x)) (value-Fits m.flag o' b).1
            ∙ ap err (sym m.names)
      ]

  -- The loop of such a switch fails exactly when a value is missing.
  pub scan-err_iff :
      (o : O) (args : List Bytes) (e : Error) → (scan step args o ≡ err e) ↔ Misses flags args e
  scan-err_iff o args e = (scan-Misses args o, Misses-scan args o)
