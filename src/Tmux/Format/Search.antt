-- ===== src/Tmux/Format/Search.antt =====
-- `strings.Index(s, "#{")` and `strings.IndexByte(s, '}')`, with the slices on both sides of the
-- match in place of its index.
use shimux.Base.{
  ◌==◌, if◌then◌else◌, Bool-cases, Option-cases, length, all, length-append, Bytes, str, ℕ, suc,
  ◌≤◌, ◌≡◌, refl, sym, ap, subst, ◌∙◌, ◌≢◌, inl, inr, true, false, not, ◌&&◌, Option, none, some,
  [], ◌∷◌, ◌++◌, append_assoc, arith,
}

abbrev prepend : ℕ → Option (Bytes × Bytes) → Option (Bytes × Bytes)
prepend c none = none
prepend c (some (before, after)) = some (c ∷ before, after)

-- What stands before the first "#{" and what stands behind it.
unfoldable pub index_open : Bytes → Option (Bytes × Bytes)
index_open [] = none
index_open (c ∷ []) = none
index_open (c ∷ d ∷ s) =
    if c == b'#' && d == b'{' then some ([], s) else prepend c (index_open (d ∷ s))

-- What stands before the first '}' and what stands behind it.
unfoldable pub index_close : Bytes → Option (Bytes × Bytes)
index_close [] = none
index_close (c ∷ s) = if c == b'}' then some ([], s) else prepend c (index_close s)

-- A match cuts the text `s` in two round the separator.
abbrev pub Splits : Bytes → Bytes → Option (Bytes × Bytes) → Type 0
Splits sep s none = Unit {0}
Splits sep s (some (before, after)) = s ≡ before ++ (sep ++ after)

Splits-prepend :
    (sep s : Bytes) (c : ℕ) (o : Option (Bytes × Bytes))
    → Splits sep s o
    → Splits sep (c ∷ s) (prepend c o)
Splits-prepend sep s c none h = tt
Splits-prepend sep s c (some (before, after)) h = ap (◌∷◌ c) h

pub index_open-Splits : (s : Bytes) → Splits (str "#{") s (index_open s)
unfolding index_open
index_open-Splits [] = tt
index_open-Splits (c ∷ []) = tt
index_open-Splits (c ∷ d ∷ s) = elim (Bool-cases (c == b'#' && d == b'{')) [
  | inl e ↦
      let found : index_open (c ∷ d ∷ s) ≡ some ([], s) = rw e in
      subst (Splits (str "#{") (c ∷ d ∷ s)) (sym found) (ground arith)
  | inr e ↦
      rw e (Splits-prepend (str "#{") (d ∷ s) c (index_open (d ∷ s)) (index_open-Splits (d ∷ s)))
]

pub index_close-Splits : (s : Bytes) → Splits (str "}") s (index_close s)
unfolding index_close
index_close-Splits [] = tt
index_close-Splits (c ∷ s) = elim (Bool-cases (c == b'}')) [
  | inl e ↦
      let found : index_close (c ∷ s) ≡ some ([], s) = rw e in
      subst (Splits (str "}") (c ∷ s)) (sym found) (ground arith)
  | inr e ↦ rw e (Splits-prepend (str "}") s c (index_close s) (index_close-Splits s))
]

-- No '}' in the text.
abbrev pub IsClosed : Bytes → Type 0
IsClosed s = all (λ c. not (c == b'}')) s ≡ true

pub index_close-append :
    (name rest : Bytes) → IsClosed name → index_close (name ++ b'}' ∷ rest) ≡ some (name, rest)
unfolding index_close
index_close-append [] rest h = refl
index_close-append (c ∷ name) rest h = ground (arith, index_close-append name rest)

pub index_open-append :
    (text rest : Bytes)
    → index_open text ≡ none
    → index_open (text ++ b'#' ∷ b'{' ∷ rest) ≡ some (text, rest)
unfolding index_open
index_open-append [] rest h = refl
index_open-append (c ∷ []) rest h = ground arith
index_open-append (c ∷ d ∷ text) rest h = ground (arith, index_open-append (d ∷ text) rest)

-- No "#{" in the text, and no '}'.
abbrev pub IsPlain : Bytes → Type 0
IsPlain s = (a b : Bytes) → s ≢ a ++ (str "#{" ++ b)

-- `o` is a match with at most `n` bytes in front.
abbrev Within : ℕ → Option (Bytes × Bytes) → Type 0
Within n none = ⊥
Within n (some (before, rest)) = length before ≤ n

Within-prepend : (n c : ℕ) (o : Option (Bytes × Bytes)) → Within n o → Within (suc n) (prepend c o)
Within-prepend n c none h = h
Within-prepend n c (some (a, b)) h = omega arith

index_open_finds : (a b : Bytes) → Within (length a) (index_open (a ++ (str "#{" ++ b)))
unfolding index_open
index_open_finds [] b = omega arith
index_open_finds (c ∷ []) b = elim (Bool-cases (c == b'#' && b'#' == b'{')) [
  | inl e ↦ absurd (ground arith)
  | inr e ↦ rw e (Within-prepend 0 c (index_open (str "#{" ++ b)) (omega arith))
]
index_open_finds (c ∷ d ∷ a) b = elim (Bool-cases (c == b'#' && d == b'{')) [
  | inl e ↦ rw e (omega arith)
  | inr e ↦ rw e (
      Within-prepend (suc (length a)) c (index_open (d ∷ a ++ (str "#{" ++ b)))
        (index_open_finds (d ∷ a) b))
]

pub index_open-IsPlain : (s : Bytes) → index_open s ≡ none → IsPlain s
index_open-IsPlain s h a b e =
    subst (Within (length a)) (ap index_open (sym e) ∙ h) (index_open_finds a b)

pub IsPlain-index_open : (s : Bytes) → IsPlain s → index_open s ≡ none
IsPlain-index_open s h = elim (Option-cases (index_open s)) [
  | inl e ↦ e
  | inr ((a, b), e) ↦ absurd (h a b (subst (Splits (str "#{") s) e (index_open-Splits s)))
]

-- What stands before the first "#{" holds none.
pub index_open-before :
    (s : Bytes) {before rest : Bytes}
    → index_open s ≡ some (before, rest)
    → index_open before ≡ none
index_open-before s {before} {rest} e = IsPlain-index_open before plain
  where
    cut : s ≡ before ++ (str "#{" ++ rest)
    cut = subst (Splits (str "#{") s) e (index_open-Splits s)

    first : (a b : Bytes) → s ≡ a ++ (str "#{" ++ b) → length before ≤ length a
    first a b p = subst (Within (length a)) (ap index_open (sym p) ∙ e) (index_open_finds a b)

    plain : IsPlain before
    plain a b p = absurd (
        omega (
          arith,
          first a (b ++ (str "#{" ++ rest)) (
              cut
              ∙ ap (λ x. x ++ (str "#{" ++ rest)) p
              ∙ append_assoc a (str "#{" ++ b) (str "#{" ++ rest)),
          ap length p,
          length-append a (str "#{" ++ b),
        ))

-- The text in front of the match, or the whole text if there is none, is closed.
abbrev ClosedBefore : Bytes → Option (Bytes × Bytes) → Type 0
ClosedBefore s none = IsClosed s
ClosedBefore s (some (name, rest)) = IsClosed name

ClosedBefore-prepend :
    (c : ℕ) (s : Bytes) (o : Option (Bytes × Bytes))
    → (c == b'}') ≡ false
    → ClosedBefore s o
    → ClosedBefore (c ∷ s) (prepend c o)
ClosedBefore-prepend c s none e h = rw e h
ClosedBefore-prepend c s (some (name, rest)) e h = rw e h

index_close-ClosedBefore : (s : Bytes) → ClosedBefore s (index_close s)
unfolding index_close
index_close-ClosedBefore [] = refl
index_close-ClosedBefore (c ∷ s) = elim (Bool-cases (c == b'}')) [
  | inl e ↦ subst (ClosedBefore (c ∷ s)) {x = some ([], s)} (rw e) refl
  | inr e ↦
      subst (ClosedBefore (c ∷ s)) {x = prepend c (index_close s)} (rw e)
        (ClosedBefore-prepend c s (index_close s) e (index_close-ClosedBefore s))
]

pub index_close-before :
    (s : Bytes) {name rest : Bytes} → index_close s ≡ some (name, rest) → IsClosed name
index_close-before s e = subst (ClosedBefore s) e (index_close-ClosedBefore s)

pub index_close-IsClosed : (s : Bytes) → index_close s ≡ none → IsClosed s
index_close-IsClosed s e = subst (ClosedBefore s) e (index_close-ClosedBefore s)

pub IsClosed-index_close : (s : Bytes) → IsClosed s → index_close s ≡ none
unfolding index_close
IsClosed-index_close [] h = refl
IsClosed-index_close (c ∷ s) h = ground (arith, IsClosed-index_close s)
