-- ===== src/Base/FilePath/Lengths.antt =====
-- The lengths of cleaned and joined paths.
use Prim.Native.Nat.{ℕ, suc, ◌+◌, ◌-◌, ◌≤◌}
use mathlib.Core.Path.{◌≡◌, refl, ap, ◌∙◌}
use mathlib.Core.Logic.{inl, inr}
use mathlib.Core.Bool.{Bool, true, false, ◌||◌}
use mathlib.Core.List.{List, [], ◌∷◌, ◌++◌, reverse, reverse-append}
use native.Mathlib.Omega.{arith}
use shimux.Base.Tests.{◌==◌, if◌then◌else◌, Bool-cases}
use shimux.Base.Lists.{length, length-append}
use shimux.Base.Text.{Bytes, str, is, equal_iff}
use shimux.Base.FilePath.{
  first_byte, elements, join_slash, leave, clean_elements, or_dot, clean, join,
}

-- The bytes of the elements, with one slash for each.
abbrev pub size : List Bytes → ℕ
size [] = 0
size (e ∷ es) = length e + 1 + size es

size-append : (xs ys : List Bytes) → size (xs ++ ys) ≡ size xs + size ys
size-append [] ys = omega arith
size-append (x ∷ xs) ys = omega (arith, size-append xs ys)

size-reverse : (es : List Bytes) → size (reverse es) ≡ size es
size-reverse [] = refl
size-reverse (e ∷ es) =
    ap size (reverse-append (e ∷ []) es)
    ∙ omega (arith, size-append (reverse es) (e ∷ []), size-reverse es)

length-join_slash : (es : List Bytes) → length (join_slash es) ≤ size es - 1
unfolding join_slash
length-join_slash [] = omega arith
length-join_slash (e ∷ []) = omega arith
length-join_slash (e ∷ f ∷ es) =
    omega (arith, length-append e (b'/' ∷ join_slash (f ∷ es)), length-join_slash (f ∷ es))

size-first_byte :
    (c : ℕ) (es : List Bytes) (n : ℕ)
    → size es ≡ suc n
    → size (first_byte (λ e. c ∷ e) es) ≡ suc (suc n)
size-first_byte c [] n h = absurd (omega (arith, h))
size-first_byte c (e ∷ es) n h = omega (arith, h)

size-elements : (s : Bytes) → size (elements s) ≡ suc (length s)
unfolding elements
size-elements [] = omega arith
size-elements (c ∷ s) = elim (Bool-cases (c == b'/')) [
  | inl e ↦ rw e (omega (arith, size-elements s))
  | inr e ↦ rw e (size-first_byte c (elements s) (length s) (size-elements s))
]

size-leave : (rooted : Bool) (stack : List Bytes) → size (leave rooted stack) ≤ size stack + 3
unfolding leave
size-leave true [] = omega arith
size-leave false [] = omega arith
size-leave rooted (top ∷ stack) = ground arith

-- An element makes the stack longer by itself and its slash at most.
size-next :
    (rooted : Bool) (stack : List Bytes) (e : Bytes)
    → size
        (if is e "" || is e "." then stack else if is e ".." then leave rooted stack else e ∷ stack)
      ≤ size stack + (length e + 1)
size-next rooted stack e = elim (Bool-cases (is e "" || is e ".")) [
  | inl p ↦ rw p (omega arith)
  | inr p ↦ elim (Bool-cases (is e "..")) [
    | inl q ↦
        rw (p, q) (omega (arith, size-leave rooted stack, ap length ((equal_iff e (str "..")).0 q)))
    | inr q ↦ rw (p, q) (omega arith)
  ]
]

size-clean_elements :
    (rooted : Bool) (stack es : List Bytes)
    → size (clean_elements rooted stack es) ≤ size stack + size es
unfolding clean_elements
size-clean_elements rooted stack [] = omega (arith, size-reverse stack)
size-clean_elements rooted stack (e ∷ es) = omega (
  arith,
  size-next rooted stack e,
  size-clean_elements rooted
      (if is e "" || is e "." then stack else if is e ".." then leave rooted stack else e ∷ stack)
      es,
)

length-or_dot : (body : Bytes) (n : ℕ) → length body ≤ suc n → length (or_dot body) ≤ suc n
length-or_dot [] n h = omega arith
length-or_dot (c ∷ body) n h = h

length-body :
    (rooted : Bool) (es : List Bytes)
    → length (join_slash (clean_elements rooted [] es)) ≤ size es - 1
length-body rooted es =
    omega (arith, length-join_slash (clean_elements rooted [] es), size-clean_elements rooted [] es)

length-clean_bytes : (c : ℕ) (s : Bytes) → length (clean (c ∷ s)) ≤ suc (length s)
unfolding clean elements clean_elements
length-clean_bytes c s = elim (Bool-cases (c == b'/')) [
  | inl e ↦ rw e (omega (arith, length-body true (elements s), size-elements s))
  | inr e ↦ rw e (
      length-or_dot _ (length s) (
        omega (
          arith,
          length-body false (first_byte (λ e'. c ∷ e') (elements s)),
          size-first_byte c (elements s) (length s) (size-elements s),
        )))
]

-- `Clean` does not make a path longer, but for the empty one, which it makes one byte.
length-clean : (path : Bytes) (n : ℕ) → length path ≤ suc n → length (clean path) ≤ suc n
unfolding clean clean_elements elements
length-clean [] n h = omega arith
length-clean (c ∷ s) n h = omega (arith, h, length-clean_bytes c s)

-- `Join` gives at most its elements with a slash between each two.
pub length-join : (es : List Bytes) → length (join es) ≤ size es - 1
unfolding join
length-join [] = omega arith
length-join ([] ∷ es) = omega (arith, length-join es)
length-join ((c ∷ e) ∷ es) = omega (
  arith,
  length-clean (join_slash ((c ∷ e) ∷ es)) (length e + size es)
      (omega (arith, length-join_slash ((c ∷ e) ∷ es))),
)
