-- ===== src/Wrapper/Session.antt =====
-- internal/wrapper/wrapper.go: the name of a session.
use mathlib.Core.Path.{ap₂}
use shimux.Base.{
  ◌==◌, within, if◌then◌else◌, Bool-cases, all, Bytes, ℕ, zero, suc, ◌<◌, ◌≡◌, refl, inl, inr, Bool,
  true, ◌&&◌, ◌||◌, [], ◌∷◌, arith,
}

-- `range` over a string: how many bytes the rune at the front takes. Bytes that are no UTF-8 sequence
-- count as one rune each.
abbrev is_tail : ℕ → Bool
is_tail c = within 128 191 c

abbrev second_is : ℕ → ℕ → Bool
second_is b c =
    if b == 224
    then within 160 191 c
    else if b == 237
    then within 128 159 c
    else if b == 240
    then within 144 191 c
    else if b == 244
    then within 128 143 c
    else is_tail c

unfoldable pub more_bytes : ℕ → Bytes → ℕ
more_bytes b (c ∷ d ∷ e ∷ s) =
    if within 194 223 b && is_tail c
    then 1
    else if within 224 239 b && second_is b c && is_tail d
    then 2
    else if within 240 244 b && second_is b c && is_tail d && is_tail e
    then 3
    else 0
more_bytes b (c ∷ d ∷ []) =
    if within 194 223 b && is_tail c
    then 1
    else if within 224 239 b && second_is b c && is_tail d
    then 2
    else 0
more_bytes b (c ∷ []) = if within 194 223 b && is_tail c then 1 else 0
more_bytes b [] = 0

unfoldable pub is_session_byte : ℕ → Bool
is_session_byte c = within b'a' b'z' c || within b'A' b'Z' c || within b'0' b'9' c || c == b'-'

-- The loop, with the bytes of the present rune still to be passed over.
unfoldable pub name_from : ℕ → Bytes → Bytes
unfolding more_bytes is_session_byte
name_from skip [] = []
name_from zero (c ∷ s) = (if is_session_byte c then c else b'_') ∷ name_from (more_bytes c s) s
name_from (suc k) (c ∷ s) = name_from k s

unfoldable pub generate_session_name : Bytes → Bytes
unfolding name_from
generate_session_name name = name_from 0 name

-- A byte that may stand in a session's name.
abbrev pub is_name_byte : ℕ → Bool
is_name_byte c = is_session_byte c || c == b'_'

more_bytes-ascii : (c : ℕ) (s : Bytes) → c < 128 → more_bytes c s ≡ 0
unfolding more_bytes
more_bytes-ascii c [] h = refl
more_bytes-ascii c (d ∷ []) h = ground (arith, h)
more_bytes-ascii c (d ∷ e ∷ []) h = ground (arith, h)
more_bytes-ascii c (d ∷ e ∷ f ∷ s) h = ground (arith, h)

is_name_byte-ascii : (c : ℕ) → is_name_byte c ≡ true → c < 128
unfolding is_session_byte
is_name_byte-ascii c h = ground (arith, h)

written-is_name_byte : (c : ℕ) → is_name_byte (if is_session_byte c then c else b'_') ≡ true
unfolding is_session_byte
written-is_name_byte c = elim (Bool-cases (is_session_byte c)) [
  | inl e ↦ rw (e, e) refl
  | inr e ↦ rw e refl
]

name_from-is_name_byte : (k : ℕ) (s : Bytes) → all is_name_byte (name_from k s) ≡ true
unfolding name_from
name_from-is_name_byte k [] = refl
name_from-is_name_byte zero (c ∷ s) =
    rw (written-is_name_byte c) (name_from-is_name_byte (more_bytes c s) s)
name_from-is_name_byte (suc k) (c ∷ s) = name_from-is_name_byte k s

written-kept : (c : ℕ) → is_name_byte c ≡ true → (if is_session_byte c then c else b'_') ≡ c
written-kept c h = ground (arith, h)

all-cons :
    (c : ℕ) (s : Bytes)
    → all is_name_byte (c ∷ s) ≡ true
    → (is_name_byte c ≡ true) × (all is_name_byte s ≡ true)
all-cons c s h = ground (arith, h)

name_from-kept : (s : Bytes) → all is_name_byte s ≡ true → name_from 0 s ≡ s
unfolding name_from
name_from-kept [] h = refl
name_from-kept (c ∷ s) h =
    let (first, rest) = all-cons c s h in
    ap₂ ◌∷◌ (written-kept c first)
      (rw (more_bytes-ascii c s (is_name_byte-ascii c first)) (name_from-kept s rest))

-- A generated name holds only letters, digits, hyphens and underscores; a name of these is kept as
-- it is, so generating a name twice gives the same as generating it once.
pub generate_session_name-kept :
    (name : Bytes)
    → (all is_name_byte (generate_session_name name) ≡ true)
      × (all is_name_byte name ≡ true → generate_session_name name ≡ name)
      × (generate_session_name (generate_session_name name) ≡ generate_session_name name)
unfolding generate_session_name
generate_session_name-kept name = (
  name_from-is_name_byte 0 name,
  name_from-kept name,
  name_from-kept (name_from 0 name) (name_from-is_name_byte 0 name),
)
