-- ===== src/Tmux/Keys/Modified.antt =====
-- internal/tmux/keys.go: modifier prefixes, and the keys that take an xterm modifier parameter.
use shimux.Base.{
  ◌==◌, if◌then◌else◌, Bytes, equal, is, equal_iff, ℕ, ◌+◌, ◌-◌, ◌/◌, ◌%◌, ◌≤◌, ◌≡◌, refl, ap, ◌∙◌,
  Bool, true, false, not, ◌&&◌, ◌||◌, Option, none, some, [], ◌∷◌, ◌++◌, arith,
}
use shimux.Base.Maps.{lookup, lookup-all, lookup_without}
use shimux.Tmux.Keys.Table.{ModifiableKeyInfo, special_keys, modifiable_keys}
use shimux.Tmux.Keys.{
  Modifiers, esc, parse_modifiers, modifiers_loop, rebuild_key_name, xterm_mod_param,
  build_modified_sequence, expand_special_key, expand_modified,
}
use shimux.Base.Decimal.{decimal}

-- At least one modifier is held.
abbrev pub IsModified : Modifiers → Type 0
IsModified m = (m.ctrl || m.meta || m.shift) ≡ true

-- One of the letters that `parseModifiers` takes, and a dash behind it.
abbrev pub has_modifier : Bytes → Bool
has_modifier (c ∷ d ∷ s) =
    d == b'-' && (c == b'C' || c == b'c' || c == b'M' || c == b'm' || c == b'S' || c == b's')
has_modifier _ = false

abbrev pub IsBase : Bytes → Type 0
IsBase b = has_modifier b ≡ false

-- The second byte is a dash, as behind a modifier.
abbrev pub has_dash : Bytes → Bool
has_dash (c ∷ d ∷ s) = d == b'-'
has_dash _ = false

pub modifiers_loop-base : (m : Modifiers) (b : Bytes) → IsBase b → modifiers_loop m b ≡ (m, b)
unfolding modifiers_loop
modifiers_loop-base m [] h = refl
modifiers_loop-base m (c ∷ []) h = refl
modifiers_loop-base m (c ∷ d ∷ s) h = ground arith

-- `parseModifiers` reads back the key names that `rebuildKeyName` builds: every combination of
-- modifiers, in front of any key that has no modifier prefix itself.
pub parse_modifiers-rebuild :
    (m : Modifiers) (b : Bytes) → IsBase b → parse_modifiers (rebuild_key_name m b) ≡ (m, b)
unfolding parse_modifiers rebuild_key_name
parse_modifiers-rebuild m b h = each m.ctrl m.meta m.shift
  where
    each :
        (c t s : Bool)
        → let n : Modifiers = record { ctrl = c; meta = t; shift = s } in
          parse_modifiers (rebuild_key_name n b) ≡ (n, b)
    each true true true = modifiers_loop-base _ b h
    each true true false = modifiers_loop-base _ b h
    each true false true = modifiers_loop-base _ b h
    each true false false = modifiers_loop-base _ b h
    each false true true = modifiers_loop-base _ b h
    each false true false = modifiers_loop-base _ b h
    each false false true = modifiers_loop-base _ b h
    each false false false = modifiers_loop-base _ b h

-- The parameter of xterm encodes the three modifiers: it lies between 1 and 8, and
-- `param - 1` has shift, meta and control as its binary digits.
pub xterm_mod_param_digits :
    (m : Modifiers)
    → (1 ≤ xterm_mod_param m)
      × (xterm_mod_param m ≤ 8)
      × (((xterm_mod_param m - 1) % 2 == 1) ≡ m.shift)
      × (((xterm_mod_param m - 1) / 2 % 2 == 1) ≡ m.meta)
      × (((xterm_mod_param m - 1) / 4 == 1) ≡ m.ctrl)
unfolding xterm_mod_param
xterm_mod_param_digits m = ground arith

-- The sequence of a key with no modifier, from what `modifiableKeys` says of it.
pub plain_sequence : ModifiableKeyInfo → Bytes
unfolding equal
plain_sequence info =
    if is info.param_style "csi_tilde"
    then esc ∷ b'[' ∷ (info.num ++ b'~' ∷ [])
    else if is info.param_style "csi_letter"
    then esc ∷ b'[' ∷ info.letter ∷ []
    else esc ∷ b'O' ∷ info.letter ∷ []

holds : Option Bytes → Bytes → Bool
unfolding equal
holds none t = false
holds (some s) t = equal s t

holds-some : (o : Option Bytes) (t : Bytes) → holds o t ≡ true → o ≡ some t
unfolding holds
holds-some none t h = cc
holds-some (some s) t h = ap some ((equal_iff s t).0 h)

-- The two maps agree: each key that takes modifiers is a special key, and its sequence is the one
-- that its entry in `modifiableKeys` describes.
pub modifiable-special :
    (k : Bytes) {info : ModifiableKeyInfo}
    → lookup k modifiable_keys ≡ some info
    → lookup k special_keys ≡ some (plain_sequence info)
modifiable-special k {info} e = holds-some (lookup k special_keys) (plain_sequence info) (
    lookup-all (λ j i. holds (lookup j special_keys) (plain_sequence i)) k modifiable_keys
      (unfold modifiable_keys special_keys lookup plain_sequence holds in refl) e)

pub rebuild-has_dash :
    (m : Modifiers) (b : Bytes) → IsModified m → has_dash (rebuild_key_name m b) ≡ true
unfolding rebuild_key_name
rebuild-has_dash m b h = ground arith

pub special-has_dash : (b : Bytes) → has_dash b ≡ true → lookup b special_keys ≡ none
special-has_dash b = lookup_without has_dash b special_keys (unfold special_keys in refl)

pub special-rebuild :
    (m : Modifiers) (b : Bytes) → IsModified m → lookup (rebuild_key_name m b) special_keys ≡ none
special-rebuild m b h = special-has_dash (rebuild_key_name m b) (rebuild-has_dash m b h)

pub expand_special_key-none :
    (key : Bytes)
    → lookup key special_keys ≡ none
    → expand_special_key key ≡ expand_modified key (parse_modifiers key).0 (parse_modifiers key).1
unfolding expand_special_key
expand_special_key-none key e = rw (e, expand_special_key)

-- A modified key name expands by what `expand_modified` does with its base and modifiers.
pub expand_special_key-rebuild :
    (m : Modifiers) (b : Bytes)
    → IsModified m
    → IsBase b
    → expand_special_key (rebuild_key_name m b) ≡ expand_modified (rebuild_key_name m b) m b
expand_special_key-rebuild m b h k =
    expand_special_key-none (rebuild_key_name m b) (special-rebuild m b h)
    ∙ ap (λ (r : Modifiers × Bytes). expand_modified (rebuild_key_name m b) r.0 r.1)
        (parse_modifiers-rebuild m b k)

modifiable-IsBase :
    (k : Bytes) {info : ModifiableKeyInfo} → lookup k modifiable_keys ≡ some info → IsBase k
modifiable-IsBase k e = ground (
  arith,
  lookup-all (λ j i. not (has_modifier j)) k modifiable_keys (unfold modifiable_keys in refl) e,
)

-- xterm's own description: one digit, 1 + shift + 2 meta + 4 control, behind a semicolon.
abbrev pub weight : Bool → ℕ → ℕ
weight b n = if b then n else 0

abbrev pub modifier_digit : Modifiers → ℕ
modifier_digit m = b'1' + weight m.shift 1 + weight m.meta 2 + weight m.ctrl 4

pub xterm_sequence : ModifiableKeyInfo → Modifiers → Bytes
xterm_sequence info m =
    if is info.param_style "csi_tilde"
    then esc ∷ b'[' ∷ (info.num ++ b';' ∷ modifier_digit m ∷ b'~' ∷ [])
    else esc ∷ b'[' ∷ b'1' ∷ b';' ∷ modifier_digit m ∷ info.letter ∷ []

decimal_param : (m : Modifiers) → decimal (xterm_mod_param m) ≡ modifier_digit m ∷ []
unfolding decimal xterm_mod_param
decimal_param m = each m.ctrl m.meta m.shift
  where
    each :
        (c t s : Bool)
        → let n : Modifiers = record { ctrl = c; meta = t; shift = s } in
          decimal (xterm_mod_param n) ≡ modifier_digit n ∷ []
    each true true true = refl
    each true true false = refl
    each true false true = refl
    each true false false = refl
    each false true true = refl
    each false true false = refl
    each false false true = refl
    each false false false = refl

has_style : ModifiableKeyInfo → Bool
has_style info =
    is info.param_style "csi_tilde"
    || is info.param_style "csi_letter"
    || is info.param_style "ss3_to_csi"

sequence_of_style :
    (info : ModifiableKeyInfo) (m : Modifiers)
    → has_style info ≡ true
    → build_modified_sequence info (xterm_mod_param m) ≡ xterm_sequence info m
unfolding build_modified_sequence has_style xterm_sequence
sequence_of_style info m h = rw decimal_param (ground arith)

expand_modified-modifiable :
    (key : Bytes) (m : Modifiers) (k : Bytes) {info : ModifiableKeyInfo}
    → IsModified m
    → lookup k modifiable_keys ≡ some info
    → expand_modified key m k ≡ build_modified_sequence info (xterm_mod_param m)
unfolding expand_modified
expand_modified-modifiable key m k h e = rw (h, e)

-- A key that takes modifiers, under any combination of at least one of them, expands to xterm's
-- sequence for that key and combination.
pub expand_special_key-modifiable :
    (m : Modifiers) (k : Bytes) {info : ModifiableKeyInfo}
    → IsModified m
    → lookup k modifiable_keys ≡ some info
    → expand_special_key (rebuild_key_name m k) ≡ xterm_sequence info m
expand_special_key-modifiable m k {info} h e =
    expand_special_key-rebuild m k h (modifiable-IsBase k e)
    ∙ expand_modified-modifiable (rebuild_key_name m k) m k h e
    ∙ sequence_of_style info m (
        lookup-all (λ j i. has_style i) k modifiable_keys
          (unfold modifiable_keys has_style equal in refl) e)
