-- ===== src/Tmux/Keys.antt =====
-- internal/tmux/keys.go: the expansion of key names. The two maps are in `Table`.
pub mod Table
pub mod Modified
pub mod Chars
pub mod Unknown
use shimux.Base.{
  ltb, ◌==◌, within, if◌then◌else◌, Bytes, is, ℕ, ◌+◌, ◌-◌, ◌/◌, ◌%◌, Bool, true, false, not, ◌&&◌,
  ◌||◌, Option, none, some, List, [], ◌∷◌, ◌++◌,
}
use shimux.Base.Decimal.{decimal}
use shimux.Base.Maps.{lookup}
use shimux.Tmux.Keys.Table.{ModifiableKeyInfo, special_keys, modifiable_keys}

-- The flags of `parseModifiers`.
pub record Modifiers : Type 0 where
  pub ctrl : Bool
  pub meta : Bool
  pub shift : Bool

abbrev pub unmodified : Modifiers
unmodified = record { ctrl = false; meta = false; shift = false }

-- The `switch` on the first byte; `none` is its default.
abbrev pub add_modifier : ℕ → Modifiers → Option Modifiers
add_modifier c m =
    if c == b'C' || c == b'c'
    then some (record m { ctrl = true })
    else if c == b'M' || c == b'm'
    then some (record m { meta = true })
    else if c == b'S' || c == b's'
    then some (record m { shift = true })
    else none

unfoldable pub modifiers_loop : Modifiers → Bytes → Modifiers × Bytes
modifiers_loop m [] = (m, [])
modifiers_loop m (c ∷ []) = (m, c ∷ [])
modifiers_loop m (c ∷ d ∷ s) = elim (d == b'-') [
  | false ↦ (m, c ∷ d ∷ s)
  | true ↦ elim (add_modifier c m) [ none ↦ (m, c ∷ d ∷ s) | some m' ↦ modifiers_loop m' s ]
]

unfoldable pub parse_modifiers : Bytes → Modifiers × Bytes
unfolding modifiers_loop
parse_modifiers = modifiers_loop unmodified

unfoldable pub xterm_mod_param : Modifiers → ℕ
xterm_mod_param m =
    let mod₁ = 1 + (if m.shift then 1 else 0) in
    let mod₂ = mod₁ + (if m.meta then 2 else 0) in mod₂ + (if m.ctrl then 4 else 0)

-- The escape byte; `%d` is decimal and `%c` writes an ASCII letter.
abbrev pub esc : ℕ
esc = 0x1b

unfoldable pub build_modified_sequence : ModifiableKeyInfo → ℕ → Bytes
build_modified_sequence info param =
    if is info.param_style "csi_tilde"
    then esc ∷ b'[' ∷ (info.num ++ b';' ∷ (decimal param ++ b'~' ∷ []))
    else if is info.param_style "csi_letter" || is info.param_style "ss3_to_csi"
    then esc ∷ b'[' ∷ b'1' ∷ b';' ∷ (decimal param ++ info.letter ∷ [])
    else []

abbrev pub is_lower : ℕ → Bool
is_lower = within b'a' b'z'

abbrev pub is_upper : ℕ → Bool
is_upper = within b'A' b'Z'

-- `string(ch)` of a byte: the code point `ch` in UTF-8.
unfoldable pub string_of_byte : ℕ → Bytes
string_of_byte c = if ltb c 128 then c ∷ [] else (192 + c / 64) ∷ (128 + c % 64) ∷ []

abbrev pub to_upper : ℕ → ℕ
to_upper c = if is_lower c then c - b'a' + b'A' else c

-- The branch of `expandBaseKey` for a key of one byte.
unfoldable pub expand_char : Modifiers → ℕ → Bytes
unfolding string_of_byte
expand_char m c =
    let ch = if m.shift && is_lower c then c - b'a' + b'A' else c in
    let upper = to_upper ch in
    if m.ctrl
    then (if is_upper upper
        then (upper - b'A' + 1) ∷ []
        else if upper == b'@'
        then 0 ∷ []
        else string_of_byte ch)
    else string_of_byte ch

abbrev pub prefix : Bool → ℕ → Bytes
prefix b c = if b then c ∷ b'-' ∷ [] else []

unfoldable pub rebuild_key_name : Modifiers → Bytes → Bytes
rebuild_key_name m base =
    prefix m.ctrl b'C' ++ (prefix m.meta b'M' ++ (prefix m.shift b'S' ++ base))

-- Apply Meta: prepend ESC.
abbrev pub with_meta : Bool → Bytes → Bytes
with_meta b s = if b then esc ∷ s else s

-- A key that `specialKeys` does not hold.
unfoldable pub expand_plain_key : Modifiers → Bytes → Bytes
expand_plain_key m (c ∷ []) = with_meta m.meta (expand_char m c)
expand_plain_key m base = rebuild_key_name m base

unfoldable pub expand_base_key : Modifiers → Bytes → Bytes
expand_base_key m base = elim (lookup base special_keys) [
  | some seq ↦ with_meta m.meta seq
  | none ↦ expand_plain_key m base
]

-- `hasModifier`, and steps 3 to 7.
unfoldable pub expand_modified : Bytes → Modifiers → Bytes → Bytes
expand_modified key m base =
    if not (m.ctrl || m.meta || m.shift) then key else elim (lookup base modifiable_keys) [
      | some info ↦ build_modified_sequence info (xterm_mod_param m)
      | none ↦ expand_base_key m base
    ]

unfoldable pub expand_special_key : Bytes → Bytes
expand_special_key key = elim (lookup key special_keys) [
  | some seq ↦ seq
  | none ↦ expand_modified key (parse_modifiers key).0 (parse_modifiers key).1
]

unfoldable pub build_send_keys_data : List Bytes → Bool → Bytes
build_send_keys_data [] literal = []
build_send_keys_data (arg ∷ args) literal =
    (if literal then arg else expand_special_key arg) ++ build_send_keys_data args literal
