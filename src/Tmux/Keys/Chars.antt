-- ===== src/Tmux/Keys/Chars.antt =====
-- internal/tmux/keys.go: modifiers in front of one character.
use shimux.Base.{
  if◌then◌else◌, Bytes, ℕ, ◌+◌, ◌/◌, ◌%◌, ◌<◌, ◌≡◌, refl, ap, ◌∙◌, Bool, true, false, ◌||◌, none,
  [], ◌∷◌, arith,
}
use shimux.Base.Maps.{lookup, lookup_without}
use shimux.Tmux.Keys.Table.{special_keys, modifiable_keys}
use shimux.Tmux.Keys.{
  Modifiers, with_meta, is_lower, is_upper, to_upper, expand_char, expand_plain_key,
  expand_base_key, rebuild_key_name, expand_special_key, expand_modified,
}
use shimux.Tmux.Keys.Modified.{IsModified, expand_special_key-rebuild}

abbrev is_single : Bytes → Bool
is_single (c ∷ []) = true
is_single _ = false

special-single : (c : ℕ) → lookup (c ∷ []) special_keys ≡ none
special-single c = lookup_without is_single (c ∷ []) special_keys (unfold special_keys in refl) refl

modifiable-single : (c : ℕ) → lookup (c ∷ []) modifiable_keys ≡ none
modifiable-single c =
    lookup_without is_single (c ∷ []) modifiable_keys (unfold modifiable_keys in refl) refl

expand_modified-single :
    (key : Bytes) (m : Modifiers) (c : ℕ)
    → IsModified m
    → expand_modified key m (c ∷ []) ≡ with_meta m.meta (expand_char m c)
unfolding expand_modified expand_base_key expand_plain_key
expand_modified-single key m c h = rw (h, modifiable-single, expand_base_key, special-single)

single :
    (m : Modifiers) (c : ℕ)
    → IsModified m
    → expand_special_key (rebuild_key_name m (c ∷ [])) ≡ with_meta m.meta (expand_char m c)
single m c h =
    expand_special_key-rebuild m (c ∷ []) h refl
    ∙ expand_modified-single (rebuild_key_name m (c ∷ [])) m c h

abbrev pub is_letter : ℕ → Bool
is_letter c = is_lower c || is_upper c

expand_char-ctrl :
    (c : ℕ) (meta shift : Bool)
    → is_letter c ≡ true
    → expand_char (record { ctrl = true; meta = meta; shift = shift }) c ≡ c % 32 ∷ []
unfolding expand_char
expand_char-ctrl c meta true h = ground arith
expand_char-ctrl c meta false h = ground arith

expand_char-ascii :
    (c : ℕ) (meta shift : Bool)
    → c < 128
    → expand_char (record { ctrl = false; meta = meta; shift = shift }) c
      ≡ (if shift then to_upper c else c) ∷ []
unfolding expand_char
expand_char-ascii c meta shift h = ground arith

expand_char-high :
    (c : ℕ)
    → 127 < c
    → expand_char (record { ctrl = false; meta = true; shift = false }) c
      ≡ (192 + c / 64) ∷ (128 + c % 64) ∷ []
unfolding expand_char
expand_char-high c h = ground arith

-- Control and a letter is the control character of that letter, 1 to 26, whatever the letter's
-- case and whether or not Shift is held; Meta puts ESC in front.
pub expand_special_key-ctrl_letter :
    (c : ℕ) (meta shift : Bool)
    → is_letter c ≡ true
    → expand_special_key
        (rebuild_key_name (record { ctrl = true; meta = meta; shift = shift }) (c ∷ []))
      ≡ with_meta meta (c % 32 ∷ [])
expand_special_key-ctrl_letter c meta shift h =
    single (record { ctrl = true; meta = meta; shift = shift }) c refl
    ∙ ap (with_meta meta) (expand_char-ctrl c meta shift h)

-- Without Control an ASCII character stays as it is, in upper case under Shift; Meta puts ESC in
-- front.
pub expand_special_key-meta_shift :
    (c : ℕ) (meta shift : Bool)
    → (meta || shift) ≡ true
    → c < 128
    → expand_special_key
        (rebuild_key_name (record { ctrl = false; meta = meta; shift = shift }) (c ∷ []))
      ≡ with_meta meta ((if shift then to_upper c else c) ∷ [])
expand_special_key-meta_shift c meta shift h lt =
    single (record { ctrl = false; meta = meta; shift = shift }) c h
    ∙ ap (with_meta meta) (expand_char-ascii c meta shift lt)

-- A byte above 127 does not stay one byte under Meta: it is sent as the two bytes of UTF-8 for the
-- code point of its value.
pub expand_special_key-meta_high :
    (c : ℕ)
    → 127 < c
    → c < 256
    → expand_special_key
        (rebuild_key_name (record { ctrl = false; meta = true; shift = false }) (c ∷ []))
      ≡ 27 ∷ (192 + c / 64) ∷ (128 + c % 64) ∷ []
expand_special_key-meta_high c h lt =
    single (record { ctrl = false; meta = true; shift = false }) c refl
    ∙ ap (with_meta true) (expand_char-high c h)
