-- ===== src/Tests/Keys.antt =====
-- Key names.
use shimux.Base.{str, equal, ◌≡◌, refl, true, false, some, [], ◌∷◌}
use shimux.Base.Maps.{lookup}
use shimux.Tmux.Keys.{Modifiers, rebuild_key_name, expand_special_key, with_meta}
use shimux.Tmux.Keys.Table.{ModifiableKeyInfo, modifiable_keys, special_keys}
use shimux.Tmux.Keys.Modified.{expand_special_key-modifiable, xterm_sequence}
use shimux.Tmux.Keys.Chars.{expand_special_key-ctrl_letter}
use shimux.Tmux.Keys.Unknown.{lower_m, upper_c, lower_c, IsUnknown, expand_special_key-reordered}

abbrev ctrl_shift : Modifiers
ctrl_shift = record { ctrl = true; meta = false; shift = true }

abbrev meta_only : Modifiers
meta_only = record { ctrl = false; meta = true; shift = false }

abbrev left_info : ModifiableKeyInfo
left_info = record { param_style = str "csi_letter"; num = []; letter = b'D' }

left_is_modifiable : lookup (str "Left") modifiable_keys ≡ some left_info
unfolding lookup modifiable_keys equal
left_is_modifiable = refl

expand_special_key-modifiable_example :
    expand_special_key (rebuild_key_name ctrl_shift (str "Left"))
    ≡ xterm_sequence left_info ctrl_shift
expand_special_key-modifiable_example =
    expand_special_key-modifiable ctrl_shift (str "Left") refl left_is_modifiable

expand_special_key-ctrl_letter_example :
    expand_special_key
      (rebuild_key_name (record { ctrl = true; meta = true; shift = false }) (b'x' ∷ []))
    ≡ with_meta true (24 ∷ [])
expand_special_key-ctrl_letter_example = expand_special_key-ctrl_letter b'x' true false refl

foo-IsUnknown : IsUnknown (str "Foo")
unfolding lookup modifiable_keys special_keys equal
foo-IsUnknown = record {
  not_special = refl;
  not_modifiable = refl;
  no_modifier = refl;
  not_single = λ c e. cc;
}

expand_special_key-reordered_example : expand_special_key (str "m-C-c-Foo") ≡ str "C-M-Foo"
expand_special_key-reordered_example =
    expand_special_key-reordered lower_m (upper_c ∷ lower_c ∷ []) (str "Foo") foo-IsUnknown
