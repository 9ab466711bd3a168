-- ===== src/Tmux/Keys/Unknown.antt =====
-- internal/tmux/keys.go: key names that nothing expands, and the data of send-keys.
use shimux.Base.{
  if◌then◌else◌, Bytes, ℕ, ◌≡◌, refl, sym, ap, ◌∙◌, ◌≢◌, Bool, true, false, ◌||◌, none, List, [],
  ◌∷◌, ◌++◌, append_assoc, arith,
}
use mathlib.Core.List.{flatten}
use shimux.Base.Maps.{lookup}
use shimux.Tmux.Keys.Table.{special_keys, modifiable_keys}
use shimux.Tmux.Keys.{
  Modifiers, expand_plain_key, expand_base_key, rebuild_key_name, expand_special_key,
  expand_modified, build_send_keys_data, parse_modifiers, modifiers_loop,
}
use shimux.Tmux.Keys.Modified.{
  IsModified, IsBase, expand_special_key-rebuild, special-has_dash, expand_special_key-none,
  modifiers_loop-base,
}

-- A name of several bytes in neither map, without a modifier prefix of its own.
pub record IsUnknown (b : Bytes) : Type 0 where
  pub not_special : lookup b special_keys ≡ none
  pub not_modifiable : lookup b modifiable_keys ≡ none
  pub no_modifier : IsBase b
  pub not_single : (c : ℕ) → b ≢ c ∷ []

expand_plain_key-rebuild :
    (m : Modifiers) (b : Bytes)
    → ((c : ℕ) → b ≢ c ∷ [])
    → expand_plain_key m b ≡ rebuild_key_name m b
unfolding expand_plain_key
expand_plain_key-rebuild m [] h = refl
expand_plain_key-rebuild m (c ∷ []) h = absurd (h c refl)
expand_plain_key-rebuild m (c ∷ d ∷ s) h = refl

expand_modified-unknown :
    (key : Bytes) (m : Modifiers) (b : Bytes)
    → IsModified m
    → IsUnknown b
    → expand_modified key m b ≡ rebuild_key_name m b
unfolding expand_modified expand_base_key
expand_modified-unknown key m b h u =
    rw (h, u.not_modifiable, expand_base_key, u.not_special)
      (expand_plain_key-rebuild m b u.not_single)

-- A name that nothing expands is returned as it came, if its prefixes stand in the order C-, M-, S-
-- and each at most once.
pub expand_special_key-unknown :
    (m : Modifiers) (b : Bytes)
    → IsModified m
    → IsUnknown b
    → expand_special_key (rebuild_key_name m b) ≡ rebuild_key_name m b
expand_special_key-unknown m b h u =
    expand_special_key-rebuild m b h u.no_modifier
    ∙ expand_modified-unknown (rebuild_key_name m b) m b h u

-- A prefix as it is written: a modifier, in upper or lower case, and a dash.
pub data Prefix : Type 0 where
  upper_c lower_c upper_m lower_m upper_s lower_s : Prefix

abbrev pub letter : Prefix → ℕ
letter upper_c = b'C'
letter lower_c = b'c'
letter upper_m = b'M'
letter lower_m = b'm'
letter upper_s = b'S'
letter lower_s = b's'

abbrev pub is_ctrl : Prefix → Bool
is_ctrl upper_c = true
is_ctrl lower_c = true
is_ctrl _ = false

abbrev pub is_meta : Prefix → Bool
is_meta upper_m = true
is_meta lower_m = true
is_meta _ = false

abbrev pub is_shift : Prefix → Bool
is_shift upper_s = true
is_shift lower_s = true
is_shift _ = false

abbrev pub spelled : List Prefix → Bytes → Bytes
spelled [] b = b
spelled (p ∷ ps) b = letter p ∷ b'-' ∷ spelled ps b

-- Which modifiers stand somewhere among the prefixes.
abbrev pub some_of : (Prefix → Bool) → List Prefix → Bool
some_of f [] = false
some_of f (p ∷ ps) = f p || some_of f ps

-- A modifier's prefix in upper case, once, if the modifier is among the prefixes.
abbrev pub once : Bool → ℕ → Bytes → Bytes
once b c s = if b then c ∷ b'-' ∷ s else s

-- The prefixes in the order C-, M-, S-.
abbrev pub in_order : List Prefix → Bytes → Bytes
in_order ps b =
    once (some_of is_ctrl ps) b'C'
      (once (some_of is_meta ps) b'M' (once (some_of is_shift ps) b'S' b))

abbrev all_of : Modifiers → List Prefix → Modifiers
all_of m ps = record {
  ctrl = m.ctrl || some_of is_ctrl ps;
  meta = m.meta || some_of is_meta ps;
  shift = m.shift || some_of is_shift ps;
}

abbrev with_base : Bytes → Modifiers → Modifiers × Bytes
with_base b m = (m, b)

or_true : (b : Bool) → (b || true) ≡ true
or_true b = ground arith

or_false : (b : Bool) → b ≡ (b || false)
or_false b = ground arith

all_of-none : (m : Modifiers) → m ≡ all_of m []
all_of-none m =
    λ i. record { ctrl = or_false m.ctrl i; meta = or_false m.meta i; shift = or_false m.shift i }

all_of-ctrl :
    (m : Modifiers) (c m' s : Bool)
    → ◌≡◌ {A = Modifiers}
        (record { ctrl = true || c; meta = m.meta || m'; shift = m.shift || s })
        (record { ctrl = m.ctrl || (true || c); meta = m.meta || m'; shift = m.shift || s })
all_of-ctrl m c m' s =
    ap (λ (b : Bool). record { ctrl = b; meta = m.meta || m'; shift = m.shift || s })
      (sym (or_true m.ctrl))

all_of-meta :
    (m : Modifiers) (c m' s : Bool)
    → ◌≡◌ {A = Modifiers}
        (record { ctrl = m.ctrl || c; meta = true || m'; shift = m.shift || s })
        (record { ctrl = m.ctrl || c; meta = m.meta || (true || m'); shift = m.shift || s })
all_of-meta m c m' s =
    ap (λ (b : Bool). record { ctrl = m.ctrl || c; meta = b; shift = m.shift || s })
      (sym (or_true m.meta))

all_of-shift :
    (m : Modifiers) (c m' s : Bool)
    → ◌≡◌ {A = Modifiers}
        (record { ctrl = m.ctrl || c; meta = m.meta || m'; shift = true || s })
        (record { ctrl = m.ctrl || c; meta = m.meta || m'; shift = m.shift || (true || s) })
all_of-shift m c m' s =
    ap (λ (b : Bool). record { ctrl = m.ctrl || c; meta = m.meta || m'; shift = b })
      (sym (or_true m.shift))

modifiers_loop-spelled :
    (m : Modifiers) (ps : List Prefix) (b : Bytes)
    → IsBase b
    → modifiers_loop m (spelled ps b) ≡ (all_of m ps, b)
unfolding modifiers_loop
modifiers_loop-spelled m [] b h = modifiers_loop-base m b h ∙ ap (with_base b) (all_of-none m)
modifiers_loop-spelled m (upper_c ∷ ps) b h =
    modifiers_loop-spelled (record m { ctrl = true }) ps b h
    ∙ ap (with_base b)
        (all_of-ctrl m (some_of is_ctrl ps) (some_of is_meta ps) (some_of is_shift ps))
modifiers_loop-spelled m (lower_c ∷ ps) b h =
    modifiers_loop-spelled (record m { ctrl = true }) ps b h
    ∙ ap (with_base b)
        (all_of-ctrl m (some_of is_ctrl ps) (some_of is_meta ps) (some_of is_shift ps))
modifiers_loop-spelled m (upper_m ∷ ps) b h =
    modifiers_loop-spelled (record m { meta = true }) ps b h
    ∙ ap (with_base b)
        (all_of-meta m (some_of is_ctrl ps) (some_of is_meta ps) (some_of is_shift ps))
modifiers_loop-spelled m (lower_m ∷ ps) b h =
    modifiers_loop-spelled (record m { meta = true }) ps b h
    ∙ ap (with_base b)
        (all_of-meta m (some_of is_ctrl ps) (some_of is_meta ps) (some_of is_shift ps))
modifiers_loop-spelled m (upper_s ∷ ps) b h =
    modifiers_loop-spelled (record m { shift = true }) ps b h
    ∙ ap (with_base b)
        (all_of-shift m (some_of is_ctrl ps) (some_of is_meta ps) (some_of is_shift ps))
modifiers_loop-spelled m (lower_s ∷ ps) b h =
    modifiers_loop-spelled (record m { shift = true }) ps b h
    ∙ ap (with_base b)
        (all_of-shift m (some_of is_ctrl ps) (some_of is_meta ps) (some_of is_shift ps))

held_by :
    (p : Prefix) (ps : List Prefix)
    → IsModified (all_of (record { ctrl = false; meta = false; shift = false }) (p ∷ ps))
held_by upper_c ps = ground arith
held_by lower_c ps = ground arith
held_by upper_m ps = ground arith
held_by lower_m ps = ground arith
held_by upper_s ps = ground arith
held_by lower_s ps = ground arith

rebuild-in_order :
    (ps : List Prefix) (b : Bytes)
    → rebuild_key_name (all_of (record { ctrl = false; meta = false; shift = false }) ps) b
      ≡ in_order ps b
unfolding rebuild_key_name
rebuild-in_order ps b = ground arith

-- A name that nothing expands does not come back as it was written: whatever prefixes stand in front of
-- it, in whatever order, in upper or lower case and however often, it comes out with each modifier that
-- is among them once, in upper case, in the order C-, M-, S-.
pub expand_special_key-reordered :
    (p : Prefix) (ps : List Prefix) (b : Bytes)
    → IsUnknown b
    → expand_special_key (spelled (p ∷ ps) b) ≡ in_order (p ∷ ps) b
unfolding parse_modifiers
expand_special_key-reordered p ps b u =
    let none_held : Modifiers = record { ctrl = false; meta = false; shift = false } in
    let key = spelled (p ∷ ps) b in
    expand_special_key-none key (special-has_dash key refl)
    ∙ ap (λ (r : Modifiers × Bytes). expand_modified key r.0 r.1)
        (modifiers_loop-spelled none_held (p ∷ ps) b u.no_modifier)
    ∙ expand_modified-unknown key (all_of none_held (p ∷ ps)) b (held_by p ps) u
    ∙ rebuild-in_order (p ∷ ps) b

-- The text that send-keys writes for several arguments is what it writes for each, in order.
pub build_send_keys_data-append :
    (xs ys : List Bytes) (literal : Bool)
    → build_send_keys_data (xs ++ ys) literal
      ≡ build_send_keys_data xs literal ++ build_send_keys_data ys literal
unfolding build_send_keys_data
build_send_keys_data-append [] ys literal = refl
build_send_keys_data-append (x ∷ xs) ys literal =
    ap (◌++◌ (if literal then x else expand_special_key x))
      (build_send_keys_data-append xs ys literal)
    ∙ sym (append_assoc _ (build_send_keys_data xs literal) (build_send_keys_data ys literal))

-- Under -l nothing is expanded: the text is the arguments one after the other.
pub build_send_keys_data-literal : (xs : List Bytes) → build_send_keys_data xs true ≡ flatten xs
unfolding build_send_keys_data flatten
build_send_keys_data-literal [] = refl
build_send_keys_data-literal (x ∷ xs) = ap (◌++◌ x) (build_send_keys_data-literal xs)
