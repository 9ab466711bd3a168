-- ===== src/Wrapper/Environ.antt =====
-- internal/wrapper/wrapper.go: the child's environment.
use shimux.Base.{
  ◌==◌, if◌then◌else◌, ==_iff, Bool-cases, all, Bytes, str, equal, equal_iff, ℕ, ◌≡◌, refl, ap, ◌∙◌,
  inl, inr, Bool, true, false, not, ◌&&◌, Option, none, some, List, [], ◌∷◌, ◌++◌, arith,
}
use shimux.Base.Decimal.{decimal}

unfoldable pub has_prefix : Bytes → Bytes → Bool
has_prefix s [] = true
has_prefix [] (p ∷ ps) = false
has_prefix (c ∷ s) (p ∷ ps) = c == p && has_prefix s ps

-- `key` is followed by `=` in `prefix`.
abbrev prefix_of : Bytes → Bytes
prefix_of key = key ++ b'=' ∷ []

unfoldable pub replace_prefixed : List Bytes → Bytes → Bytes → List Bytes
unfolding has_prefix
replace_prefixed [] prefix value = value ∷ []
replace_prefixed (e ∷ env) prefix value =
    if has_prefix e prefix then value ∷ env else e ∷ replace_prefixed env prefix value

unfoldable pub replace_env : List Bytes → Bytes → Bytes → List Bytes
unfolding replace_prefixed
replace_env env key value = replace_prefixed env (prefix_of key) value

-- `strings.SplitN(e, "=", 2)[0]`
unfoldable pub key_of : Bytes → Bytes
key_of [] = []
key_of (c ∷ s) = if c == b'=' then [] else c ∷ key_of s

-- The loop of `Run` over the entries of `Env`.
unfoldable pub replace_all : List Bytes → List Bytes → List Bytes
unfolding replace_env key_of
replace_all env [] = env
replace_all env (e ∷ es) = replace_all (replace_env env (key_of e) e) es

-- `Env`: the directory of the links, the outer PATH, the process's number and the session.
abbrev pub env : Bytes → Bytes → ℕ → Bytes → List Bytes
env tmp_dir path pid session =
    (str "PATH=" ++ (tmp_dir ++ b':' ∷ path))
    ∷ (str "TMUX=" ++ (tmp_dir ++ (str "/shimux," ++ (decimal pid ++ str ",0"))))
    ∷ str "SHIMUX=1"
    ∷ (str "SHIMUX_SESSION=" ++ session)
    ∷ str "SHIMUX_PANE_ID=0"
    ∷ str "TMUX_PANE=%0"
    ∷ []

-- The value of a variable in an environment: that of its first entry.
abbrev value_in : Bytes → Bytes → Option Bytes
value_in [] (c ∷ s) = if c == b'=' then some s else none
value_in [] [] = none
value_in (k ∷ key) [] = none
value_in (k ∷ key) (c ∷ s) = if c == k then value_in key s else none

unfoldable pub variable : Bytes → List Bytes → Option Bytes
variable key [] = none
variable key (e ∷ env) = elim (value_in key e) [ some v ↦ some v | none ↦ variable key env ]

abbrev pub has_no_equals : Bytes → Bool
has_no_equals key = all (λ c. not (c == b'=')) key

value_in-entry :
    (k key v : Bytes)
    → has_no_equals k ≡ true
    → has_no_equals key ≡ true
    → value_in k (key ++ b'=' ∷ v) ≡ (if equal k key then some v else none)
unfolding equal
value_in-entry [] [] v h h' = refl
value_in-entry [] (c ∷ key) v h h' = ground (arith, h')
value_in-entry (a ∷ k) [] v h h' = ground (arith, h)
value_in-entry (a ∷ k) (c ∷ key) v h h' = ground (arith, h, h', value_in-entry k key v)

has_prefix-rest :
    (e key : Bytes) → has_prefix e (prefix_of key) ≡ true → (v : Bytes) × (e ≡ key ++ b'=' ∷ v)
unfolding has_prefix
has_prefix-rest [] [] h = cc
has_prefix-rest [] (a ∷ key) h = cc
has_prefix-rest (c ∷ e) [] h = elim (Bool-cases (c == b'=')) [
  | inl t ↦ (e, ap (λ x. x ∷ e) ((==_iff c b'=').0 t))
  | inr t ↦ absurd (ground (arith, h, t))
]
has_prefix-rest (c ∷ e) (a ∷ key) h = elim (Bool-cases (c == a)) [
  | inl t ↦
      let (v, same) = has_prefix-rest e key (rw t at h) in
      (v, ap (λ x. x ∷ e) ((==_iff c a).0 t) ∙ ap (◌∷◌ a) same)
  | inr t ↦ absurd (ground (arith, h, t))
]

value_in-other : (e key : Bytes) → has_prefix e (prefix_of key) ≡ false → value_in key e ≡ none
unfolding has_prefix
value_in-other [] [] h = refl
value_in-other [] (a ∷ key) h = refl
value_in-other (c ∷ e) [] h = ground (arith, h)
value_in-other (c ∷ e) (a ∷ key) h = ground (arith, h, value_in-other e key)

variable-entry :
    (k key v : Bytes) (vars : List Bytes)
    → has_no_equals k ≡ true
    → has_no_equals key ≡ true
    → variable k ((key ++ b'=' ∷ v) ∷ vars) ≡ (if equal k key then some v else variable k vars)
unfolding variable
variable-entry k key v vars h h' = rw (value_in-entry k key v h h', variable) (ground arith)

-- `replaceEnv` with an entry of the key gives the variable of that key the entry's value, whether or
-- not it was set, and leaves every other variable as it was. A key holds no equals sign.
pub variable-replace_env :
    (k key v : Bytes) (vars : List Bytes)
    → has_no_equals k ≡ true
    → has_no_equals key ≡ true
    → variable k (replace_env vars key (key ++ b'=' ∷ v))
      ≡ (if equal k key then some v else variable k vars)
unfolding replace_env variable replace_prefixed
variable-replace_env k key v [] h h' = ground (arith, value_in-entry k key v h h')
variable-replace_env k key v (e ∷ vars) h h' = elim (Bool-cases (has_prefix e (prefix_of key))) [
  | inl t ↦
      let (v', same) = has_prefix-rest e key t in
      rw (t, same)
        (ground (arith, variable-entry k key v vars h h', variable-entry k key v' vars h h'))
  | inr t ↦ rw t (
      ground
        (arith, value_in-other e key t, equal_iff k key, variable-replace_env k key v vars h h'))
]
