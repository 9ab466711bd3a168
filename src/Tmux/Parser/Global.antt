-- ===== src/Tmux/Parser/Global.antt =====
-- internal/tmux/parser.go, `Parse`: the command lines that it accepts, and what it makes of them.
use shimux.Base.{
  false, List, [], ◌∷◌, ◌++◌, ◌≡◌, ◌≢◌, refl, Bytes, str, is, ok, Bool-cases, arith, ◌∙◌, inl, ap,
  true, ◌↔◌, equal_iff, sym, inr, append_assoc, subst,
}
use shimux.Tmux.Parser.{GlobalOptions, no_options, parse_global, parse, ParseResult, versioned}

-- A global option with its value.
pub data Setting : Type 0 where
  name path config : Bytes → Setting

abbrev pub print_setting : Setting → List Bytes
print_setting (name v) = str "-L" ∷ v ∷ []
print_setting (path v) = str "-S" ∷ v ∷ []
print_setting (config v) = str "-f" ∷ v ∷ []

abbrev pub apply : GlobalOptions → Setting → GlobalOptions
apply g (name v) = record g { socket_name = v }
apply g (path v) = record g { socket_path = v }
apply g (config v) = record g { config_file = v }

abbrev pub print_settings : List Setting → List Bytes
print_settings [] = []
print_settings (s ∷ ss) = print_setting s ++ print_settings ss

abbrev pub apply_all : GlobalOptions → List Setting → GlobalOptions
apply_all g [] = g
apply_all g (s ∷ ss) = apply_all (apply g s) ss

parse_global-settings :
    (ss : List Setting) (g : GlobalOptions) (rest : List Bytes)
    → rest ≢ []
    → parse_global g (print_settings ss ++ rest) ≡ parse_global (apply_all g ss) rest
unfolding parse_global
parse_global-settings [] g rest ne = refl
parse_global-settings (name v ∷ ss) g rest ne =
    parse_global-settings ss (record g { socket_name = v }) rest ne
parse_global-settings (path v ∷ ss) g rest ne =
    parse_global-settings ss (record g { socket_path = v }) rest ne
parse_global-settings (config v ∷ ss) g rest ne =
    parse_global-settings ss (record g { config_file = v }) rest ne

parse-parse_global : (args : List Bytes) → args ≢ [] → parse args ≡ parse_global no_options args
unfolding parse
parse-parse_global [] ne = absurd (ne refl)
parse-parse_global (arg ∷ rest) ne = refl

-- A word that `Parse` takes for the command's name.
abbrev pub IsCommand : Bytes → Type 0
IsCommand c =
    (is c "-V" ≡ false)
    × (is c "-L" ≡ false)
    × (is c "-S" ≡ false)
    × (is c "-f" ≡ false)
    × (is c "" ≡ false)

-- The two forms of a command line that is accepted, when the options read so far are `g`.
pub data Accepts (g : GlobalOptions) (args : List Bytes) (r : ParseResult) : Type 0 where
  run :
      (ss : List Setting) (c : Bytes) (rest : List Bytes)
      → IsCommand c
      → args ≡ print_settings ss ++ c ∷ rest
      → r ≡ record { global = apply_all g ss; command = c; args = rest }
      → Accepts g args r
  show_version :
      (ss : List Setting) (rest : List Bytes)
      → args ≡ print_settings ss ++ str "-V" ∷ rest
      → r ≡ versioned (apply_all g ss)
      → Accepts g args r

parse_global-command :
    (g : GlobalOptions) (c : Bytes) (rest : List Bytes)
    → IsCommand c
    → parse_global g (c ∷ rest) ≡ ok (record { global = g; command = c; args = rest })
unfolding parse_global
parse_global-command g c [] h = ground arith
parse_global-command g c (v ∷ rest) h = ground arith

parse_global-version :
    (g : GlobalOptions) (rest : List Bytes) → parse_global g (str "-V" ∷ rest) ≡ ok (versioned g)
unfolding parse_global
parse_global-version g [] = refl
parse_global-version g (v ∷ rest) = refl

print_settings-ne-nil :
    (ss : List Setting) (c : Bytes) (rest : List Bytes) → print_settings ss ++ c ∷ rest ≢ []
print_settings-ne-nil [] c rest = λ e. cc
print_settings-ne-nil (name v ∷ ss) c rest = λ e. cc
print_settings-ne-nil (path v ∷ ss) c rest = λ e. cc
print_settings-ne-nil (config v ∷ ss) c rest = λ e. cc

cons-ne-nil : (c : Bytes) (rest : List Bytes) → c ∷ rest ≢ []
cons-ne-nil c rest e = cc

Accepts-parse :
    {args : List Bytes} {r : ParseResult} → Accepts no_options args r → parse args ≡ ok r
Accepts-parse {args} {r} (run ss c rest h e er) =
    rw (e, er)
      (parse-parse_global _ (print_settings-ne-nil ss c rest)
        ∙ parse_global-settings ss no_options (c ∷ rest) (cons-ne-nil c rest)
        ∙ parse_global-command (apply_all no_options ss) c rest h)
Accepts-parse (show_version ss rest e er) =
    rw (e, er)
      (parse-parse_global _ (print_settings-ne-nil ss (str "-V") rest)
        ∙ parse_global-settings ss no_options (str "-V" ∷ rest) (cons-ne-nil _ rest)
        ∙ parse_global-version (apply_all no_options ss) rest)

-- What an argument is to stage 1.
data Word (c : Bytes) : Type 0 where
  version_flag : c ≡ str "-V" → Word c
  value_flag : (s : Bytes → Setting) → ((v : Bytes) → print_setting (s v) ≡ c ∷ v ∷ []) → Word c
  other : is c "-V" ≡ false → is c "-L" ≡ false → is c "-S" ≡ false → is c "-f" ≡ false → Word c

classify : (c : Bytes) → Word c
classify c = elim (Bool-cases (is c "-V")) [
  | inl e ↦ version_flag ((equal_iff c (str "-V")).0 e)
  | inr not_v ↦ elim (Bool-cases (is c "-L")) [
    | inl e ↦ value_flag name (λ v. ap (λ x. x ∷ v ∷ []) (sym ((equal_iff c (str "-L")).0 e)))
    | inr not_l ↦ elim (Bool-cases (is c "-S")) [
      | inl e ↦ value_flag path (λ v. ap (λ x. x ∷ v ∷ []) (sym ((equal_iff c (str "-S")).0 e)))
      | inr not_s ↦ elim (Bool-cases (is c "-f")) [
        | inl e ↦ value_flag config (λ v. ap (λ x. x ∷ v ∷ []) (sym ((equal_iff c (str "-f")).0 e)))
        | inr not_f ↦ other not_v not_l not_s not_f
      ]
    ]
  ]
]

Accepts-cons :
    (s : Setting) {g : GlobalOptions} {rest : List Bytes} {r : ParseResult}
    → Accepts (apply g s) rest r
    → Accepts g (print_setting s ++ rest) r
Accepts-cons s (run ss c tail h e er) =
    run (s ∷ ss) c tail h
      (ap (◌++◌ (print_setting s)) e
        ∙ sym (append_assoc (print_setting s) (print_settings ss) (c ∷ tail)))
      er
Accepts-cons s (show_version ss tail e er) =
    show_version (s ∷ ss) tail
      (ap (◌++◌ (print_setting s)) e
        ∙ sym (append_assoc (print_setting s) (print_settings ss) (str "-V" ∷ tail)))
      er

Accepts-version :
    (g : GlobalOptions) (c : Bytes) (rest : List Bytes) {r : ParseResult}
    → c ≡ str "-V"
    → parse_global g (c ∷ rest) ≡ ok r
    → Accepts g (c ∷ rest) r
Accepts-version g c rest {r} e h = show_version [] rest (ap (λ x. x ∷ rest) e) (
    let p : ok r ≡ ok (versioned g) =
      sym h ∙ ap (λ x. parse_global g (x ∷ rest)) e ∙ parse_global-version g rest in
    cc)

Accepts-other :
    (g : GlobalOptions) (c : Bytes) (rest : List Bytes) {r : ParseResult}
    → is c "-V" ≡ false
    → is c "-L" ≡ false
    → is c "-S" ≡ false
    → is c "-f" ≡ false
    → parse_global g (c ∷ rest) ≡ ok r
    → Accepts g (c ∷ rest) r
Accepts-other g c rest {r} nv nl ns nf h = elim (Bool-cases (is c "")) [
  | inl e ↦ absurd (empty_fails rest e h)
  | inr e ↦
      run [] c rest (nv, nl, ns, nf, e) refl
        (let p : ok r ≡ ok (record { global = g; command = c; args = rest }) =
            sym h ∙ parse_global-command g c rest (nv, nl, ns, nf, e) in
          cc)
]
  where
    empty_fails : (rest : List Bytes) → is c "" ≡ true → parse_global g (c ∷ rest) ≡ ok r → ⊥
    empty_fails [] e h = unfold parse_global in ground arith
    empty_fails (v ∷ rest) e h = unfold parse_global in ground arith

value_flag_alone :
    (g : GlobalOptions) (s : Setting) (c v : Bytes) {r : ParseResult}
    → print_setting s ≡ c ∷ v ∷ []
    → parse_global g (c ∷ []) ≡ ok r
    → ⊥
unfolding parse_global
value_flag_alone g (name v) c w {r} e h =
    let p : str "-L" ≡ c = cc in cc (subst (λ x. parse_global g (x ∷ []) ≡ ok r) (sym p) h)
value_flag_alone g (path v) c w {r} e h =
    let p : str "-S" ≡ c = cc in cc (subst (λ x. parse_global g (x ∷ []) ≡ ok r) (sym p) h)
value_flag_alone g (config v) c w {r} e h =
    let p : str "-f" ≡ c = cc in cc (subst (λ x. parse_global g (x ∷ []) ≡ ok r) (sym p) h)

parse_global-setting :
    (g : GlobalOptions) (s : Setting) (rest : List Bytes)
    → parse_global g (print_setting s ++ rest) ≡ parse_global (apply g s) rest
unfolding parse_global
parse_global-setting g (name v) rest = refl
parse_global-setting g (path v) rest = refl
parse_global-setting g (config v) rest = refl

version-apply : (g : GlobalOptions) (s : Setting) → (apply g s).version ≡ g.version
version-apply g (name v) = refl
version-apply g (path v) = refl
version-apply g (config v) = refl

parse_global-Accepts :
    (args : List Bytes) (g : GlobalOptions) {r : ParseResult}
    → g.version ≡ false
    → parse_global g args ≡ ok r
    → Accepts g args r
parse_global-Accepts [] g nv h = unfold parse_global in ground arith
parse_global-Accepts (c ∷ []) g nv h = elim (classify c) [
  | version_flag e ↦ Accepts-version g c [] e h
  | value_flag s e ↦ absurd (value_flag_alone g (s []) c [] (e []) h)
  | other a b d e ↦ Accepts-other g c [] a b d e h
]
parse_global-Accepts (c ∷ v ∷ rest) g {r} nv h = elim (classify c) [
  | version_flag e ↦ Accepts-version g c (v ∷ rest) e h
  | value_flag s e ↦
      subst (λ front. Accepts g (front ++ rest) r) (e v)
        (Accepts-cons (s v) (
          parse_global-Accepts rest (apply g (s v)) (version-apply g (s v) ∙ nv) (
            sym (parse_global-setting g (s v) rest)
            ∙ ap (λ front. parse_global g (front ++ rest)) (e v)
            ∙ h)))
  | other a b d e ↦ Accepts-other g c (v ∷ rest) a b d e h
]

-- `Parse` accepts a command line with the result `r` exactly when the line is any number of
-- `-L`, `-S` and `-f` options, each with a value and the last of a kind winning, and then either
-- a word that is none of those flags, `-V` or empty, which is the command, with all that follows
-- it untouched as its arguments, or `-V`, behind which nothing is read.
pub parse_iff :
    (args : List Bytes) (r : ParseResult) → (parse args ≡ ok r) ↔ Accepts no_options args r
parse_iff args r = (accepted args, Accepts-parse)
  where
    accepted : (args : List Bytes) → parse args ≡ ok r → Accepts no_options args r
    accepted [] h = unfold parse in cc
    accepted (c ∷ rest) h =
        parse_global-Accepts (c ∷ rest) no_options refl
          (sym (parse-parse_global (c ∷ rest) (cons-ne-nil c rest)) ∙ h)
