-- ===== src/Wrapper/Child.antt =====
-- internal/wrapper/wrapper.go: what the child sees.
use shimux.Base.{
  if◌then◌else◌, Bytes, str, equal, is, ◌≡◌, refl, ap, ◌∙◌, true, Option, some, List, [], ◌∷◌, ◌++◌,
  arith,
}
use shimux.Base.Decimal.{decimal}
use shimux.Wrapper.Environ.{
  key_of, replace_env, replace_all, variable, has_no_equals, variable-replace_env,
}
use shimux.Wrapper.Run.{System, Wrapper, child_env}

-- What a list of settings gives a variable: the last setting of its key, or else what it was.
abbrev given : Bytes → List (Bytes × Bytes) → Option Bytes → Option Bytes
given k [] old = old
given k ((key, v) ∷ kvs) old = given k kvs (if equal k key then some v else old)

abbrev entries : List (Bytes × Bytes) → List Bytes
entries [] = []
entries ((key, v) ∷ kvs) = (key ++ b'=' ∷ v) ∷ entries kvs

abbrev KeysFit : List (Bytes × Bytes) → Type 0
KeysFit [] = Unit
KeysFit ((key, v) ∷ kvs) = (has_no_equals key ≡ true) × KeysFit kvs

key_of-entry : (key v : Bytes) → has_no_equals key ≡ true → key_of (key ++ b'=' ∷ v) ≡ key
unfolding key_of
key_of-entry [] v h = refl
key_of-entry (c ∷ key) v h = ground (arith, h, key_of-entry key v)

variable-replace_all :
    (k : Bytes) (kvs : List (Bytes × Bytes)) (vars : List Bytes)
    → has_no_equals k ≡ true
    → KeysFit kvs
    → variable k (replace_all vars (entries kvs)) ≡ given k kvs (variable k vars)
unfolding replace_all
variable-replace_all k [] vars h fit = refl
variable-replace_all k ((key, v) ∷ kvs) vars h (fit, fits) =
    let e = key ++ b'=' ∷ v in
    ap (λ x. variable k (replace_all (replace_env vars x e) (entries kvs))) (key_of-entry key v fit)
    ∙ variable-replace_all k kvs (replace_env vars key e) h fits
    ∙ ap (given k kvs) (variable-replace_env k key v vars h fit)

module _ {W : Type 0} (sys : System W) where
  -- The child's environment puts the wrapper's directory in front of PATH, sets TMUX, SHIMUX,
  -- SHIMUX_SESSION, SHIMUX_PANE_ID and TMUX_PANE, and leaves each other variable as it was outside.
  -- A variable's name holds no equals sign.
  pub child_env-variable :
      (wr : Wrapper W) (k : Bytes)
      → has_no_equals k ≡ true
      → variable k (child_env sys wr) ≡ (
          if is k "TMUX_PANE"
          then some (str "%0")
          else if is k "SHIMUX_PANE_ID"
          then some (str "0")
          else if is k "SHIMUX_SESSION"
          then some wr.session
          else if is k "SHIMUX"
          then some (str "1")
          else if is k "TMUX"
          then some (wr.tmp_dir ++ (str "/shimux," ++ (decimal sys.process_id ++ str ",0")))
          else if is k "PATH"
          then some (wr.tmp_dir ++ b':' ∷ sys.path)
          else variable k sys.environ)
  unfolding child_env
  child_env-variable wr k h =
      variable-replace_all k
        ((str "PATH", wr.tmp_dir ++ b':' ∷ sys.path)
          ∷ (str "TMUX", wr.tmp_dir ++ (str "/shimux," ++ (decimal sys.process_id ++ str ",0")))
          ∷ (str "SHIMUX", str "1")
          ∷ (str "SHIMUX_SESSION", wr.session)
          ∷ (str "SHIMUX_PANE_ID", str "0")
          ∷ (str "TMUX_PANE", str "%0")
          ∷ [])
        sys.environ h (refl, (refl, (refl, (refl, (refl, (refl, tt))))))
