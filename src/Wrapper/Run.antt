-- ===== src/Wrapper/Run.antt =====
-- internal/wrapper/wrapper.go: a wrapper, its set-up, the run of the child and the clean-up.
use shimux.Base.{
  Bytes, str, Error, message, wrap, Result, ok, err, ℕ, Option, none, some, List, [], ◌∷◌, ◌++◌,
}
use shimux.Base.Decimal.{decimal}
use shimux.Base.FilePath.{join}
use shimux.Ghostty.{Controller}
use shimux.Pane.{Manager, register}
use shimux.Wrapper.Session.{generate_session_name}
use shimux.Wrapper.Environ.{env, replace_all}

-- What the wrapper takes from the system, over a world `W`.
pub record System (W : Type 0) : Type 0 where
  pub process_id : ℕ
  -- `os.Executable()`
  pub executable : Result Bytes
  -- `os.Environ()` and `os.Getenv("PATH")`
  pub environ : List Bytes
  pub path : Bytes
  -- `os.MkdirTemp("", pattern)`
  pub make_temp_dir : Bytes → W → Result Bytes × W
  -- `os.Symlink(target, link)`
  pub symlink : Bytes → Bytes → W → Option Error × W
  pub remove_all : Bytes → W → W
  -- `cmd.Run()` with the arguments and the environment
  pub run_child : List Bytes → List Bytes → W → Option Error × W

pub record Wrapper (W : Type 0) : Type 0 where
  pub controller : Controller W
  pub manager : Manager
  pub session : Bytes
  pub tmp_dir : Bytes
  pub shimux_path : Bytes

-- `none` is nil.
pub record Config (W : Type 0) : Type 0 where
  pub controller : Option (Controller W)
  pub manager : Option Manager
  pub session : Bytes
  pub shimux_path : Bytes

module _ {W : Type 0} (sys : System W) where
  abbrev or_session : Bytes → Bytes
  or_session [] = str "shimux-" ++ decimal sys.process_id
  or_session (c ∷ s) = c ∷ s

  abbrev or_executable : Bytes → Result Bytes
  or_executable [] = elim sys.executable [
    | err e ↦ err (wrap (str "resolve executable path") e)
    | ok exe ↦ ok exe
  ]
  or_executable (c ∷ s) = ok (c ∷ s)

  unfoldable pub new : Config W → Result (Wrapper W)
  unfolding generate_session_name
  new cfg = elim cfg.controller [
    | none ↦ err (message (str "controller is required"))
    | some controller ↦ elim cfg.manager [
      | none ↦ err (message (str "pane manager is required"))
      | some manager ↦ elim (or_executable cfg.shimux_path) [
        | err e ↦ err e
        | ok exe ↦ ok (record {
          controller = controller;
          manager = manager;
          session = generate_session_name (or_session cfg.session);
          tmp_dir = [];
          shimux_path = exe;
        })
      ]
    ]
  ]

  -- The directory is kept when the link fails.
  unfoldable pub setup : Wrapper W → W → Option Error × Wrapper W × W
  unfolding join
  setup wr w =
      let (r, w₁) = sys.make_temp_dir (str "shimux-wrapper-") w in
      elim r [
        | err e ↦ (some e, wr, w₁)
        | ok dir ↦
            let (linked, w₂) = sys.symlink wr.shimux_path (join (dir ∷ str "tmux" ∷ [])) w₁ in
            (linked, record wr { tmp_dir = dir }, w₂)
      ]

  unfoldable pub cleanup : Wrapper W → W → W
  cleanup wr w = elim wr.tmp_dir [ [] ↦ w | c ∷ dir ↦ sys.remove_all (c ∷ dir) w ]

  unfoldable pub child_env : Wrapper W → List Bytes
  unfolding replace_all
  child_env wr = replace_all sys.environ (env wr.tmp_dir sys.path sys.process_id wr.session)

  -- After the set-up: pane 0 is registered, the child is run, and the deferred clean-up follows.
  unfoldable pub run_child_of : List Bytes → Wrapper W → W → Option Error × Wrapper W × W
  unfolding cleanup child_env
  run_child_of args wr w =
      let wr' = record wr { manager = (register [] wr.manager).1 } in
      let (r, w₁) = sys.run_child args (child_env wr') w in (r, wr', cleanup wr' w₁)

  unfoldable pub run : List Bytes → Wrapper W → W → Option Error × Wrapper W × W
  unfolding setup run_child_of
  run [] wr w = (some (message (str "no command specified")), wr, w)
  run (a ∷ args) wr w =
      let (r, wr', w₁) = setup wr w in
      elim r [
        | some e ↦ (some (wrap (str "setup") e), wr', w₁)
        | none ↦ run_child_of (a ∷ args) wr' w₁
      ]
