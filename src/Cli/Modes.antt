-- ===== src/Cli/Modes.antt =====
-- cmd/shimux/main.go: the arguments of the child, and what the program makes of its result.
use shimux.Base.{
  All, Bytes, str, equal, is, Error, Result, ok, err, error_text, ◌≡◌, refl, ap, ◌∙◌, true, false,
  Option, none, some, List, [], ◌∷◌, ◌++◌,
}
use shimux.Base.FilePath.{base_name}
use shimux.Ghostty.{is_inside_ghostty}
use shimux.Wrapper.Run.{Wrapper, run, new}
use shimux.Cli.{
  config, Process, Exit, complain, shown, asks_version, command_args, run_with, run_wrapper,
  run_shimux_mode, run_main,
}

module _ {W : Type 0} (proc : Process W) where
  split_args :
      (pre cmd : List Bytes)
      → All (λ a. (is a "--" ≡ false) × (is a "-V" ≡ false)) pre
      → (asks_version (pre ++ str "--" ∷ cmd) ≡ false)
        × (command_args (pre ++ str "--" ∷ cmd) ≡ cmd)
  unfolding asks_version command_args equal
  split_args [] cmd h = (refl, refl)
  split_args (a ∷ pre) cmd ((x, y), h) = rw (x, y) (split_args pre cmd h)

  -- Inside Ghostty, `shimux … -- command` runs the command with all its arguments, a `-V` or a `--` of
  -- its own among them; what stands in front of the first `--` is ignored unless it is `-V`.
  run_shimux_mode-runs :
      (pre : List Bytes) (c : Bytes) (cmd : List Bytes) (w : W)
      → All (λ a. (is a "--" ≡ false) × (is a "-V" ≡ false)) pre
      → is_inside_ghostty proc.getenv ≡ true
      → run_shimux_mode proc (pre ++ str "--" ∷ c ∷ cmd) w ≡ run_wrapper proc (c ∷ cmd) w
  unfolding run_shimux_mode
  run_shimux_mode-runs pre c cmd w h inside =
      let (x, y) = split_args pre (c ∷ cmd) h in rw (x, y, inside) refl

  -- What the program makes of the result of the wrapper's run.
  abbrev pub told : Option Error × Wrapper W × W → Exit W
  told (none, wr, w) = record { code = 0; stdout = []; stderr = []; world = w }
  told (some e, wr, w) = record {
    code = 1;
    stdout = [];
    stderr = (str "shimux: " ++ error_text proc.quote e) ++ b'\n' ∷ [];
    world = w;
  }

  run_with-told :
      (cmd : List Bytes) (wr : Wrapper W) (w : W)
      → run_with proc cmd wr w ≡ told (run proc.sys cmd wr w)
  unfolding run_with shown
  run_with-told cmd wr w =
      by_result (run proc.sys cmd wr w).0 (run proc.sys cmd wr w).1 (run proc.sys cmd wr w).2
    where
      by_result :
          (r : Option Error) (wr' : Wrapper W) (w' : W)
          → (elim r as (λ x. Exit W) [
            | some e ↦ complain proc (shown proc e) w'
            | none ↦ record { code = 0; stdout = []; stderr = []; world = w' }
          ])
            ≡ told (r, wr', w')
      by_result (some e) wr' w' = refl
      by_result none wr' w' = refl

  run_wrapper-told :
      (cmd : List Bytes) (w : W) {wr : Wrapper W}
      → new proc.sys (config proc) ≡ ok wr
      → run_wrapper proc cmd w ≡ told (run proc.sys cmd wr w)
  unfolding run_wrapper
  run_wrapper-told cmd w {wr} made =
      ap
        (λ (x : Result (Wrapper W)). elim x as (λ y. Exit W) [
          | err e ↦ complain proc (shown proc e) w
          | ok wr' ↦ run_with proc cmd wr' w
        ])
        made
      ∙ run_with-told cmd wr w

  run_main-shimux :
      (program : Bytes) (args : List Bytes) (w : W)
      → base_name program ≡ str "shimux"
      → run_main proc (program ∷ args) w ≡ run_shimux_mode proc args w
  unfolding run_main equal
  run_main-shimux program args w called = rw called refl

  -- Called as `shimux … -- command` inside Ghostty, with a wrapper that can be made, the program runs the
  -- command with all its arguments, a `-V` or a `--` of its own among them; what stands in front of the
  -- first `--` is ignored unless it is `-V`. If the run gives no error the program exits with 0 and
  -- writes nothing. Any error, a failing child's among them, whatever its own exit code, makes it exit
  -- with 1 and write the error on one line.
  pub run_main-tells :
      (program : Bytes) (pre : List Bytes) (c : Bytes) (cmd : List Bytes) (w : W) {wr : Wrapper W}
      → base_name program ≡ str "shimux"
      → All (λ a. (is a "--" ≡ false) × (is a "-V" ≡ false)) pre
      → is_inside_ghostty proc.getenv ≡ true
      → new proc.sys (config proc) ≡ ok wr
      → run_main proc (program ∷ (pre ++ str "--" ∷ c ∷ cmd)) w ≡ told (run proc.sys (c ∷ cmd) wr w)
  run_main-tells program pre c cmd w called h inside made =
      run_main-shimux program (pre ++ str "--" ∷ c ∷ cmd) w called
      ∙ run_shimux_mode-runs pre c cmd w h inside
      ∙ run_wrapper-told (c ∷ cmd) w made
