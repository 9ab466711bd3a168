-- ===== src/Cli.antt =====
-- cmd/shimux/main.go: the program, as `tmux` for the child and as `shimux` for the user.
pub mod Modes
pub mod Typed
use shimux.Base.{
  ◌&&◌, if◌then◌else◌, Bytes, str, is, Error, Result, ok, err, error_text, ℕ, ◌+◌, ◌-◌, Bool, false,
  not, ◌||◌, Option, none, some, List, [], ◌∷◌, ◌++◌,
}
use shimux.Base.FilePath.{join, base_name}
use shimux.Ghostty.{Environment, is_inside_ghostty}
use shimux.Ghostty.KeySim.{key_sim}
use shimux.Pane.{Pane, Manager, new_manager}
use shimux.Agent.Client.{Host, Net}
use shimux.Tmux.Parser.{ParseResult, parse}
use shimux.Tmux.Commands.{Context, State, Reply, execute}
use shimux.Wrapper.Run.{Config, System, Wrapper, new, run}

-- What the process takes from outside.
pub record Process (W : Type 0) : Type 0 where
  pub sys : System W
  pub net : Net W
  pub host : Host
  pub exec_script : Bytes → W → Option Error × W
  pub visit : Manager → List Pane
  pub getenv : Environment
  -- `os.UserHomeDir()`
  pub home : Result Bytes
  pub version : Bytes
  -- `%q`
  pub quote : Bytes → Bytes

-- The exit code and what was written.
pub record Exit (W : Type 0) : Type 0 where
  pub code : ℕ
  pub stdout : Bytes
  pub stderr : Bytes
  pub world : W

abbrev pub line : Bytes → Bytes
line s = s ++ b'\n' ∷ []

-- The first loop: -V in front of the first `--`.
unfoldable pub asks_version : List Bytes → Bool
asks_version [] = false
asks_version (a ∷ args) = is a "-V" || (not (is a "--") && asks_version args)

-- The second loop: what stands behind the first `--`.
unfoldable pub command_args : List Bytes → List Bytes
command_args [] = []
command_args (a ∷ args) = if is a "--" then args else command_args args

module _ {W : Type 0} (proc : Process W) where
  abbrev home_dir : Result Bytes → Bytes
  home_dir (ok home) = home
  home_dir (err e) = proc.host.temp_dir

  unfoldable pub default_state_dir : Bytes
  unfolding join
  default_state_dir = join (home_dir proc.home ∷ str ".local" ∷ str "state" ∷ str "shimux" ∷ [])

  -- `NewWithDir(DefaultStateDir())`
  unfoldable pub fresh_manager : Manager
  unfolding join default_state_dir
  fresh_manager = new_manager (join (default_state_dir ∷ str "panes.json" ∷ []))

  abbrev pub complain : Bytes → W → Exit W
  complain s w = record { code = 1; stdout = []; stderr = line s; world = w }

  abbrev pub print : Bytes → W → Exit W
  print s w = record { code = 0; stdout = line s; stderr = []; world = w }

  unfoldable pub shown : Error → Bytes
  unfolding error_text
  shown e = str "shimux: " ++ error_text proc.quote e

  abbrev pub context : Context W
  context = record {
    controller = key_sim proc.exec_script;
    net = proc.net;
    host = proc.host;
    visit = proc.visit;
    session = proc.getenv (str "SHIMUX_SESSION");
  }

  abbrev pub start : W → State W
  start w = record { manager = fresh_manager; stdout = []; stderr = []; world = w }

  unfoldable pub complaint : Option Error → Bytes
  unfolding shown
  complaint none = []
  complaint (some e) = line (shown e)

  -- An error of the command is written after what the command wrote.
  unfoldable pub finish : Reply W → Exit W
  unfolding complaint
  finish r = record {
    code = r.code;
    stdout = r.state.stdout;
    stderr = r.state.stderr ++ complaint r.error;
    world = r.state.world;
  }

  -- Stages 2 and 3 of `runTmuxMode`.
  unfoldable pub run_parsed : ParseResult → W → Exit W
  unfolding execute finish
  run_parsed result w =
      if result.global.version
      then print (str "shimux " ++ (proc.version ++ str " (tmux-compatible)")) w
      else finish (execute context result (start w))

  unfoldable pub run_tmux_mode : List Bytes → W → Exit W
  unfolding parse run_parsed shown
  run_tmux_mode [] w = complain (str "shimux: no command specified") w
  run_tmux_mode (a ∷ args) w = elim (parse (a ∷ args)) [
    | err e ↦ complain (shown e) w
    | ok result ↦ run_parsed result w
  ]

  unfoldable pub run_with : List Bytes → Wrapper W → W → Exit W
  unfolding run shown
  run_with cmd wr w =
      let (r, wr', w') = run proc.sys cmd wr w in
      elim r [
        | some e ↦ complain (shown e) w'
        | none ↦ record { code = 0; stdout = []; stderr = []; world = w' }
      ]

  abbrev pub config : Config W
  config = record {
    controller = some (key_sim proc.exec_script);
    manager = some fresh_manager;
    session = [];
    shimux_path = [];
  }

  unfoldable pub run_wrapper : List Bytes → W → Exit W
  unfolding new run_with shown
  run_wrapper cmd w = elim (new proc.sys config) [
    | err e ↦ complain (shown e) w
    | ok wr ↦ run_with cmd wr w
  ]

  abbrev pub run_command : List Bytes → W → Exit W
  run_command [] w = complain (str "usage: shimux -- <command> [args...]") w
  run_command (c ∷ cmd) w =
      if not (is_inside_ghostty proc.getenv)
      then complain (str "shimux: not running inside ghostty terminal") w
      else run_wrapper (c ∷ cmd) w

  unfoldable pub run_shimux_mode : List Bytes → W → Exit W
  unfolding asks_version command_args run_wrapper is_inside_ghostty
  run_shimux_mode args w =
      if asks_version args
      then print (str "shimux " ++ proc.version) w
      else run_command (command_args args) w

  unfoldable pub run_main : List Bytes → W → Exit W
  unfolding base_name run_tmux_mode run_shimux_mode
  run_main [] w = complain (str "shimux: no arguments") w
  run_main (program ∷ args) w =
      if is (base_name program) "tmux"
      then run_tmux_mode args w
      else if is (base_name program) "shimux"
      then run_shimux_mode args w
      else if is (proc.getenv (str "SHIMUX")) "1"
      then run_tmux_mode args w
      else run_shimux_mode args w
