-- ===== src/AgentCli.antt =====
-- cmd/shimux-agent/main.go: the program that runs in each pane.
pub mod Exits
use shimux.Base.{
  Bytes, str, Error, exit_error, error_text, ◌+◌, ◌-◌, not, Option, none, some, [], ◌∷◌, ◌++◌,
}
use shimux.Base.Int.{ℤ, pos}
use shimux.Ghostty.{Environment}
use shimux.Agent.Client.{Host, safe_socket_path}
use shimux.Agent.Process.{Machine, PtyOpener, Config, Agent, Outcome, new_agent, run}

-- What the process takes from outside.
pub record AgentProcess (W : Type 0) : Type 0 where
  pub machine : Machine W
  -- `DefaultPTYOpener`
  pub default_opener : PtyOpener W
  pub host : Host
  pub getenv : Environment
  -- `%q`
  pub quote : Bytes → Bytes

-- The exit code and what was written to the error stream; nothing is written to the output.
pub record AgentExit (W : Type 0) : Type 0 where
  pub code : ℤ
  pub stderr : Bytes
  pub world : W

abbrev pub not_set : {W : Type 0} → Bytes → W → AgentExit W
not_set name w = record {
  code = pos 1;
  stderr =
      (str "shimux-agent: " ++ (name ++ str " not set\n"))
      ++ str "shimux-agent: this program should be launched by shimux\n";
  world = w;
}

module _ {W : Type 0} (proc : AgentProcess W) where
  -- The exit of the process for what `Run` returned: an `*exec.ExitError` gives its code.
  unfoldable pub exit_of : Option Error → W → AgentExit W
  unfolding error_text
  exit_of none w = record { code = pos 0; stderr = []; world = w }
  exit_of (some (exit_error code text)) w = record { code = code; stderr = []; world = w }
  exit_of (some e) w = record {
    code = pos 1;
    stderr = str "shimux-agent: " ++ (error_text proc.quote e ++ b'\n' ∷ []);
    world = w;
  }

  unfoldable pub agent_of : Bytes → Bytes → Agent W
  unfolding new_agent safe_socket_path
  agent_of session pane_id = new_agent proc.getenv proc.default_opener (record {
    pty_opener = none;
    socket_path = safe_socket_path proc.host session pane_id;
    pane_id = pane_id;
    shell_cmd = [];
  })

  unfoldable pub run_agent : Agent W → W → AgentExit W
  unfolding run exit_of
  run_agent a w = let (r, a', w') = run proc.machine a w in exit_of r w'

  -- The two tests for a variable that is not set, and the run.
  unfoldable pub run_in : Bytes → Bytes → W → AgentExit W
  unfolding agent_of run_agent
  run_in [] session w = not_set (str "SHIMUX_PANE_ID") w
  run_in (c ∷ pane_id) [] w = not_set (str "SHIMUX_SESSION") w
  run_in (c ∷ pane_id) (d ∷ session) w = run_agent (agent_of (d ∷ session) (c ∷ pane_id)) w

  unfoldable pub run_with_io : W → AgentExit W
  unfolding run_in
  run_with_io w = run_in (proc.getenv (str "SHIMUX_PANE_ID")) (proc.getenv (str "SHIMUX_SESSION")) w
