-- ===== src/Tests/Program.antt =====
-- The programs: the wrapper, the terminal and the environment.
use shimux.Base.{
  if◌then◌else◌, all, Bytes, str, equal, is, Error, exit_error, ok, ℕ, suc, ◌≡◌, refl, true, Option,
  none, some, [], ◌∷◌,
}
use shimux.Base.Int.{pos}
use shimux.Ghostty.{is_inside_ghostty}
use shimux.Wrapper.Session.{generate_session_name, is_name_byte, generate_session_name-kept}
use shimux.Wrapper.Environ.{variable}
use shimux.Wrapper.Run.{System, Wrapper, child_env, run}
use shimux.Wrapper.Child.{child_env-variable}
use shimux.Cli.{Process, run_main}
use shimux.Base.FilePath.{base_name}
use shimux.Base.Decimal.{decimal}
use shimux.Ghostty.KeySim.{key_sim}
use shimux.Wrapper.Run.{new}
use shimux.Cli.{config, fresh_manager}
use shimux.Cli.Modes.{told, run_main-tells}
use shimux.Tests.World.{controller, net, host, no_manager}

abbrev getenv : Bytes → Bytes
unfolding equal
getenv k = if is k "TERM_PROGRAM" then str "ghostty" else if is k "PATH" then str "/bin" else []

abbrev sys : System ℕ
sys = record {
  process_id = 42;
  executable = ok (str "/usr/bin/shimux");
  environ = str "HOME=/root" ∷ str "PATH=/bin" ∷ str "TERM_PROGRAM=ghostty" ∷ [];
  path = str "/bin";
  make_temp_dir = λ pattern w. (ok (str "/tmp/d"), suc w);
  symlink = λ target link w. (none, suc w);
  remove_all = λ dir w. suc w;
  run_child = λ args env w. (some (exit_error (pos 3) (str "exit status 3")), suc w);
}

abbrev process : Process ℕ
process = record {
  sys = sys;
  net = net;
  host = host;
  exec_script = λ script w. (none, suc w);
  visit = λ m. [];
  getenv = getenv;
  home = ok (str "/root");
  version = str "dev";
  quote = λ s. s;
}

abbrev wrapper : Wrapper ℕ
wrapper = record {
  controller = controller;
  manager = no_manager;
  session = str "work";
  tmp_dir = [];
  shimux_path = str "/usr/bin/shimux";
}

-- A space, a letter of two bytes and a lone byte.
abbrev odd_name : Bytes
odd_name = b'a' ∷ b' ' ∷ 195 ∷ 169 ∷ 255 ∷ b'-' ∷ []

generate_session_name-kept_example :
    (all is_name_byte (generate_session_name odd_name) ≡ true)
    × (all is_name_byte odd_name ≡ true → generate_session_name odd_name ≡ odd_name)
    × (generate_session_name (generate_session_name odd_name) ≡ generate_session_name odd_name)
generate_session_name-kept_example = generate_session_name-kept odd_name

child_env-variable_example :
    variable (str "TMUX_PANE") (child_env sys wrapper)
    ≡ (if is (str "TMUX_PANE") "TMUX_PANE" then some (str "%0") else none)
unfolding equal
child_env-variable_example = child_env-variable sys wrapper (str "TMUX_PANE") refl

inside : is_inside_ghostty getenv ≡ true
unfolding is_inside_ghostty equal
inside = refl

abbrev exec_script : Bytes → ℕ → Option Error × ℕ
exec_script script w = (none, suc w)

-- A session name of runes, and of bytes that are none.
named : generate_session_name odd_name ≡ str "a___-"
unfolding generate_session_name
named = refl

abbrev made : Wrapper ℕ
made = record {
  controller = key_sim exec_script;
  manager = fresh_manager process;
  session = str "shimux-42";
  tmp_dir = [];
  shimux_path = str "/usr/bin/shimux";
}

made_new : new sys (config process) ≡ ok made
unfolding new generate_session_name decimal fresh_manager
made_new = refl

called_shimux : base_name (str "/usr/bin/shimux") ≡ str "shimux"
unfolding base_name
called_shimux = refl

-- `shimux -x -- ls -V`, with a child that exits with 3
run_main-tells_example :
    run_main process (str "/usr/bin/shimux" ∷ str "-x" ∷ str "--" ∷ str "ls" ∷ str "-V" ∷ []) 0
    ≡ told process (run sys (str "ls" ∷ str "-V" ∷ []) made 0)
unfolding equal
run_main-tells_example =
    run_main-tells process (str "/usr/bin/shimux") (str "-x" ∷ []) (str "ls") (str "-V" ∷ []) 0
      called_shimux ((refl, refl), tt) inside made_new
