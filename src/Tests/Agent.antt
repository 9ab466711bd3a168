-- ===== src/Tests/Agent.antt =====
-- The agent and its program on small machines, whose world is what the process holds.
use shimux.Base.{
  ◌==◌, if◌then◌else◌, Bool-cases, length, Bytes, str, equal, is, Error, message, exit_error,
  Result, ok, err, ℕ, ◌≡◌, refl, ap, ◌≢◌, inl, inr, Bool, true, false, not, ◌&&◌, ◌||◌, Option,
  none, some, [], ◌∷◌, ◌++◌, arith,
}
use shimux.Base.Int.{pos}
use shimux.Agent.Pty.{Terminals, open_pty}
use shimux.Agent.Pty.Opened.{FileLaws, IsPair, open_pty-IsPair}
use shimux.Agent.Process.{Machine, PtyOpener, Agent, run}
use shimux.Agent.Process.Held.{Held, with_file, without_file, MachineLaws}
use shimux.Agent.Process.Leaves.{Leaves, run-Leaves}
use shimux.Agent.Process.ShellResult.{Succeeds}
use shimux.AgentCli.{AgentProcess, run_with_io, agent_of}
use shimux.Agent.Process.{validate_config}
use shimux.Agent.Socket.{clean_stale_socket}
use shimux.Agent.Server.{listen_and_serve}
use shimux.Agent.Process.Held.{PairHeld}
use shimux.AgentCli.Exits.{run_with_io-code}
use shimux.Tests.World.{host}

abbrev busy : Error
busy = message (str "too many open files")

-- The files that are open; 7 and 8 are the descriptors there are.
abbrev Files : Type 0
Files = ℕ → Bool

abbrev opened_as : ℕ → Files → Files
opened_as fd w x = x == fd || w x

abbrev open_free : Files → Result ℕ × Files
open_free w =
    if not (w 7)
    then (ok 7, opened_as 7 w)
    else if not (w 8)
    then (ok 8, opened_as 8 w)
    else (err busy, w)

abbrev terminals : Terminals Files
terminals = record {
  open_file = λ name w. open_free w;
  grant = λ fd w. (none, w);
  unlock = λ fd w. (none, w);
  name = λ fd w. (ok (str "/dev/ttys1" ++ 0 ∷ 0 ∷ []), w);
  get_size = λ fd w. (ok (24 ∷ 80 ∷ 0 ∷ 0 ∷ []), w);
  set_size = λ fd size w. (none, w);
  close_file = λ fd w x. not (x == fd) && w x;
}

file_laws : FileLaws terminals (λ fd w. w fd)
file_laws = record {
  opened = λ name w. elim (Bool-cases (w 7)) [
    | inl e ↦ elim (Bool-cases (w 8)) [
      | inl e' ↦ rw (e, e') (λ x. refl)
      | inr e' ↦ rw (e, e') (e', λ x. refl)
    ]
    | inr e ↦ rw e (e, λ x. refl)
  ];
  granted = λ fd w x. refl;
  unlocked = λ fd w x. refl;
  named = λ fd w x. refl;
  closed = λ fd w x. refl;
}

-- With one descriptor left the slave cannot be opened, and the master is closed again.
one_left : Files
one_left = opened_as 8 (λ fd. false)

open_pty-IsPair_example :
    IsPair (λ fd w. w fd) (open_pty terminals one_left).0 one_left (open_pty terminals one_left).1
open_pty-IsPair_example = open_pty-IsPair terminals (λ fd w. w fd) file_laws one_left

abbrev nothing : Held
nothing = record { files = λ fd. false; shell = false; listener = false }

abbrev default_opener : PtyOpener Held
default_opener w =
    if w.files 3 || w.files 4
    then (err busy, w)
    else (ok (record { master = 3; slave = 4 }), with_file 4 (with_file 3 w))

-- A machine on which the shell starts as `shell_start` says and the listener as `listen` says. The
-- shell ends with exit status 3.
abbrev machine : Option Error → Option Error → Machine Held
machine shell_start listen = record {
  sockets = record {
    is_missing = λ path w. (true, w);
    dial_timeout = λ path ms w. (none, w);
    close_conn = λ w. w;
    remove = λ path w. (none, w);
  };
  terminals = record {
    open_file = λ name w. (err busy, w);
    grant = λ fd w. (none, w);
    unlock = λ fd w. (none, w);
    name = λ fd w. (err busy, w);
    get_size = λ fd w. (err busy, w);
    set_size = λ fd size w. (none, w);
    close_file = without_file;
  };
  listening = record {
    make_dirs = λ path mode w. (none, w);
    umask = λ mask w. (0o022, w);
    listen = λ path w. elim listen [
      | some e ↦ (some e, w)
      | none ↦ (none, record w { listener = true })
    ];
    serve = λ w. w;
  };
  write = λ fd text w. (none, w);
  start_shell = λ cmd fd w. elim shell_start [
    | some e ↦ (some e, w)
    | none ↦ (none, record w { shell = true })
  ];
  kill_shell = λ w. w;
  wait_shell = λ w. (some (exit_error (pos 3) (str "exit status 3")), record w { shell = false });
  start_copies = λ fd w. w;
  wait_copies = λ w. w;
  watch_size = λ fd w. w;
  stop_watching = λ w. w;
  close_server = λ w. record w { listener = false };
}

-- No listener can be had.
abbrev in_use : Machine Held
in_use = machine none (some (message (str "bind: address already in use")))

abbrev agent : Agent Held
agent = record {
  pty_opener = default_opener;
  socket_path = str "/tmp/shimux/work/pane-1.sock";
  pane_id = str "1";
  shell_cmd = str "/bin/sh";
  master = none;
  done = false;
}

default_opener-held : (w : Held) → PairHeld (default_opener w).0 w (default_opener w).1
default_opener-held w = elim (Bool-cases (w.files 3)) [
  | inl e ↦ rw e refl
  | inr e ↦ elim (Bool-cases (w.files 4)) [
    | inl e' ↦ rw (e, e') refl
    | inr e' ↦ rw (e, e') (e, e', refl, refl)
  ]
]

in_use_laws : MachineLaws in_use agent.pty_opener (λ w. w)
in_use_laws = record {
  is_missing = λ path w. refl;
  dial_timeout = λ path ms w. refl;
  close_conn = λ w. refl;
  remove = λ path w. refl;
  opened = default_opener-held;
  get_size = λ fd w. refl;
  set_size = λ fd size w. refl;
  close_file = λ fd w. refl;
  start_shell = λ cmd fd w. refl;
  kill_shell = λ w. refl;
  wait_shell = λ w. refl;
  make_dirs = λ path mode w. refl;
  umask = λ mask w. refl;
  listen = λ path w. refl;
  serve = λ w. refl;
  close_server = λ w. refl;
  start_copies = λ fd w. refl;
  wait_copies = λ fd. refl;
  watch_size = λ fd w. refl;
  stop_watching = λ w. refl;
}

-- The master is left open.
master_left : (run in_use agent nothing).2.files 3 ≡ true
unfolding run
master_left = refl

run-Leaves_example :
    Leaves in_use agent nothing (run in_use agent nothing).2 (run in_use agent nothing).0
run-Leaves_example = run-Leaves in_use (λ w. w) agent nothing in_use_laws refl refl

abbrev pub getenv : Bytes → Bytes
unfolding equal
getenv k =
    if is k "SHIMUX_PANE_ID" then str "1" else if is k "SHIMUX_SESSION" then str "work" else []

-- A machine on which every call succeeds.
abbrev pub agent_process : AgentProcess Held
agent_process = record {
  machine = machine none none;
  default_opener = λ w. (ok (record { master = 3; slave = 4 }), with_file 4 (with_file 3 w));
  host = host;
  getenv = getenv;
  quote = λ s. s;
}

good : Succeeds agent_process.machine (agent_of agent_process (str "work") (str "1"))
unfolding agent_of validate_config clean_stale_socket listen_and_serve
good = record {
  valid = refl;
  cleaned = λ w. refl;
  opened = λ w. (record { master = 3; slave = 4 }, refl);
  started = λ fd w. refl;
  listening = λ w. refl;
}

pane_is_set : getenv (str "SHIMUX_PANE_ID") ≢ []
unfolding equal
pane_is_set e = absurd (omega (arith, ap length e))

session_is_set : getenv (str "SHIMUX_SESSION") ≢ []
unfolding equal
session_is_set e = absurd (omega (arith, ap length e))

run_with_io-code_example : (run_with_io agent_process nothing).code ≡ pos 3
unfolding getenv
run_with_io-code_example =
    (run_with_io-code agent_process nothing).2 (some (exit_error (pos 3) (str "exit status 3")))
      pane_is_set session_is_set good (λ w. refl)
