-- ===== src/Agent/Process.antt =====
-- internal/agent/agent.go: an agent, from its configuration to its end.
pub mod Held
pub mod Leaves
pub mod ShellResult
use shimux.Base.{
  if◌then◌else◌, Bytes, str, is, Error, message, wrap, Result, ok, err, ℕ, ◌/◌, Bool, true, false,
  Option, none, some, [], ◌∷◌,
}
use shimux.Ghostty.{Environment}
use shimux.Agent.Socket.{Sockets, clean_stale_socket}
use shimux.Agent.Pty.{PtyPair, Terminals, sync_window_size}
use shimux.Agent.Server.{Listening, listen_and_serve}

-- What an agent takes from the system, over a world `W`: the terminals, the socket, the shell.
pub record Machine (W : Type 0) : Type 0 where
  pub sockets : Sockets W
  pub terminals : Terminals W
  pub listening : Listening W
  -- `Write` on a file
  pub write : ℕ → Bytes → W → Option Error × W
  -- `shell.Start()` with the command and the slave as its terminal
  pub start_shell : Bytes → ℕ → W → Option Error × W
  pub kill_shell : W → W
  -- `shell.Wait()`; the shell is killed when the context ends
  pub wait_shell : W → Option Error × W
  -- the two goroutines that copy between the master and the terminal, and `wg.Wait()`
  pub start_copies : ℕ → W → W
  pub wait_copies : W → W
  -- SIGWINCH: `signal.Notify` and the goroutine; `signal.Stop` and the close of the channel
  pub watch_size : ℕ → W → W
  pub stop_watching : W → W
  -- `server.Close()`
  pub close_server : W → W

-- `PTYOpener`
abbrev pub PtyOpener : Type 0 → Type 0
PtyOpener W = W → Result PtyPair × W

-- `shell` and `server` of the source are written in `Run` and read nowhere.
pub record Agent (W : Type 0) : Type 0 where
  pub pty_opener : PtyOpener W
  pub socket_path : Bytes
  pub pane_id : Bytes
  pub shell_cmd : Bytes
  pub master : Option ℕ
  -- the channel is closed
  pub done : Bool

-- `none` is nil.
pub record Config (W : Type 0) : Type 0 where
  pub pty_opener : Option (PtyOpener W)
  pub socket_path : Bytes
  pub pane_id : Bytes
  pub shell_cmd : Bytes

abbrev or_shell : Bytes → Bytes
or_shell [] = str "/bin/sh"
or_shell (c ∷ s) = c ∷ s

unfoldable pub get_default_shell : Environment → Bytes
get_default_shell getenv = or_shell (getenv (str "SHELL"))

abbrev or_default_shell : Environment → Bytes → Bytes
or_default_shell getenv [] = get_default_shell getenv
or_default_shell getenv (c ∷ s) = c ∷ s

abbrev or_opener : {W : Type 0} → PtyOpener W → Option (PtyOpener W) → PtyOpener W
or_opener default none = default
or_opener default (some opener) = opener

-- `default` is `DefaultPTYOpener`.
unfoldable pub new_agent : {W : Type 0} → Environment → PtyOpener W → Config W → Agent W
unfolding get_default_shell
new_agent getenv default cfg = record {
  pty_opener = or_opener default cfg.pty_opener;
  socket_path = cfg.socket_path;
  pane_id = cfg.pane_id;
  shell_cmd = or_default_shell getenv cfg.shell_cmd;
  master = none;
  done = false;
}

unfoldable pub validate_config : Bytes → Bytes → Option Error
validate_config socket_path pane_id =
    if is socket_path ""
    then some (message (str "SocketPath is required"))
    else if is pane_id ""
    then some (message (str "PaneID is required"))
    else none

abbrev pub Outcome : Type 0 → Type 0
Outcome W = Option Error × Agent W × W

-- The descriptor of `os.Stdin`.
abbrev pub stdin : Option ℕ
stdin = some 0

module _ {W : Type 0} (sys : Machine W) where
  -- The handler of `Run`, for the value of `a.master` when it is called.
  unfoldable pub write_to_master : Option ℕ → Bytes → W → Option Error × W
  write_to_master none text w = (some (message (str "master is closed")), w)
  write_to_master (some fd) text w = sys.write fd text w

  -- Stages 7 to 10, and the deferred `server.Close`.
  unfoldable pub serve_shell : Agent W → PtyPair → W → Outcome W
  serve_shell a p w =
      let (shell_error, w₁) =
        sys.wait_shell (sys.watch_size p.master (sys.start_copies p.master w)) in
      let w₂ = sys.close_server (sys.stop_watching w₁) in
      let w₃ = sys.wait_copies (sys.terminals.close_file p.master w₂) in
      (shell_error, record a { master = none; done = true }, sys.close_server w₃)

  -- The shell is killed when there is no server.
  unfoldable pub start_server : Agent W → PtyPair → W → Outcome W
  unfolding listen_and_serve serve_shell
  start_server a p w =
      let (r, w') = listen_and_serve sys.listening a.socket_path w in
      elim r [
        | some e ↦ (some (wrap (str "listen") e), a, (sys.wait_shell (sys.kill_shell w')).1)
        | none ↦ serve_shell a p w'
      ]

  unfoldable pub start_shell_on : Agent W → PtyPair → W → Outcome W
  unfolding start_server
  start_shell_on a p w =
      let (r, w') = sys.start_shell a.shell_cmd p.slave w in
      elim r [
        | some e ↦ (some (wrap (str "shell start") e), a, w')
        | none ↦ start_server a p (sys.terminals.close_file p.slave w')
      ]

  unfoldable pub start_terminal : Agent W → W → Outcome W
  unfolding start_shell_on sync_window_size
  start_terminal a w =
      let (r, w') = a.pty_opener w in
      elim r [
        | err e ↦ (some (wrap (str "pty open") e), a, w')
        | ok p ↦
            start_shell_on (record a { master = some p.master }) p
              (sync_window_size sys.terminals stdin (some p.master) w')
      ]

  unfoldable pub run_valid : Agent W → W → Outcome W
  unfolding clean_stale_socket start_terminal
  run_valid a w =
      let (r, w') = clean_stale_socket sys.sockets a.socket_path w in
      elim r [ some e ↦ (some e, a, w') | none ↦ start_terminal a w' ]

  unfoldable pub run : Agent W → W → Outcome W
  unfolding validate_config run_valid
  run a w = elim (validate_config a.socket_path a.pane_id) [
    | some e ↦ (some e, a, w)
    | none ↦ run_valid a w
  ]
