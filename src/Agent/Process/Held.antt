-- ===== src/Agent/Process/Held.antt =====
-- internal/agent/agent.go: what the process holds after each call of a run.
use shimux.Base.{
  ◌==◌, if◌then◌else◌, Bytes, str, Error, wrap, socket_in_use, Result, ok, err, ℕ, ◌≡◌, ap, subst,
  ◌∙◌, Bool, true, false, not, ◌&&◌, ◌||◌, Option, none, some, List, ◌++◌,
}
use shimux.Base.FilePath.{dir_name}
use shimux.Agent.Socket.{stale_dial_timeout, clean_stale_socket, probe, remove_stale}
use shimux.Agent.Pty.{PtyPair, sync_window_size}
use shimux.Agent.Server.{listen_and_serve, start_serving, listen_under_mask}
use shimux.Agent.Process.{Machine, PtyOpener, Agent, stdin, serve_shell}

-- What a process holds: its open files, a shell that was not waited for, a listener.
pub record Held : Type 0 where
  pub files : ℕ → Bool
  pub shell : Bool
  pub listener : Bool

abbrev pub with_file : ℕ → Held → Held
with_file fd h = record h { files = λ x. x == fd || h.files x }

abbrev pub without_file : ℕ → Held → Held
without_file fd h = record h { files = λ x. not (x == fd) && h.files x }

-- A pair was opened, under two different descriptors that were not in use, or none was.
abbrev pub PairHeld : Result PtyPair → Held → Held → Type 0
PairHeld (err e) h h' = h' ≡ h
PairHeld (ok p) h h' =
    (h.files p.master ≡ false)
    × (h.files p.slave ≡ false)
    × ((p.slave == p.master) ≡ false)
    × (h' ≡ with_file p.slave (with_file p.master h))

abbrev pub ShellHeld : Option Error → Held → Held → Type 0
ShellHeld (some e) h h' = h' ≡ h
ShellHeld none h h' = h' ≡ record h { shell = true }

abbrev pub ListenerHeld : Option Error → Held → Held → Type 0
ListenerHeld (some e) h h' = h' ≡ h
ListenerHeld none h h' = h' ≡ record h { listener = true }

-- What is documented of the calls: what is held after each.
pub record MachineLaws {W : Type 0} (sys : Machine W) (opener : PtyOpener W) (held : W → Held)
    : Type 0 where
  pub is_missing : (path : Bytes) (w : W) → held (sys.sockets.is_missing path w).1 ≡ held w
  pub dial_timeout :
      (path : Bytes) (ms : ℕ) (w : W) → held (sys.sockets.dial_timeout path ms w).1 ≡ held w
  pub close_conn : (w : W) → held (sys.sockets.close_conn w) ≡ held w
  pub remove : (path : Bytes) (w : W) → held (sys.sockets.remove path w).1 ≡ held w
  pub opened : (w : W) → PairHeld (opener w).0 (held w) (held (opener w).1)
  pub get_size : (fd : ℕ) (w : W) → held (sys.terminals.get_size fd w).1 ≡ held w
  pub set_size :
      (fd : ℕ) (size : List ℕ) (w : W) → held (sys.terminals.set_size fd size w).1 ≡ held w
  pub close_file :
      (fd : ℕ) (w : W) → held (sys.terminals.close_file fd w) ≡ without_file fd (held w)
  pub start_shell :
      (cmd : Bytes) (fd : ℕ) (w : W)
      → ShellHeld (sys.start_shell cmd fd w).0 (held w) (held (sys.start_shell cmd fd w).1)
  pub kill_shell : (w : W) → held (sys.kill_shell w) ≡ held w
  pub wait_shell : (w : W) → held (sys.wait_shell w).1 ≡ record (held w) { shell = false }
  pub make_dirs :
      (path : Bytes) (mode : ℕ) (w : W) → held (sys.listening.make_dirs path mode w).1 ≡ held w
  pub umask : (mask : ℕ) (w : W) → held (sys.listening.umask mask w).1 ≡ held w
  pub listen :
      (path : Bytes) (w : W)
      → ListenerHeld (sys.listening.listen path w).0 (held w) (held (sys.listening.listen path w).1)
  pub serve : (w : W) → held (sys.listening.serve w) ≡ held w
  pub close_server : (w : W) → held (sys.close_server w) ≡ record (held w) { listener = false }
  pub start_copies : (fd : ℕ) (w : W) → held (sys.start_copies fd w) ≡ held w
  pub wait_copies : (w : W) → held (sys.wait_copies w) ≡ held w
  pub watch_size : (fd : ℕ) (w : W) → held (sys.watch_size fd w) ≡ held w
  pub stop_watching : (w : W) → held (sys.stop_watching w) ≡ held w

abbrev pub no_listener : Held → Held
no_listener h = record h { listener = false }

abbrev pub no_running : Held → Held
no_running h = record h { shell = false }

module _ {W : Type 0} (sys : Machine W) (opener : PtyOpener W) (held : W → Held)
    (laws : MachineLaws sys opener held) where
  remove_stale-held : (path : Bytes) (w : W) → held (remove_stale sys.sockets path w).1 ≡ held w
  unfolding remove_stale
  remove_stale-held path w = laws.remove path w

  pub serve_shell-held :
      (a : Agent W) (p : PtyPair) (w : W)
      → held (serve_shell sys a p w).2
        ≡ record (without_file p.master (held w)) { shell = false; listener = false }
  unfolding serve_shell
  serve_shell-held a p w =
      laws.close_server _
      ∙ ap no_listener (
          laws.wait_copies _
          ∙ laws.close_file p.master _
          ∙ ap (without_file p.master) (
              laws.close_server _
              ∙ ap no_listener (
                  laws.stop_watching _
                  ∙ laws.wait_shell _
                  ∙ ap no_running (laws.watch_size p.master _ ∙ laws.start_copies p.master w))))

  listen_under_mask-held :
      (path : Bytes) (w : W)
      → ListenerHeld
          (listen_under_mask sys.listening path w).0
          (held w)
          (held (listen_under_mask sys.listening path w).1)
  unfolding listen_under_mask
  listen_under_mask-held path w =
      let w₁ = (sys.listening.umask 0o077 w).1 in
      by_result (sys.listening.listen path w₁).0 (held (sys.listening.listen path w₁).1)
        (laws.umask _ _) (laws.umask _ _) (laws.listen path w₁)
    where
      by_result :
          (r : Option Error) (h : Held) {h₁ h' : Held}
          → h₁ ≡ held w
          → h' ≡ h
          → ListenerHeld r h₁ h
          → ListenerHeld r (held w) h'
      by_result (some e) h a b c = b ∙ c ∙ a
      by_result none h a b c = b ∙ c ∙ ap (λ (x : Held). record x { listener = true }) a

  start_serving-held :
      (path : Bytes) (w : W)
      → ListenerHeld
          (start_serving sys.listening path w).0
          (held w)
          (held (start_serving sys.listening path w).1)
  unfolding start_serving
  start_serving-held path w =
      by_result (listen_under_mask sys.listening path w).0
        (listen_under_mask sys.listening path w).1 (listen_under_mask-held path w)
    where
      by_result :
          (r : Option Error) (w' : W)
          → ListenerHeld r (held w) (held w')
          → let x : Option Error × W = elim r [
            | some e ↦ (some (wrap (str "listen on " ++ path) e), w')
            | none ↦ (none, sys.listening.serve w')
          ] in
            ListenerHeld x.0 (held w) (held x.1)
      by_result (some e) w' h = h
      by_result none w' h = laws.serve w' ∙ h

  pub listen_and_serve-held :
      (path : Bytes) (w : W)
      → ListenerHeld
          (listen_and_serve sys.listening path w).0
          (held w)
          (held (listen_and_serve sys.listening path w).1)
  unfolding listen_and_serve
  listen_and_serve-held path w =
      by_result (sys.listening.make_dirs (dir_name path) 0o700 w).0
        (sys.listening.make_dirs (dir_name path) 0o700 w).1 (laws.make_dirs (dir_name path) 0o700 w)
    where
      by_result :
          (r : Option Error) (w' : W)
          → held w' ≡ held w
          → let x : Option Error × W = elim r [
            | some e ↦ (some (wrap (str "create socket directory") e), w')
            | none ↦ start_serving sys.listening path w'
          ] in
            ListenerHeld x.0 (held w) (held x.1)
      by_result (some e) w' h = h
      by_result none w' h =
          subst
            (λ b.
              ListenerHeld (start_serving sys.listening path w').0 b
                (held (start_serving sys.listening path w').1))
            h (start_serving-held path w')

  probe-held : (path : Bytes) (w : W) → held (probe sys.sockets path w).1 ≡ held w
  unfolding probe
  probe-held path w =
      by_result (sys.sockets.dial_timeout path stale_dial_timeout w).0
        (sys.sockets.dial_timeout path stale_dial_timeout w).1
        (laws.dial_timeout path stale_dial_timeout w)
    where
      by_result :
          (r : Option Error) (w' : W)
          → held w' ≡ held w
          → let x : Option Error × W = elim r [
            | some e ↦ remove_stale sys.sockets path w'
            | none ↦ (some socket_in_use, sys.sockets.close_conn w')
          ] in
            held x.1 ≡ held w
      by_result (some e) w' h = remove_stale-held path w' ∙ h
      by_result none w' h = laws.close_conn w' ∙ h

  pub clean_stale_socket-held :
      (path : Bytes) (w : W) → held (clean_stale_socket sys.sockets path w).1 ≡ held w
  unfolding clean_stale_socket
  clean_stale_socket-held path w =
      by_result (sys.sockets.is_missing path w).0 (sys.sockets.is_missing path w).1
        (laws.is_missing path w)
    where
      by_result :
          (missing : Bool) (w' : W)
          → held w' ≡ held w
          → let x : Option Error × W = if missing then (none, w') else probe sys.sockets path w' in
            held x.1 ≡ held w
      by_result true w' h = h
      by_result false w' h = probe-held path w' ∙ h

  pub sync_window_size-held :
      (to : ℕ) (w : W) → held (sync_window_size sys.terminals stdin (some to) w) ≡ held w
  unfolding sync_window_size
  sync_window_size-held to w =
      by_result (sys.terminals.get_size 0 w).0 (sys.terminals.get_size 0 w).1 (laws.get_size 0 w)
    where
      by_result :
          (r : Result (List ℕ)) (w' : W)
          → held w' ≡ held w
          → held
              (elim r as (λ x. W) [ err e ↦ w' | ok size ↦ (sys.terminals.set_size to size w').1 ])
            ≡ held w
      by_result (err e) w' h = h
      by_result (ok size) w' h = laws.set_size to size w' ∙ h
