-- ===== src/Agent/Process/Leaves.antt =====
-- internal/agent/agent.go: what a run of an agent leaves open.
use shimux.Base.{
  ◌==◌, ==_iff, Bool-cases, str, Error, wrap, Result, ok, err, ℕ, ◌≡◌, refl, sym, ap, ◌∙◌, inl, inr,
  Bool, true, false, not, ◌&&◌, ◌||◌, Option, none, some, ◌⊎◌,
}
use mathlib.Core.Path.{fun_ext, ap₂}
use shimux.Agent.Socket.{clean_stale_socket}
use shimux.Agent.Pty.{PtyPair, sync_window_size}
use shimux.Agent.Server.{listen_and_serve}
use shimux.Agent.Process.{
  Machine, Agent, Outcome, stdin, serve_shell, start_server, start_shell_on, start_terminal,
  validate_config, run_valid, run,
}
use shimux.Agent.Process.Held.{
  Held, with_file, without_file, no_running, PairHeld, ShellHeld, ListenerHeld, MachineLaws,
  serve_shell-held, listen_and_serve-held, clean_stale_socket-held, sync_window_size-held,
}

-- A run that ends before there is a shell: on a setting, on a socket that is in use or cannot be
-- removed, or with no pair of terminals.
abbrev pub EndsEarly : {W : Type 0} → Machine W → Agent W → Error → Type 0
EndsEarly {W} sys a e =
    (validate_config a.socket_path a.pane_id ≡ some e)
    ⊎ ((w : W) × ((clean_stale_socket sys.sockets a.socket_path w).0 ≡ some e))
    ⊎ ((w : W) × (e₁ : Error) × ((a.pty_opener w).0 ≡ err e₁) × (e ≡ wrap (str "pty open") e₁))

-- How a run of the agent `a` ends, with the call that ended it, and what it leaves of `before`.
pub data Leaves {W : Type 0} (sys : Machine W) (a : Agent W) (before after : Held)
    : Option Error → Type 0 where
  early : {e : Error} → EndsEarly sys a e → after ≡ before → Leaves sys a before after (some e)
  -- the shell does not start: both ends of the pair stay open
  no_shell :
      {e : Error} (p : PtyPair) (w : W)
      → (sys.start_shell a.shell_cmd p.slave w).0 ≡ some e
      → after ≡ with_file p.slave (with_file p.master before)
      → Leaves sys a before after (some (wrap (str "shell start") e))
  -- there is no server: the shell is killed, and the master stays open
  no_server :
      {e : Error} (p : PtyPair) (w : W)
      → (listen_and_serve sys.listening a.socket_path w).0 ≡ some e
      → after ≡ with_file p.master before
      → Leaves sys a before after (some (wrap (str "listen") e))
  -- the shell ended, with its result
  ended :
      {r : Option Error} (w : W)
      → (sys.wait_shell w).0 ≡ r
      → after ≡ before
      → Leaves sys a before after r

-- A file that was closed again.
closed_again : (fd : ℕ) (h : Held) → h.files fd ≡ false → without_file fd (with_file fd h) ≡ h
closed_again fd h fresh = ap (λ (f : ℕ → Bool). record h { files = f }) (fun_ext each)
  where
    each : (x : ℕ) → (not (x == fd) && (x == fd || h.files x)) ≡ h.files x
    each x = elim (Bool-cases (x == fd)) [
      | inl same ↦ rw same (sym fresh ∙ ap h.files (sym ((==_iff x fd).0 same)))
      | inr other ↦ rw other refl
    ]

-- A shell that was started and waited for, a listener that was opened and closed.
at_rest :
    (h : Held)
    → h.shell ≡ false
    → h.listener ≡ false
    → record h { shell = false; listener = false } ≡ h
at_rest h s l = ap₂ (λ (a : Bool) (b : Bool). record h { shell = a; listener = b }) (sym s) (sym l)

module _ {W : Type 0} (sys : Machine W) (a : Agent W) (held : W → Held)
    (laws : MachineLaws sys a.pty_opener held) (before : Held) (no_shell_yet : before.shell ≡ false)
    (no_listener_yet : before.listener ≡ false) where
  abbrev Left : Outcome W → Type 0
  Left x = Leaves sys a before (held x.2) x.0

  -- The agent of a run that has its terminals.
  abbrev with_master : Option ℕ → Agent W
  with_master m = record a { master = m }

  module _ (p : PtyPair) (fresh_master : before.files p.master ≡ false)
      (fresh_slave : before.files p.slave ≡ false) (apart : (p.slave == p.master) ≡ false)
      (m : Option ℕ) where
    serve_shell-Leaves :
        (w : W)
        → held w ≡ record (with_file p.master before) { shell = true; listener = true }
        → Left (serve_shell sys (with_master m) p w)
    unfolding serve_shell
    serve_shell-Leaves w h = ended (sys.watch_size p.master (sys.start_copies p.master w)) refl (
        serve_shell-held sys a.pty_opener held laws (with_master m) p w
        ∙ ap (λ x. record (without_file p.master x) { shell = false; listener = false }) h
        ∙ ap (λ (x : Held). record x { shell = false; listener = false })
            (closed_again p.master before fresh_master)
        ∙ at_rest before no_shell_yet no_listener_yet)

    -- With the master open and the shell running.
    start_server-Leaves :
        (w : W)
        → held w ≡ record (with_file p.master before) { shell = true }
        → Left (start_server sys (with_master m) p w)
    unfolding start_server
    start_server-Leaves w h =
        by_result (listen_and_serve sys.listening a.socket_path w).0
          (listen_and_serve sys.listening a.socket_path w).1
          (listen_and_serve-held sys a.pty_opener held laws a.socket_path w) refl
      where
        by_result :
            (r : Option Error) (w' : W)
            → ListenerHeld r (held w) (held w')
            → (listen_and_serve sys.listening a.socket_path w).0 ≡ r
            → Left (elim r as (λ x. Outcome W) [
              | some e ↦ (
                some (wrap (str "listen") e),
                with_master m,
                (sys.wait_shell (sys.kill_shell w')).1,
              )
              | none ↦ serve_shell sys (with_master m) p w'
            ])
        by_result (some e) w' k c = no_server p w c (
            laws.wait_shell _
            ∙ ap no_running (laws.kill_shell w' ∙ k ∙ h)
            ∙ ap (λ (b : Bool). record (with_file p.master before) { shell = b })
                (sym no_shell_yet))
        by_result none w' k c =
            serve_shell-Leaves w' (k ∙ ap (λ (x : Held). record x { listener = true }) h)

    with_slave_closed :
        without_file p.slave
          (record (with_file p.slave (with_file p.master before)) { shell = true })
        ≡ record (with_file p.master before) { shell = true }
    with_slave_closed =
        ap (λ (x : Held). record x { shell = true })
          (closed_again p.slave (with_file p.master before) (rw (apart, fresh_slave) refl))

    -- With both ends open.
    start_shell_on-Leaves :
        (w : W)
        → held w ≡ with_file p.slave (with_file p.master before)
        → Left (start_shell_on sys (with_master m) p w)
    unfolding start_shell_on
    start_shell_on-Leaves w h =
        by_result (sys.start_shell a.shell_cmd p.slave w).0
          (sys.start_shell a.shell_cmd p.slave w).1 (laws.start_shell a.shell_cmd p.slave w) refl
      where
        by_result :
            (r : Option Error) (w' : W)
            → ShellHeld r (held w) (held w')
            → (sys.start_shell a.shell_cmd p.slave w).0 ≡ r
            → Left (elim r as (λ x. Outcome W) [
              | some e ↦ (some (wrap (str "shell start") e), with_master m, w')
              | none ↦ start_server sys (with_master m) p (sys.terminals.close_file p.slave w')
            ])
        by_result (some e) w' k c = no_shell p w c (k ∙ h)
        by_result none w' k c = start_server-Leaves (sys.terminals.close_file p.slave w') (
            laws.close_file p.slave w'
            ∙ ap (without_file p.slave) (k ∙ ap (λ (x : Held). record x { shell = true }) h)
            ∙ with_slave_closed)

  start_terminal-Leaves : (w : W) → held w ≡ before → Left (start_terminal sys a w)
  unfolding start_terminal
  start_terminal-Leaves w h = by_pair (a.pty_opener w).0 (a.pty_opener w).1 (laws.opened w) refl
    where
      by_pair :
          (r : Result PtyPair) (w' : W)
          → PairHeld r (held w) (held w')
          → (a.pty_opener w).0 ≡ r
          → Left (elim r as (λ x. Outcome W) [
            | err e ↦ (some (wrap (str "pty open") e), a, w')
            | ok p ↦
                start_shell_on sys
                  (with_master (some p.master))
                  p
                  (sync_window_size sys.terminals stdin (some p.master) w')
          ])
      by_pair (err e) w' k c = early (inr (inr (w, e, c, refl))) (k ∙ h)
      by_pair (ok p) w' (m, s, d, k) c =
          start_shell_on-Leaves p (ap (λ (x : Held). x.files p.master) (sym h) ∙ m)
            (ap (λ (x : Held). x.files p.slave) (sym h) ∙ s) d (some p.master)
            (sync_window_size sys.terminals stdin (some p.master) w')
            (sync_window_size-held sys a.pty_opener held laws p.master w'
              ∙ k
              ∙ ap (λ x. with_file p.slave (with_file p.master x)) h)

  run_valid-Leaves : (w : W) → held w ≡ before → Left (run_valid sys a w)
  unfolding run_valid
  run_valid-Leaves w h =
      by_result (clean_stale_socket sys.sockets a.socket_path w).0
        (clean_stale_socket sys.sockets a.socket_path w).1
        (clean_stale_socket-held sys a.pty_opener held laws a.socket_path w) refl
    where
      by_result :
          (r : Option Error) (w' : W)
          → held w' ≡ held w
          → (clean_stale_socket sys.sockets a.socket_path w).0 ≡ r
          → Left (elim r as (λ x. Outcome W) [
            | some e ↦ (some e, a, w')
            | none ↦ start_terminal sys a w'
          ])
      by_result (some e) w' k c = early (inr (inl (w, c))) (k ∙ h)
      by_result none w' k c = start_terminal-Leaves w' (k ∙ h)

-- How `Run` ends, by which call, and what it leaves, for an agent that starts with no shell and no
-- listener. If a setting is missing, the socket is in use or cannot be removed, or no pair of terminals
-- is had, it holds what it held before. Once it waited for the shell it returns the shell's result and
-- holds what it held before: both ends of the pair, the shell and the listener are gone. But if the
-- shell does not start both ends of the pair stay open, and if there is no server the shell is gone and
-- the master stays open.
pub run-Leaves :
    {W : Type 0} (sys : Machine W) (held : W → Held) (a : Agent W) (w : W)
    → MachineLaws sys a.pty_opener held
    → (held w).shell ≡ false
    → (held w).listener ≡ false
    → Leaves sys a (held w) (held (run sys a w).2) (run sys a w).0
unfolding run
run-Leaves {W} sys held a w laws s l = by_config (validate_config a.socket_path a.pane_id) refl
  where
    by_config :
        (v : Option Error)
        → validate_config a.socket_path a.pane_id ≡ v
        → let x : Outcome W = elim v [ some e ↦ (some e, a, w) | none ↦ run_valid sys a w ] in
          Leaves sys a (held w) (held x.2) x.0
    by_config (some e) c = early (inl c) refl
    by_config none c = run_valid-Leaves sys a held laws (held w) s l w refl
