-- ===== src/Agent/Process/ShellResult.antt =====
-- internal/agent/agent.go: the result of a run is that of the shell.
use shimux.Base.{
  Bytes, str, Error, message, wrap, Result, ok, err, ℕ, ◌≡◌, refl, ap, ◌∙◌, true, Option, none,
  some, arith,
}
use shimux.Agent.Socket.{clean_stale_socket}
use shimux.Agent.Pty.{PtyPair, sync_window_size}
use shimux.Agent.Server.{listen_and_serve}
use shimux.Agent.Process.{
  Machine, Agent, Outcome, stdin, serve_shell, start_server, start_shell_on, start_terminal,
  validate_config, run_valid, run, write_to_master,
}

-- Every call that `Run` makes before it waits for the shell succeeds.
pub record Succeeds {W : Type 0} (sys : Machine W) (a : Agent W) : Type 0 where
  pub valid : validate_config a.socket_path a.pane_id ≡ none
  pub cleaned : (w : W) → (clean_stale_socket sys.sockets a.socket_path w).0 ≡ none
  pub opened : (w : W) → (p : PtyPair) × ((a.pty_opener w).0 ≡ ok p)
  pub started : (fd : ℕ) (w : W) → (sys.start_shell a.shell_cmd fd w).0 ≡ none
  pub listening : (w : W) → (listen_and_serve sys.listening a.socket_path w).0 ≡ none

-- What holds of every outcome of the last stages holds of `Run`, when the first ones succeed.
module _ {W : Type 0} (sys : Machine W) (P : Outcome W → Type 0)
    (served : (a : Agent W) (p : PtyPair) (w : W) → P (serve_shell sys a p w)) where
  start_server-served :
      (a : Agent W) (p : PtyPair) (w : W)
      → (listen_and_serve sys.listening a.socket_path w).0 ≡ none
      → P (start_server sys a p w)
  unfolding start_server
  start_server-served a p w h = by_result (listen_and_serve sys.listening a.socket_path w).0 _ h
    where
      by_result :
          (x : Option Error) (w' : W)
          → x ≡ none
          → P (elim x as (λ y. Outcome W) [
            | some e ↦ (some (wrap (str "listen") e), a, (sys.wait_shell (sys.kill_shell w')).1)
            | none ↦ serve_shell sys a p w'
          ])
      by_result (some e) w' k = ground arith
      by_result none w' k = served a p w'

  start_shell_on-served :
      (a : Agent W) (p : PtyPair) (w : W)
      → (sys.start_shell a.shell_cmd p.slave w).0 ≡ none
      → ((w' : W) → (listen_and_serve sys.listening a.socket_path w').0 ≡ none)
      → P (start_shell_on sys a p w)
  unfolding start_shell_on
  start_shell_on-served a p w h l = by_result (sys.start_shell a.shell_cmd p.slave w).0 _ h
    where
      by_result :
          (x : Option Error) (w' : W)
          → x ≡ none
          → P (elim x as (λ y. Outcome W) [
            | some e ↦ (some (wrap (str "shell start") e), a, w')
            | none ↦ start_server sys a p (sys.terminals.close_file p.slave w')
          ])
      by_result (some e) w' k = ground arith
      by_result none w' k = start_server-served a p _ (l _)

  start_terminal-served : (a : Agent W) (w : W) → Succeeds sys a → P (start_terminal sys a w)
  unfolding start_terminal
  start_terminal-served a w s = let (p, h) = s.opened w in by_pair p (a.pty_opener w).0 _ h
    where
      by_pair :
          (p : PtyPair) (x : Result PtyPair) (w' : W)
          → x ≡ ok p
          → P (elim x as (λ y. Outcome W) [
            | err e ↦ (some (wrap (str "pty open") e), a, w')
            | ok q ↦
                start_shell_on sys
                  (record a { master = some q.master })
                  q
                  (sync_window_size sys.terminals stdin (some q.master) w')
          ])
      by_pair p (err e) w' k = ground arith
      by_pair p (ok q) w' k =
          start_shell_on-served (record a { master = some q.master }) q _ (s.started q.slave _)
            s.listening

  run_valid-served : (a : Agent W) (w : W) → Succeeds sys a → P (run_valid sys a w)
  unfolding run_valid
  run_valid-served a w s =
      by_result (clean_stale_socket sys.sockets a.socket_path w).0 _ (s.cleaned w)
    where
      by_result :
          (x : Option Error) (w' : W)
          → x ≡ none
          → P (elim x as (λ y. Outcome W) [
            | some e ↦ (some e, a, w')
            | none ↦ start_terminal sys a w'
          ])
      by_result (some e) w' k = ground arith
      by_result none w' k = start_terminal-served a w' s

  run-served : (a : Agent W) (w : W) → Succeeds sys a → P (run sys a w)
  unfolding run
  run-served a w s = rw (s.valid, run) (run_valid-served a w s)

module _ {W : Type 0} (sys : Machine W) where
  serve_shell-result :
      (r : Option Error)
      → ((w : W) → (sys.wait_shell w).0 ≡ r)
      → (a : Agent W) (p : PtyPair) (w : W) → (serve_shell sys a p w).0 ≡ r
  unfolding serve_shell
  serve_shell-result r waited a p w = waited _

  -- The result of a run whose first stages succeed is that of the shell.
  pub run-result :
      (r : Option Error)
      → ((w : W) → (sys.wait_shell w).0 ≡ r)
      → (a : Agent W) (w : W) → Succeeds sys a
      → (run sys a w).0 ≡ r
  run-result r waited = run-served sys (λ x. x.0 ≡ r) (serve_shell-result r waited)

  abbrev IsOver : Outcome W → Type 0
  IsOver x = (x.1.done ≡ true) × (x.1.master ≡ none)

  serve_shell-IsOver : (a : Agent W) (p : PtyPair) (w : W) → IsOver (serve_shell sys a p w)
  unfolding serve_shell
  serve_shell-IsOver a p w = (refl, refl)

  write_to_master-none :
      (text : Bytes) (w : W)
      → write_to_master sys none text w ≡ (some (message (str "master is closed")), w)
  unfolding write_to_master
  write_to_master-none text w = refl

  -- After such a run the agent is done, and a request that still comes is refused and writes nothing.
  pub run-refuses :
      (a : Agent W) (w : W)
      → Succeeds sys a
      → ((run sys a w).1.done ≡ true)
        × ((text : Bytes) (w' : W)
            → write_to_master sys (run sys a w).1.master text w'
              ≡ (some (message (str "master is closed")), w'))
  run-refuses a w s =
      let (done, closed) = run-served sys IsOver serve_shell-IsOver a w s in
      (
        done,
        λ text w'. ap (λ m. write_to_master sys m text w') closed ∙ write_to_master-none text w',
      )
