-- ===== src/AgentCli/Exits.antt =====
-- cmd/shimux-agent/main.go: the exit codes.
use shimux.Base.{
  Bytes, str, Error, message, wrap, pane_not_found, socket_in_use, exit_error, ◌≡◌, refl, ap, ◌∙◌,
  ◌≢◌, Option, none, some, [], ◌∷◌,
}
use shimux.Base.Int.{ℤ, pos}
use shimux.Agent.Process.{Agent, run}
use shimux.Agent.Process.ShellResult.{Succeeds, run-result}
use shimux.AgentCli.{AgentProcess, exit_of, agent_of, run_agent, run_in, run_with_io}

-- The exit code for the result of a shell.
abbrev pub shell_code : Option Error → ℤ
shell_code none = pos 0
shell_code (some (exit_error code text)) = code
shell_code (some e) = pos 1

module _ {W : Type 0} (proc : AgentProcess W) where
  abbrev pub pane_id : Bytes
  pane_id = proc.getenv (str "SHIMUX_PANE_ID")

  abbrev pub session : Bytes
  session = proc.getenv (str "SHIMUX_SESSION")

  exit_of-code : (r : Option Error) (w : W) → (exit_of proc r w).code ≡ shell_code r
  unfolding exit_of
  exit_of-code none w = refl
  exit_of-code (some (exit_error code text)) w = refl
  exit_of-code (some (message m)) w = refl
  exit_of-code (some (wrap m e)) w = refl
  exit_of-code (some (pane_not_found id)) w = refl
  exit_of-code (some socket_in_use) w = refl

  run_agent-code :
      (a : Agent W) (w : W) → (run_agent proc a w).code ≡ shell_code (run proc.machine a w).0
  unfolding run_agent
  run_agent-code a w = exit_of-code (run proc.machine a w).0 (run proc.machine a w).2

  -- What is shown of the exit, for the pane `p` and the session `s`.
  abbrev Exits : Bytes → Bytes → W → Type 0
  Exits p s w =
      (p ≡ [] → ((run_in proc p s w).code ≡ pos 1) × ((run_in proc p s w).world ≡ w))
      × (s ≡ [] → ((run_in proc p s w).code ≡ pos 1) × ((run_in proc p s w).world ≡ w))
      × ((r : Option Error)
          → p ≢ []
          → s ≢ []
          → Succeeds proc.machine (agent_of proc s p)
          → ((w' : W) → (proc.machine.wait_shell w').0 ≡ r)
          → (run_in proc p s w).code ≡ shell_code r)

  run_in-Exits : (p s : Bytes) (w : W) → Exits p s w
  unfolding run_in
  run_in-Exits [] s w = ((λ e. (refl, refl)), (λ e. (refl, refl)), (λ r n. absurd (n refl)))
  run_in-Exits (c ∷ p) [] w =
      ((λ e. (refl, refl)), (λ e. (refl, refl)), (λ r n n'. absurd (n' refl)))
  run_in-Exits (c ∷ p) (d ∷ s) w = (
    (λ e. cc),
    (λ e. cc),
    λ r n n' good waited.
        run_agent-code (agent_of proc (d ∷ s) (c ∷ p)) w
        ∙ ap shell_code (run-result proc.machine r waited (agent_of proc (d ∷ s) (c ∷ p)) w good),
  )

  -- Without a pane or a session in the environment the program exits with 1 and does nothing else.
  -- With both, and if the socket, the terminals, the shell and the server are had, it exits with the
  -- shell's exit code: 0 if the shell ended without an error, the code of an exit error, and 1 for any
  -- other error.
  pub run_with_io-code :
      (w : W)
      → (pane_id ≡ [] → ((run_with_io proc w).code ≡ pos 1) × ((run_with_io proc w).world ≡ w))
        × (session ≡ [] → ((run_with_io proc w).code ≡ pos 1) × ((run_with_io proc w).world ≡ w))
        × ((r : Option Error)
            → pane_id ≢ []
            → session ≢ []
            → Succeeds proc.machine (agent_of proc session pane_id)
            → ((w' : W) → (proc.machine.wait_shell w').0 ≡ r)
            → (run_with_io proc w).code ≡ shell_code r)
  unfolding run_with_io
  run_with_io-code w = run_in-Exits pane_id session w
