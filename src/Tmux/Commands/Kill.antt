-- ===== src/Tmux/Commands/Kill.antt =====
-- internal/tmux/commands.go: kill-pane on a target that names a pane.
use shimux.Base.{
  Bytes, str, equal-false, Error, wrap, pane_not_found, Result, ok, err, ◌≡◌, refl, sym, ap, subst,
  ◌∙◌, ◌≢◌, Option, none, some, [],
}
use shimux.Pane.{Manager, unregister}
use shimux.Pane.Panes.{Panes, find, removed}
use shimux.Pane.Refines.{Represents, Outcome, unregister-Represents}
use shimux.Tmux.Parser.Commands.{KillPaneOptions}
use shimux.Tmux.Commands.{
  Context, State, Reply, exit_ok, exit_fail, extract_pane_id, forget_pane, handle_kill_pane,
}

-- What kill-pane does after the surface is closed, for the pane `id` of the panes `s`.
pub record Forgets {W : Type 0} (id : Bytes) (s : Panes) (st : State W) (w : W) (r : Reply W)
    : Type 0 where
  pub world_is : r.state.world ≡ w
  pub known :
      find id s.items ≢ none
      → (r.code ≡ 0) × (r.error ≡ none) × Represents r.state.manager (removed id s)
  pub unknown :
      find id s.items ≡ none
      → (r.code ≡ 1)
        × (r.error ≡ some (wrap (str "kill-pane: unregister") (pane_not_found id)))
        × (r.state.manager ≡ st.manager)

module _ {W : Type 0} (ctx : Context W) where
  forget_pane-Forgets :
      (id : Bytes) (s : Panes) (st : State W) (w : W)
      → id ≢ []
      → Represents st.manager s
      → Forgets id s st w (forget_pane ctx id (record st { world = w }))
  unfolding forget_pane
  forget_pane-Forgets id s st w some_id rep =
      rw (equal-false id [] some_id)
        (by_result (unregister id st.manager) (unregister-Represents id rep))
    where
      by_result :
          (x : Result Manager)
          → Outcome x id s (removed id s)
          → Forgets id s st w (elim x [
            | err e ↦ exit_fail (wrap (str "kill-pane: unregister") e) (record st { world = w })
            | ok m ↦ exit_ok (record st { manager = m; world = w })
          ])
      by_result (err e) (same, absent) = record {
        world_is = refl;
        known = λ present. absurd (present absent);
        unknown = λ a. (refl, ap (λ x. some (wrap (str "kill-pane: unregister") x)) same, refl);
      }
      by_result (ok m) (present, after) = record {
        world_is = refl;
        known = λ p. (refl, refl, after);
        unknown = λ absent. absurd (present absent);
      }

  closed : KillPaneOptions → State W → Option Error × W → Reply W
  closed opts st x = elim x.0 [
    | some e ↦ exit_fail (wrap (str "kill-pane") e) (record st { world = x.1 })
    | none ↦ forget_pane ctx (extract_pane_id opts.target) (record st { world = x.1 })
  ]

  kill_pane-closed :
      (opts : KillPaneOptions) (st : State W)
      → handle_kill_pane ctx opts st ≡ closed opts st (ctx.controller.close_surface st.world)
  unfolding handle_kill_pane closed
  kill_pane-closed opts st = refl

  -- With a target that names a pane, kill-pane first closes the focused surface, whatever the target
  -- is. If that fails it exits with 1 and the panes are as they were. If it succeeds, a pane that is
  -- registered is unregistered with exit code 0; for a pane that is not registered the panes stay, it
  -- exits with 1, and the surface is closed all the same.
  pub kill_pane-outcome :
      (opts : KillPaneOptions) (id : Bytes) (s : Panes) (st : State W)
      → extract_pane_id opts.target ≡ id
      → id ≢ []
      → Represents st.manager s
      → ((e : Error) (w : W)
          → ctx.controller.close_surface st.world ≡ (some e, w)
          → handle_kill_pane ctx opts st
            ≡ exit_fail (wrap (str "kill-pane") e) (record st { world = w }))
        × ((w : W)
            → ctx.controller.close_surface st.world ≡ (none, w)
            → Forgets id s st w (handle_kill_pane ctx opts st))
  unfolding closed
  kill_pane-outcome opts id s st t some_id rep = (
    λ e w c. kill_pane-closed opts st ∙ ap (closed opts st) c,
    λ w c.
        subst (Forgets id s st w)
          (sym (
            kill_pane-closed opts st
            ∙ ap (closed opts st) c
            ∙ ap (λ i. forget_pane ctx i (record st { world = w })) t))
          (forget_pane-Forgets id s st w some_id rep),
  )
