-- ===== src/Tmux/Commands/Calls.antt =====
-- internal/tmux/commands.go: what each command does outside of the process.
use shimux.Base.{
  Bool-cases, Bytes, str, is, equal_iff, Error, wrap, Result, ok, err, ◌≡◌, refl, sym, subst, ◌≢◌,
  inl, inr, false, ◌&&◌, Option, none, some, List, [], ◌∷◌,
}
use shimux.Ghostty.{SplitDirection}
use shimux.Agent.Client.{send_keys, safe_socket_path}
use shimux.Tmux.Parser.Keys.{SendKeysOptions}
use shimux.Tmux.Commands.Cases.{execute-Handled}
use shimux.Tmux.Commands.{
  Context, State, Reply, exit_fail, exit_ok, execute, ParseResult, handle_split_window,
  handle_send_keys, handle_kill_pane, SplitWindowOptions, KillPaneOptions, split_done, forget_pane,
  split_direction, extract_pane_id, send_text, build_send_keys_data, Manager, print_panes,
  handle_list_panes, handle_show_options, handle_display_message, handle_has_session,
  handle_unsupported, target_pane, unregister, Pane, ListPanesOptions, ShowOptionsOptions,
  DisplayMessageOptions, HasSessionOptions,
}

-- How the world after the command `cmd` comes from the world `w` before it.
pub data Calls {W : Type 0} (ctx : Context W) (cmd : Bytes) (w : W) : W → Type 0 where
  untouched : Calls ctx cmd w w
  split :
      (d : SplitDirection)
      → cmd ≡ str "split-window"
      → Calls ctx cmd w (ctx.controller.new_split d w).1
  typed :
      (pane_id text : Bytes)
      → cmd ≡ str "send-keys"
      → pane_id ≢ []
      → text ≢ []
      → Calls ctx cmd w (send_keys ctx.net (safe_socket_path ctx.host ctx.session pane_id) text w).1
  closed : cmd ≡ str "kill-pane" → Calls ctx cmd w (ctx.controller.close_surface w).1

nonempty : (s : Bytes) → is s "" ≡ false → s ≢ []
nonempty s e h = let t = (equal_iff s []).1 h in cc

module _ {W : Type 0} (ctx : Context W) (st : State W) where
  abbrev IsCalled : Bytes → Reply W → Type 0
  IsCalled cmd r = Calls ctx cmd st.world r.state.world

  -- A world that is known.
  at_world :
      (cmd : Bytes) {w w' : W} → Calls ctx cmd st.world w → w' ≡ w → Calls ctx cmd st.world w'
  at_world cmd c e = subst (Calls ctx cmd st.world) (sym e) c

  split_done-world :
      (opts : SplitWindowOptions) (w : W)
      → (split_done ctx opts (record st { world = w })).state.world ≡ w
  unfolding split_done
  split_done-world opts w = elim (Bool-cases opts.print_after) [
    | inl e ↦ rw e refl
    | inr e ↦ rw e refl
  ]

  split_window-IsCalled :
      (opts : SplitWindowOptions) → IsCalled (str "split-window") (handle_split_window ctx opts st)
  unfolding handle_split_window
  split_window-IsCalled opts =
      at_world (str "split-window") (split (split_direction opts.direction) refl)
        (by_split (ctx.controller.new_split (split_direction opts.direction) st.world).0 _)
    where
      by_split :
          (r : Option Error) (w : W)
          → (elim r as (λ x. Reply W) [
            | some e ↦ exit_fail (wrap (str "split-window") e) (record st { world = w })
            | none ↦ split_done ctx opts (record st { world = w })
          ]).state.world
            ≡ w
      by_split (some e) w = refl
      by_split none w = split_done-world opts w

  send_text-IsCalled :
      (text pane_id : Bytes)
      → is text "" ≡ false
      → is pane_id "" ≡ false
      → IsCalled (str "send-keys") (send_text ctx text pane_id st)
  unfolding send_text
  send_text-IsCalled text pane_id some_text some_pane =
      at_world (str "send-keys")
        (typed pane_id text refl (nonempty pane_id some_pane) (nonempty text some_text))
        (by_result
          (send_keys ctx.net (safe_socket_path ctx.host ctx.session pane_id) text st.world).0 _)
    where
      by_result :
          (r : Option Error) (w : W)
          → (elim r as (λ x. Reply W) [
            | some e ↦ exit_fail (wrap (str "send-keys") e) (record st { world = w })
            | none ↦ exit_ok (record st { world = w })
          ]).state.world
            ≡ w
      by_result (some e) w = refl
      by_result none w = refl

  send_keys-IsCalled :
      (opts : SendKeysOptions) → IsCalled (str "send-keys") (handle_send_keys ctx opts st)
  unfolding handle_send_keys
  send_keys-IsCalled opts =
      elim (Bool-cases (is (build_send_keys_data opts.keys opts.literal) "")) [
        | inl e ↦ rw e untouched
        | inr e ↦ elim (Bool-cases (is (target_pane ctx opts.target st.manager) "")) [
          | inl e' ↦ rw (e, e') untouched
          | inr e' ↦ rw (e, e') (send_text-IsCalled _ _ e e')
        ]
      ]

  forget_pane-world :
      (id : Bytes) (w : W) → (forget_pane ctx id (record st { world = w })).state.world ≡ w
  unfolding forget_pane
  forget_pane-world id w = elim (Bool-cases (is id "")) [
    | inl e ↦ rw e refl
    | inr e ↦ rw e (by_result (unregister id st.manager))
  ]
    where
      by_result :
          (r : Result Manager)
          → (elim r as (λ x. Reply W) [
            | err e ↦ exit_fail (wrap (str "kill-pane: unregister") e) (record st { world = w })
            | ok m ↦ exit_ok (record st { manager = m; world = w })
          ]).state.world
            ≡ w
      by_result (err e) = refl
      by_result (ok m) = refl

  kill_pane-IsCalled :
      (opts : KillPaneOptions) → IsCalled (str "kill-pane") (handle_kill_pane ctx opts st)
  unfolding handle_kill_pane
  kill_pane-IsCalled opts =
      at_world (str "kill-pane") (closed refl)
        (by_close (ctx.controller.close_surface st.world).0 _)
    where
      by_close :
          (r : Option Error) (w : W)
          → (elim r as (λ x. Reply W) [
            | some e ↦ exit_fail (wrap (str "kill-pane") e) (record st { world = w })
            | none ↦ forget_pane ctx (extract_pane_id opts.target) (record st { world = w })
          ]).state.world
            ≡ w
      by_close (some e) w = refl
      by_close none w = forget_pane-world (extract_pane_id opts.target) w

  print_panes-world :
      (format : Bytes) (ps : List Pane) (s : State W)
      → (print_panes ctx format ps s).world ≡ s.world
  unfolding print_panes
  print_panes-world format [] s = refl
  print_panes-world format (p ∷ ps) s = print_panes-world format ps _

  list_panes-IsCalled :
      (opts : ListPanesOptions) → IsCalled (str "list-panes") (handle_list_panes ctx opts st)
  unfolding handle_list_panes
  list_panes-IsCalled opts = at_world (str "list-panes") untouched (print_panes-world _ _ st)

  show_options-IsCalled :
      (opts : ShowOptionsOptions) → IsCalled (str "show-options") (handle_show_options ctx opts st)
  unfolding handle_show_options
  show_options-IsCalled opts = elim (Bool-cases (opts.global && is opts.option "prefix")) [
    | inl e ↦ rw e untouched
    | inr e ↦ rw e untouched
  ]

  display_message-IsCalled :
      (opts : DisplayMessageOptions)
      → IsCalled (str "display-message") (handle_display_message ctx opts st)
  unfolding handle_display_message
  display_message-IsCalled opts = elim (Bool-cases opts.print) [
    | inl e ↦ rw e untouched
    | inr e ↦ rw e untouched
  ]

  has_session-IsCalled :
      (opts : HasSessionOptions) → IsCalled (str "has-session") (handle_has_session ctx opts st)
  unfolding handle_has_session
  has_session-IsCalled opts = untouched

  unsupported-IsCalled : (cmd : Bytes) → IsCalled cmd (handle_unsupported ctx cmd st)
  unfolding handle_unsupported
  unsupported-IsCalled cmd = untouched

  -- A command does at most one thing outside of the process, whatever its arguments: split-window asks
  -- the terminal for one split, kill-pane for one closing of the focused surface, send-keys makes one
  -- call of `SendKeys`, to the socket of a pane with an ID and with a text that is not empty. No other
  -- command touches the world, and none opens a window or a tab or moves the focus.
  pub execute-Calls :
      (r : ParseResult) → Calls ctx r.command st.world (execute ctx r st).state.world
  execute-Calls r =
      execute-Handled {P = IsCalled}
        (record {
          refused = λ cmd e. untouched;
          idle = λ cmd. untouched;
          has_session = has_session-IsCalled;
          show_options = show_options-IsCalled;
          split_window = split_window-IsCalled;
          send_keys = send_keys-IsCalled;
          kill_pane = kill_pane-IsCalled;
          list_panes = list_panes-IsCalled;
          display_message = display_message-IsCalled;
          unsupported = unsupported-IsCalled;
        })
        r
