-- ===== src/Tmux/Commands/Effects.antt =====
-- internal/tmux/commands.go: what each command can change.
use shimux.Base.{
  if◌then◌else◌, Bool-cases, Bytes, str, is, Error, wrap, Result, ok, err, ◌≡◌, refl, sym, ap,
  subst, ◌∙◌, ◌⊎◌, inl, inr, Bool, true, false, ◌&&◌, Option, none, some, List, [], ◌∷◌, ◌++◌,
  append-nil, append_assoc, arith,
}
use shimux.Pane.{Manager, register, unregister, Pane}
use shimux.Pane.{Pane}
use shimux.Tmux.Format.{expand_format}
use shimux.Tmux.Parser.Commands.{
  HasSessionOptions, ShowOptionsOptions, SplitWindowOptions, KillPaneOptions, ListPanesOptions,
  DisplayMessageOptions,
}
use shimux.Tmux.Parser.Keys.{SendKeysOptions}
use shimux.Pane.{list}
use shimux.Agent.Client.{send_keys, safe_socket_path}
use shimux.Tmux.Commands.Cases.{execute-Handled}
use shimux.Tmux.Commands.{
  extract_pane_id, or_pane_id, build_format_context, split_direction, Context, State, Reply,
  exit_fail, print_line, handle_has_session, handle_show_options, split_done, handle_split_window,
  print_panes, send_text, handle_send_keys, forget_pane, handle_kill_pane, handle_list_panes,
  handle_display_message, handle_unsupported, exit_ok, execute, target_pane, build_send_keys_data,
  ParseResult,
}

-- A reply to the command `cmd` in the state `st` is in order: only split-window registers a pane and
-- only kill-pane removes one, by what `Register` and `Unregister` do; what was printed before stays
-- in front, on both streams; the exit code is 0 or 1 and an error goes with 1.
pub record IsProper {W : Type 0} (cmd : Bytes) (st : State W) (r : Reply W) : Type 0 where
  pub manager_is :
      (r.state.manager ≡ st.manager)
      ⊎ ((cmd ≡ str "split-window") × (r.state.manager ≡ (register [] st.manager).1))
      ⊎ ((cmd ≡ str "kill-pane") × ((id : Bytes) × (unregister id st.manager ≡ ok r.state.manager)))
  pub printed : (out : Bytes) × (r.state.stdout ≡ st.stdout ++ out)
  pub complained : (out : Bytes) × (r.state.stderr ≡ st.stderr ++ out)
  pub code_is : (r.code ≡ 0) × (r.error ≡ none) ⊎ (r.code ≡ 1)

module _ {W : Type 0} (cmd : Bytes) (st : State W) where
  -- Nothing but the world, the exit code and the error may differ.
  quiet :
      (r : Reply W)
      → r.state.manager ≡ st.manager
      → r.state.stdout ≡ st.stdout
      → r.state.stderr ≡ st.stderr
      → (r.code ≡ 0) × (r.error ≡ none) ⊎ (r.code ≡ 1)
      → IsProper cmd st r
  quiet r m o e c = record {
    manager_is = inl m;
    printed = ([], o ∙ sym (append-nil st.stdout));
    complained = ([], e ∙ sym (append-nil st.stderr));
    code_is = c;
  }

  -- Lines were printed.
  printing :
      (r : Reply W) (out : Bytes)
      → r.state.manager ≡ st.manager
      → r.state.stdout ≡ st.stdout ++ out
      → r.state.stderr ≡ st.stderr
      → (r.code ≡ 0) × (r.error ≡ none)
      → IsProper cmd st r
  printing r out m o e c = record {
    manager_is = inl m;
    printed = (out, o);
    complained = ([], e ∙ sym (append-nil st.stderr));
    code_is = inl c;
  }

module _ {W : Type 0} (ctx : Context W) where
  print_panes-prints :
      (format : Bytes) (ps : List Pane) (st : State W)
      → (out : Bytes) × (print_panes ctx format ps st ≡ record st { stdout = st.stdout ++ out })
  unfolding print_panes
  print_panes-prints format [] st =
      ([], ap (λ (o : Bytes). record st { stdout = o }) (sym (append-nil st.stdout)))
  print_panes-prints format (p ∷ ps) st =
      let line = expand_format format (build_format_context ctx.session st.manager p) in
      let (out, e) = print_panes-prints format ps (print_line line st) in
      (
        (line ++ b'\n' ∷ []) ++ out,
        e
            ∙ ap (λ (o : Bytes). record st { stdout = o })
                (append_assoc st.stdout (line ++ b'\n' ∷ []) out),
      )

  module _ (st : State W) where
    has_session-IsProper :
        (cmd : Bytes) (opts : HasSessionOptions) → IsProper cmd st (handle_has_session ctx opts st)
    unfolding handle_has_session
    has_session-IsProper cmd opts = quiet cmd st _ refl refl refl (ground arith)

    show_options-IsProper :
        (cmd : Bytes) (opts : ShowOptionsOptions)
        → IsProper cmd st (handle_show_options ctx opts st)
    unfolding handle_show_options
    show_options-IsProper cmd opts = elim (Bool-cases (opts.global && is opts.option "prefix")) [
      | inl e ↦ rw e (printing cmd st _ (str "prefix C-b\n") refl refl refl (refl, refl))
      | inr e ↦ rw e (quiet cmd st _ refl refl refl (inl (refl, refl)))
    ]

    split_done-IsProper :
        (opts : SplitWindowOptions) (w : W)
        → IsProper (str "split-window") st (split_done ctx opts (record st { world = w }))
    unfolding split_done
    split_done-IsProper opts w = record {
      manager_is = inr (inl (refl, ground arith));
      printed = shown opts.print_after;
      complained = ([], ground (arith, append-nil st.stderr));
      code_is = inl (refl, refl);
    }
      where
        m : Manager
        m = (register [] st.manager).1

        line : Bytes
        line =
            expand_format (or_pane_id opts.format)
              (build_format_context ctx.session m (register [] st.manager).0)

        shown :
            (b : Bool)
            → (out : Bytes) × ((if b
                  then print_line line (record st { manager = m; world = w })
                  else record st { manager = m; world = w }).stdout
                ≡ st.stdout ++ out)
        shown true = (line ++ b'\n' ∷ [], refl)
        shown false = ([], sym (append-nil st.stdout))

    split_window-IsProper :
        (opts : SplitWindowOptions)
        → IsProper (str "split-window") st (handle_split_window ctx opts st)
    unfolding handle_split_window
    split_window-IsProper opts =
        by_split (ctx.controller.new_split (split_direction opts.direction) st.world).0 _
      where
        by_split :
            (r : Option Error) (w : W)
            → IsProper (str "split-window") st (elim r [
              | some e ↦ exit_fail (wrap (str "split-window") e) (record st { world = w })
              | none ↦ split_done ctx opts (record st { world = w })
            ])
        by_split (some e) w = quiet (str "split-window") st _ refl refl refl (inr refl)
        by_split none w = split_done-IsProper opts w

    send_text-IsProper :
        (cmd text pane_id : Bytes) → IsProper cmd st (send_text ctx text pane_id st)
    unfolding send_text
    send_text-IsProper cmd text pane_id =
        by_result
          (send_keys ctx.net (safe_socket_path ctx.host ctx.session pane_id) text st.world).0 _
      where
        by_result :
            (r : Option Error) (w : W)
            → IsProper cmd st (elim r [
              | some e ↦ exit_fail (wrap (str "send-keys") e) (record st { world = w })
              | none ↦ exit_ok (record st { world = w })
            ])
        by_result (some e) w = quiet cmd st _ refl refl refl (inr refl)
        by_result none w = quiet cmd st _ refl refl refl (inl (refl, refl))

    send_keys-IsProper :
        (cmd : Bytes) (opts : SendKeysOptions) → IsProper cmd st (handle_send_keys ctx opts st)
    unfolding handle_send_keys
    send_keys-IsProper cmd opts =
        elim (Bool-cases (is (build_send_keys_data opts.keys opts.literal) "")) [
          | inl e ↦ rw e (quiet cmd st _ refl refl refl (inl (refl, refl)))
          | inr e ↦ elim (Bool-cases (is (target_pane ctx opts.target st.manager) "")) [
            | inl e' ↦ rw (e, e') (quiet cmd st _ refl refl refl (inr refl))
            | inr e' ↦ rw (e, e') (send_text-IsProper cmd _ _)
          ]
        ]

    forget_pane-IsProper :
        (id : Bytes) (w : W)
        → IsProper (str "kill-pane") st (forget_pane ctx id (record st { world = w }))
    unfolding forget_pane
    forget_pane-IsProper id w = elim (Bool-cases (is id "")) [
      | inl e ↦ rw e (quiet (str "kill-pane") st _ refl refl refl (inl (refl, refl)))
      | inr e ↦ rw e (by_result (unregister id st.manager) refl)
    ]
      where
        by_result :
            (r : Result Manager)
            → unregister id st.manager ≡ r
            → IsProper (str "kill-pane") st (elim r [
              | err e ↦ exit_fail (wrap (str "kill-pane: unregister") e) (record st { world = w })
              | ok m ↦ exit_ok (record st { manager = m; world = w })
            ])
        by_result (err e) h = quiet (str "kill-pane") st _ refl refl refl (inr refl)
        by_result (ok m) h = record {
          manager_is = inr (inr (refl, (id, h)));
          printed = ([], sym (append-nil st.stdout));
          complained = ([], sym (append-nil st.stderr));
          code_is = inl (refl, refl);
        }

    kill_pane-IsProper :
        (opts : KillPaneOptions) → IsProper (str "kill-pane") st (handle_kill_pane ctx opts st)
    unfolding handle_kill_pane
    kill_pane-IsProper opts = by_close (ctx.controller.close_surface st.world).0 _
      where
        by_close :
            (r : Option Error) (w : W)
            → IsProper (str "kill-pane") st (elim r [
              | some e ↦ exit_fail (wrap (str "kill-pane") e) (record st { world = w })
              | none ↦ forget_pane ctx (extract_pane_id opts.target) (record st { world = w })
            ])
        by_close (some e) w = quiet (str "kill-pane") st _ refl refl refl (inr refl)
        by_close none w = forget_pane-IsProper (extract_pane_id opts.target) w

    list_panes-IsProper :
        (cmd : Bytes) (opts : ListPanesOptions) → IsProper cmd st (handle_list_panes ctx opts st)
    unfolding handle_list_panes
    list_panes-IsProper cmd opts =
        let (out, e) = print_panes-prints (or_pane_id opts.format) (list st.manager) st in
        subst (λ s. IsProper cmd st (exit_ok s)) (sym e)
          (printing cmd st _ out refl refl refl (refl, refl))

    display_message-IsProper :
        (cmd : Bytes) (opts : DisplayMessageOptions)
        → IsProper cmd st (handle_display_message ctx opts st)
    unfolding handle_display_message
    display_message-IsProper cmd opts = elim (Bool-cases opts.print) [
      | inl e ↦ rw e (printing cmd st _ _ refl refl refl (refl, refl))
      | inr e ↦ rw e (quiet cmd st _ refl refl refl (inl (refl, refl)))
    ]

    unsupported-IsProper : (cmd : Bytes) → IsProper cmd st (handle_unsupported ctx cmd st)
    unfolding handle_unsupported
    unsupported-IsProper cmd = record {
      manager_is = inl refl;
      printed = ([], sym (append-nil st.stdout));
      complained = (_, refl);
      code_is = inl (refl, refl);
    }

    idle-IsProper : (cmd : Bytes) → IsProper cmd st (exit_ok st)
    idle-IsProper cmd = quiet cmd st _ refl refl refl (inl (refl, refl))

  -- Every command leaves a proper reply, whatever its arguments and whatever the terminal and the
  -- agents answer: the manager is as it was, or split-window registered one pane with an empty TTY,
  -- or kill-pane unregistered one; the output and the error stream only grow; the exit code is 0,
  -- with no error, or 1.
  pub execute-IsProper : (r : ParseResult) (st : State W) → IsProper r.command st (execute ctx r st)
  execute-IsProper r st =
      execute-Handled {P = λ cmd. IsProper cmd st}
        (record {
          refused = λ cmd e. quiet cmd st _ refl refl refl (inr refl);
          idle = idle-IsProper st;
          has_session = has_session-IsProper st (str "has-session");
          show_options = show_options-IsProper st (str "show-options");
          split_window = split_window-IsProper st;
          send_keys = send_keys-IsProper st (str "send-keys");
          kill_pane = kill_pane-IsProper st;
          list_panes = list_panes-IsProper st (str "list-panes");
          display_message = display_message-IsProper st (str "display-message");
          unsupported = unsupported-IsProper st;
        })
        r
