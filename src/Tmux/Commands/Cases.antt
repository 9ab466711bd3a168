-- ===== src/Tmux/Commands/Cases.antt =====
-- internal/tmux/commands.go: a property of the replies of `Execute`, command by command.
use shimux.Base.{
  Bool-cases, Bytes, str, equal, is, equal_iff, Error, Result, ok, err, ◌≡◌, sym, subst, inl, inr,
  true,
}
use shimux.Tmux.Parser.Keys.{SendKeysOptions, parse_send_keys}
use shimux.Tmux.Commands.{
  Context, State, Reply, exit_fail, exit_ok, execute, with_options, ParseResult, HasSessionOptions,
  parse_has_session, handle_has_session, parse_show_options, ShowOptionsOptions, parse_split_window,
  handle_show_options, parse_select_pane, SplitWindowOptions, parse_kill_pane, handle_split_window,
  parse_list_panes, handle_send_keys, parse_display_message, KillPaneOptions, handle_kill_pane,
  ListPanesOptions, handle_list_panes, DisplayMessageOptions, handle_display_message,
  handle_unsupported,
}

-- A property of the replies to each command in the state `st`, for the commands that change nothing, the
-- arguments that are refused, and each other handler.
pub record Handled {W : Type 0} (ctx : Context W) (st : State W) (P : Bytes → Reply W → Type 0)
    : Type 0 where
  pub refused : (cmd : Bytes) (e : Error) → P cmd (exit_fail e st)
  pub idle : (cmd : Bytes) → P cmd (exit_ok st)
  pub has_session :
      (opts : HasSessionOptions) → P (str "has-session") (handle_has_session ctx opts st)
  pub show_options :
      (opts : ShowOptionsOptions) → P (str "show-options") (handle_show_options ctx opts st)
  pub split_window :
      (opts : SplitWindowOptions) → P (str "split-window") (handle_split_window ctx opts st)
  pub send_keys : (opts : SendKeysOptions) → P (str "send-keys") (handle_send_keys ctx opts st)
  pub kill_pane : (opts : KillPaneOptions) → P (str "kill-pane") (handle_kill_pane ctx opts st)
  pub list_panes : (opts : ListPanesOptions) → P (str "list-panes") (handle_list_panes ctx opts st)
  pub display_message :
      (opts : DisplayMessageOptions)
      → P (str "display-message") (handle_display_message ctx opts st)
  pub unsupported : (cmd : Bytes) → P cmd (handle_unsupported ctx cmd st)

module _ {W : Type 0} {ctx : Context W} {st : State W} {P : Bytes → Reply W → Type 0}
    (h : Handled ctx st P) where
  named : {reply : Reply W} (cmd name : Bytes) → equal cmd name ≡ true → P name reply → P cmd reply
  named {reply} cmd name e p = subst (λ c. P c reply) (sym ((equal_iff cmd name).0 e)) p

  with_options-Handled :
      {O : Type 0} (cmd : Bytes) (o : Result O) (handle : O → State W → Reply W)
      → ((opts : O) → P cmd (handle opts st))
      → P cmd (with_options o handle st)
  with_options-Handled cmd (err e) handle p = h.refused cmd e
  with_options-Handled cmd (ok opts) handle p = p opts

  -- A property that each handler has holds of `Execute`.
  pub execute-Handled : (r : ParseResult) → P r.command (execute ctx r st)
  unfolding execute
  execute-Handled r = elim (Bool-cases (is r.command "has-session")) [
    | inl e ↦ rw e (
        named r.command (str "has-session") e
          (with_options-Handled _ (parse_has_session r.args) _ h.has_session))
    | inr e ↦ rw e (elim (Bool-cases (is r.command "switch-client")) [
      | inl e ↦ rw e (h.idle r.command)
      | inr e ↦ rw e (elim (Bool-cases (is r.command "new-session")) [
        | inl e ↦ rw e (h.idle r.command)
        | inr e ↦ rw e (elim (Bool-cases (is r.command "show-options")) [
          | inl e ↦ rw e (
              named r.command (str "show-options") e
                (with_options-Handled _ (parse_show_options r.args) _ h.show_options))
          | inr e ↦ rw e (elim (Bool-cases (is r.command "split-window")) [
            | inl e ↦ rw e (
                named r.command (str "split-window") e
                  (with_options-Handled _ (parse_split_window r.args) _ h.split_window))
            | inr e ↦ rw e (elim (Bool-cases (is r.command "send-keys")) [
              | inl e ↦ rw e (
                  named r.command (str "send-keys") e
                    (with_options-Handled _ (parse_send_keys r.args) _ h.send_keys))
              | inr e ↦ rw e (elim (Bool-cases (is r.command "select-pane")) [
                | inl e ↦ rw e (
                    with_options-Handled r.command (parse_select_pane r.args) _
                      (λ opts. h.idle r.command))
                | inr e ↦ rw e (elim (Bool-cases (is r.command "kill-pane")) [
                  | inl e ↦ rw e (
                      named r.command (str "kill-pane") e
                        (with_options-Handled _ (parse_kill_pane r.args) _ h.kill_pane))
                  | inr e ↦ rw e (elim (Bool-cases (is r.command "list-panes")) [
                    | inl e ↦ rw e (
                        named r.command (str "list-panes") e
                          (with_options-Handled _ (parse_list_panes r.args) _ h.list_panes))
                    | inr e ↦ rw e (elim (Bool-cases (is r.command "display-message")) [
                      | inl e ↦ rw e (
                          named r.command (str "display-message") e (
                            with_options-Handled _ (parse_display_message r.args) _
                              h.display_message))
                      | inr e ↦ rw e (h.unsupported r.command)
                    ])
                  ])
                ])
              ])
            ])
          ])
        ])
      ])
    ])
  ]
