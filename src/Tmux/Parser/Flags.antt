-- ===== src/Tmux/Parser/Flags.antt =====
-- internal/tmux/parser.go: the flags of each command that take a value, and the errors of the parsers.
use shimux.Base.{Bytes, str, equal, Error, err, ◌≡◌, refl, ◌↔◌, List, [], ◌∷◌}
use shimux.Tmux.Parser.Commands.{
  split_window_arg, parse_split_window, select_pane_arg, parse_select_pane, new_window_arg,
  parse_new_window, has_session_arg, parse_has_session, kill_pane_arg, parse_kill_pane,
  list_panes_arg, parse_list_panes, display_message_arg, parse_display_message, show_options_arg,
  parse_show_options, SplitWindowOptions, SelectPaneOptions, NewWindowOptions, HasSessionOptions,
  KillPaneOptions, ListPanesOptions, DisplayMessageOptions, ShowOptionsOptions,
}
use shimux.Tmux.Parser.Missing.{Fits, Fits-bare, Fits-value, scan-err_iff, Misses}

abbrev pub split_window_flags : List Bytes
split_window_flags = str "-t" ∷ str "-l" ∷ str "-F" ∷ []

abbrev pub select_pane_flags : List Bytes
select_pane_flags = str "-t" ∷ str "-P" ∷ str "-T" ∷ []

abbrev pub new_window_flags : List Bytes
new_window_flags = str "-t" ∷ str "-n" ∷ str "-F" ∷ []

abbrev pub has_session_flags : List Bytes
has_session_flags = str "-t" ∷ []

abbrev pub kill_pane_flags : List Bytes
kill_pane_flags = str "-t" ∷ []

abbrev pub list_panes_flags : List Bytes
list_panes_flags = str "-F" ∷ str "-t" ∷ []

abbrev pub display_message_flags : List Bytes
display_message_flags = str "-t" ∷ str "-F" ∷ []

abbrev pub show_options_flags : List Bytes
show_options_flags = []

split_window_arg-Fits :
    (arg : Bytes) (o : SplitWindowOptions) → Fits split_window_flags arg (split_window_arg arg o)
unfolding split_window_arg
split_window_arg-Fits arg o =
    Fits-bare split_window_flags arg (str "-h") _ _ (unfold equal in refl) (λ e0.
      Fits-bare split_window_flags arg (str "-v") _ _ (unfold equal in refl) (λ e1.
        Fits-bare split_window_flags arg (str "--left") _ _ (unfold equal in refl) (λ e2.
          Fits-bare split_window_flags arg (str "--right") _ _ (unfold equal in refl) (λ e3.
            Fits-bare split_window_flags arg (str "--up") _ _ (unfold equal in refl) (λ e4.
              Fits-bare split_window_flags arg (str "--down") _ _ (unfold equal in refl) (λ e5.
                Fits-value split_window_flags arg (str "-t") _ _ (unfold equal in refl) (λ e6.
                  Fits-value split_window_flags arg (str "-l") _ _ (unfold equal in refl) (λ e7.
                    Fits-bare split_window_flags arg (str "-P") _ _ (unfold equal in refl) (λ e8.
                      Fits-value split_window_flags arg (str "-F") _ _ (unfold equal in refl)
                        (λ e9. rw (e6, e7, e9) refl))))))))))

select_pane_arg-Fits :
    (arg : Bytes) (o : SelectPaneOptions) → Fits select_pane_flags arg (select_pane_arg arg o)
unfolding select_pane_arg
select_pane_arg-Fits arg o =
    Fits-value select_pane_flags arg (str "-t") _ _ (unfold equal in refl) (λ e0.
      Fits-value select_pane_flags arg (str "-P") _ _ (unfold equal in refl) (λ e1.
        Fits-value select_pane_flags arg (str "-T") _ _ (unfold equal in refl)
          (λ e2. rw (e0, e1, e2) refl)))

new_window_arg-Fits :
    (arg : Bytes) (o : NewWindowOptions) → Fits new_window_flags arg (new_window_arg arg o)
unfolding new_window_arg
new_window_arg-Fits arg o =
    Fits-value new_window_flags arg (str "-t") _ _ (unfold equal in refl) (λ e0.
      Fits-value new_window_flags arg (str "-n") _ _ (unfold equal in refl) (λ e1.
        Fits-bare new_window_flags arg (str "-P") _ _ (unfold equal in refl) (λ e2.
          Fits-value new_window_flags arg (str "-F") _ _ (unfold equal in refl)
            (λ e3. rw (e0, e1, e3) refl))))

has_session_arg-Fits :
    (arg : Bytes) (o : HasSessionOptions) → Fits has_session_flags arg (has_session_arg arg o)
unfolding has_session_arg
has_session_arg-Fits arg o =
    Fits-value has_session_flags arg (str "-t") _ _ (unfold equal in refl) (λ e0. rw (e0) refl)

kill_pane_arg-Fits :
    (arg : Bytes) (o : KillPaneOptions) → Fits kill_pane_flags arg (kill_pane_arg arg o)
unfolding kill_pane_arg
kill_pane_arg-Fits arg o =
    Fits-value kill_pane_flags arg (str "-t") _ _ (unfold equal in refl) (λ e0. rw (e0) refl)

list_panes_arg-Fits :
    (arg : Bytes) (o : ListPanesOptions) → Fits list_panes_flags arg (list_panes_arg arg o)
unfolding list_panes_arg
list_panes_arg-Fits arg o =
    Fits-value list_panes_flags arg (str "-F") _ _ (unfold equal in refl) (λ e0.
      Fits-value list_panes_flags arg (str "-t") _ _ (unfold equal in refl)
        (λ e1. rw (e0, e1) refl))

display_message_arg-Fits :
    (arg : Bytes) (o : DisplayMessageOptions)
    → Fits display_message_flags arg (display_message_arg arg o)
unfolding display_message_arg
display_message_arg-Fits arg o =
    Fits-bare display_message_flags arg (str "-p") _ _ (unfold equal in refl) (λ e0.
      Fits-value display_message_flags arg (str "-t") _ _ (unfold equal in refl) (λ e1.
        Fits-value display_message_flags arg (str "-F") _ _ (unfold equal in refl)
          (λ e2. rw (e1, e2) refl)))

show_options_arg-Fits :
    (arg : Bytes) (o : ShowOptionsOptions) → Fits show_options_flags arg (show_options_arg arg o)
unfolding show_options_arg
show_options_arg-Fits arg o =
    Fits-bare show_options_flags arg (str "-g") _ _ (unfold equal in refl) (λ e0. refl)

-- The parser of each of the eight commands that looks at every argument fails exactly when the last
-- argument is one of the command's flags that take a value and stands where a flag is read; the error
-- names that flag. A flag with a value takes the argument behind it, whatever it looks like, and every
-- other argument is accepted.
pub parsers-err_iff :
    (args : List Bytes) (e : Error)
    → ((parse_split_window args ≡ err e) ↔ Misses split_window_flags args e)
      × ((parse_select_pane args ≡ err e) ↔ Misses select_pane_flags args e)
      × ((parse_new_window args ≡ err e) ↔ Misses new_window_flags args e)
      × ((parse_has_session args ≡ err e) ↔ Misses has_session_flags args e)
      × ((parse_kill_pane args ≡ err e) ↔ Misses kill_pane_flags args e)
      × ((parse_list_panes args ≡ err e) ↔ Misses list_panes_flags args e)
      × ((parse_display_message args ≡ err e) ↔ Misses display_message_flags args e)
      × ((parse_show_options args ≡ err e) ↔ Misses show_options_flags args e)
unfolding parse_split_window parse_select_pane parse_new_window parse_has_session parse_kill_pane
    parse_list_panes parse_display_message parse_show_options
parsers-err_iff args e = (
  scan-err_iff split_window_flags split_window_arg split_window_arg-Fits _ args e,
  scan-err_iff select_pane_flags select_pane_arg select_pane_arg-Fits _ args e,
  scan-err_iff new_window_flags new_window_arg new_window_arg-Fits _ args e,
  scan-err_iff has_session_flags has_session_arg has_session_arg-Fits _ args e,
  scan-err_iff kill_pane_flags kill_pane_arg kill_pane_arg-Fits _ args e,
  scan-err_iff list_panes_flags list_panes_arg list_panes_arg-Fits _ args e,
  scan-err_iff display_message_flags display_message_arg display_message_arg-Fits _ args e,
  scan-err_iff show_options_flags show_options_arg show_options_arg-Fits _ args e,
)
