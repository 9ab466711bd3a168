-- ===== src/Tmux/Parser/Commands.antt =====
-- internal/tmux/parser.go: the options of the commands whose parser looks at every argument.
use shimux.Base.{Bool, true, false, List, [], Bytes, str, equal, is, if◌then◌else◌, Result}
use shimux.Tmux.Parser.{Arg, bare, value, scan}

pub record SplitWindowOptions : Type 0 where
  pub horizontal : Bool
  pub direction : Bytes
  pub target : Bytes
  pub size : Bytes
  pub print_after : Bool
  pub format : Bytes

abbrev pub split_window_defaults : SplitWindowOptions
split_window_defaults = record {
  horizontal = false;
  direction = str "down";
  target = [];
  size = [];
  print_after = false;
  format = [];
}

unfoldable pub split_window_arg : Bytes → SplitWindowOptions → Arg SplitWindowOptions
unfolding equal
split_window_arg arg o =
    if is arg "-h"
    then bare (record o { horizontal = true; direction = str "right" })
    else if is arg "-v"
    then bare (record o { horizontal = false; direction = str "down" })
    else if is arg "--left"
    then bare (record o { horizontal = false; direction = str "left" })
    else if is arg "--right"
    then bare (record o { horizontal = true; direction = str "right" })
    else if is arg "--up"
    then bare (record o { horizontal = false; direction = str "up" })
    else if is arg "--down"
    then bare (record o { horizontal = false; direction = str "down" })
    else if is arg "-t"
    then value (str "-t") (λ v. record o { target = v })
    else if is arg "-l"
    then value (str "-l") (λ v. record o { size = v })
    else if is arg "-P"
    then bare (record o { print_after = true })
    else if is arg "-F"
    then value (str "-F") (λ v. record o { format = v })
    else bare o

unfoldable pub parse_split_window : List Bytes → Result SplitWindowOptions
unfolding scan split_window_arg
parse_split_window args = scan split_window_arg args split_window_defaults

pub record SelectPaneOptions : Type 0 where
  pub target : Bytes
  pub style : Bytes
  pub title : Bytes

unfoldable pub select_pane_arg : Bytes → SelectPaneOptions → Arg SelectPaneOptions
unfolding equal
select_pane_arg arg o =
    if is arg "-t"
    then value (str "-t") (λ v. record o { target = v })
    else if is arg "-P"
    then value (str "-P") (λ v. record o { style = v })
    else if is arg "-T"
    then value (str "-T") (λ v. record o { title = v })
    else bare o

unfoldable pub parse_select_pane : List Bytes → Result SelectPaneOptions
unfolding scan select_pane_arg
parse_select_pane args = scan select_pane_arg args (record { target = []; style = []; title = [] })

pub record NewWindowOptions : Type 0 where
  pub target : Bytes
  pub name : Bytes
  pub print_after : Bool
  pub format : Bytes

unfoldable pub new_window_arg : Bytes → NewWindowOptions → Arg NewWindowOptions
unfolding equal
new_window_arg arg o =
    if is arg "-t"
    then value (str "-t") (λ v. record o { target = v })
    else if is arg "-n"
    then value (str "-n") (λ v. record o { name = v })
    else if is arg "-P"
    then bare (record o { print_after = true })
    else if is arg "-F"
    then value (str "-F") (λ v. record o { format = v })
    else bare o

unfoldable pub parse_new_window : List Bytes → Result NewWindowOptions
unfolding scan new_window_arg
parse_new_window args =
    scan new_window_arg args (record { target = []; name = []; print_after = false; format = [] })

pub record HasSessionOptions : Type 0 where
  pub target : Bytes

unfoldable pub has_session_arg : Bytes → HasSessionOptions → Arg HasSessionOptions
unfolding equal
has_session_arg arg o =
    if is arg "-t" then value (str "-t") (λ v. record o { target = v }) else bare o

unfoldable pub parse_has_session : List Bytes → Result HasSessionOptions
unfolding scan has_session_arg
parse_has_session args = scan has_session_arg args (record { target = [] })

pub record KillPaneOptions : Type 0 where
  pub target : Bytes

unfoldable pub kill_pane_arg : Bytes → KillPaneOptions → Arg KillPaneOptions
unfolding equal
kill_pane_arg arg o =
    if is arg "-t" then value (str "-t") (λ v. record o { target = v }) else bare o

unfoldable pub parse_kill_pane : List Bytes → Result KillPaneOptions
unfolding scan kill_pane_arg
parse_kill_pane args = scan kill_pane_arg args (record { target = [] })

pub record ListPanesOptions : Type 0 where
  pub format : Bytes
  pub target : Bytes

unfoldable pub list_panes_arg : Bytes → ListPanesOptions → Arg ListPanesOptions
unfolding equal
list_panes_arg arg o =
    if is arg "-F"
    then value (str "-F") (λ v. record o { format = v })
    else if is arg "-t"
    then value (str "-t") (λ v. record o { target = v })
    else bare o

unfoldable pub parse_list_panes : List Bytes → Result ListPanesOptions
unfolding scan list_panes_arg
parse_list_panes args = scan list_panes_arg args (record { format = []; target = [] })

pub record DisplayMessageOptions : Type 0 where
  pub print : Bool
  pub format : Bytes
  pub target : Bytes

unfoldable pub display_message_arg : Bytes → DisplayMessageOptions → Arg DisplayMessageOptions
unfolding equal
display_message_arg arg o =
    if is arg "-p"
    then bare (record o { print = true })
    else if is arg "-t"
    then value (str "-t") (λ v. record o { target = v })
    else if is arg "-F"
    then value (str "-F") (λ v. record o { format = v })
    else bare (record o { format = arg })

unfoldable pub parse_display_message : List Bytes → Result DisplayMessageOptions
unfolding scan display_message_arg
parse_display_message args =
    scan display_message_arg args (record { print = false; format = []; target = [] })

pub record ShowOptionsOptions : Type 0 where
  pub global : Bool
  pub option : Bytes

unfoldable pub show_options_arg : Bytes → ShowOptionsOptions → Arg ShowOptionsOptions
unfolding equal
show_options_arg arg o =
    if is arg "-g" then bare (record o { global = true }) else bare (record o { option = arg })

unfoldable pub parse_show_options : List Bytes → Result ShowOptionsOptions
unfolding scan show_options_arg
parse_show_options args = scan show_options_arg args (record { global = false; option = [] })
