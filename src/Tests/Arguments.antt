-- ===== src/Tests/Arguments.antt =====
-- The arguments of commands.
use shimux.Base.{Bytes, str, message, ok, err, ◌≡◌, ◌↔◌, true, false, List, [], ◌∷◌, Error}
use shimux.Tmux.Parser.{ParseResult, parse, no_options}
use shimux.Tmux.Parser.Commands.{
  SplitWindowOptions, NewWindowOptions, SelectPaneOptions, ListPanesOptions, DisplayMessageOptions,
  parse_split_window, parse_new_window, parse_select_pane, parse_list_panes, parse_display_message,
  parse_has_session, parse_kill_pane, parse_show_options,
}
use shimux.Tmux.Parser.Keys.{
  SendKeysOptions, parse_send_keys, parse_send_keys-print, print_send_keys,
}
use shimux.Tmux.Parser.Global.{Accepts, parse_iff}
use shimux.Tmux.Parser.Missing.{Misses}
use shimux.Tmux.Parser.Flags.{
  parsers-err_iff, split_window_flags, select_pane_flags, new_window_flags, has_session_flags,
  kill_pane_flags, list_panes_flags, display_message_flags, show_options_flags,
}
use shimux.Tmux.Parser.SplitWindow.{DirectionFlag, parse_split_window-IsDirected, IsDirected}
use shimux.Tmux.Parser.Printed.{
  parse-print_options, parse_split_window-print, print_split_window, print_new_window,
  print_select_pane, print_list_panes, print_display_message,
}

abbrev line : List Bytes
line = str "-L" ∷ str "s" ∷ str "split-window" ∷ str "-h" ∷ []

abbrev parsed : ParseResult
parsed = record {
  global = record no_options { socket_name = str "s" };
  command = str "split-window";
  args = str "-h" ∷ [];
}

parse_iff_example : (parse line ≡ ok parsed) ↔ Accepts no_options line parsed
parse_iff_example = parse_iff line parsed

abbrev window : NewWindowOptions
window = record { target = str "t"; name = str "-n"; print_after = true; format = str "f" }

abbrev selected : SelectPaneOptions
selected = record { target = str "%1"; style = str "s"; title = str "-T" }

abbrev listed : ListPanesOptions
listed = record { format = str "#{pane_id}"; target = str "t" }

abbrev shown : DisplayMessageOptions
shown = record { print = true; format = str "#{pane_id}"; target = str "t" }

parse-print_options_example :
    (parse_new_window (print_new_window window) ≡ ok window)
    × (parse_select_pane (print_select_pane selected) ≡ ok selected)
    × (parse_list_panes (print_list_panes listed) ≡ ok listed)
    × (parse_display_message (print_display_message shown) ≡ ok shown)
parse-print_options_example = parse-print_options window selected listed shown

parse_split_window-print_example :
    parse_split_window (print_split_window DirectionFlag.h (str "%0") (str "50%") true (str "-h"))
    ≡ ok (record {
      horizontal = true;
      direction = str "right";
      target = str "%0";
      size = str "50%";
      print_after = true;
      format = str "-h";
    })
parse_split_window-print_example =
    parse_split_window-print DirectionFlag.h (str "%0") (str "50%") true (str "-h")

abbrev typed : SendKeysOptions
typed = record { target = str "%1"; literal = true; keys = str "-t" ∷ str "ls" ∷ [] }

parse_send_keys-print_example : parse_send_keys (print_send_keys typed) ≡ ok typed
parse_send_keys-print_example = parse_send_keys-print typed

abbrev dangling : List Bytes
dangling = str "-h" ∷ str "-t" ∷ []

abbrev no_target : Error
no_target = message (str "-t requires a value")

parsers-err_iff_example :
    ((parse_split_window dangling ≡ err no_target) ↔ Misses split_window_flags dangling no_target)
    × ((parse_select_pane dangling ≡ err no_target) ↔ Misses select_pane_flags dangling no_target)
    × ((parse_new_window dangling ≡ err no_target) ↔ Misses new_window_flags dangling no_target)
    × ((parse_has_session dangling ≡ err no_target) ↔ Misses has_session_flags dangling no_target)
    × ((parse_kill_pane dangling ≡ err no_target) ↔ Misses kill_pane_flags dangling no_target)
    × ((parse_list_panes dangling ≡ err no_target) ↔ Misses list_panes_flags dangling no_target)
    × ((parse_display_message dangling ≡ err no_target)
        ↔ Misses display_message_flags dangling no_target)
    × ((parse_show_options dangling ≡ err no_target) ↔ Misses show_options_flags dangling no_target)
parsers-err_iff_example = parsers-err_iff dangling no_target

abbrev printed : List Bytes
printed = print_split_window DirectionFlag.h (str "%0") (str "50%") false []

abbrev printed_options : SplitWindowOptions
printed_options = record {
  horizontal = true;
  direction = str "right";
  target = str "%0";
  size = str "50%";
  print_after = false;
  format = [];
}

printed_is_read : parse_split_window printed ≡ ok printed_options
printed_is_read = parse_split_window-print DirectionFlag.h (str "%0") (str "50%") false []

parse_split_window-IsDirected_example : IsDirected printed_options
parse_split_window-IsDirected_example = parse_split_window-IsDirected printed printed_is_read
