-- ===== src/Tmux/Parser/Printed.antt =====
-- internal/tmux/parser.go: the arguments that print the options of a command.
use shimux.Base.{
  if◌then◌else◌, Bytes, str, ok, ◌≡◌, refl, Bool, true, false, List, [], ◌∷◌, ◌++◌, arith,
}
use shimux.Tmux.Parser.Commands.{
  SelectPaneOptions, NewWindowOptions, ListPanesOptions, DisplayMessageOptions, parse_split_window,
  parse_select_pane, parse_new_window, parse_list_panes, parse_display_message,
}
use shimux.Tmux.Parser.SplitWindow.{
  DirectionFlag, direction_word, is_horizontal, flag_word, flag_direction,
}
use Prim.Native.String.{String}

abbrev set : String → Bytes → List Bytes
set flag v = str flag ∷ v ∷ []

abbrev switch : Bool → String → List Bytes
switch b flag = if b then str flag ∷ [] else []

abbrev pub print_split_window : DirectionFlag → Bytes → Bytes → Bool → Bytes → List Bytes
print_split_window f t s p fmt =
    flag_word f ∷ set "-t" t ++ (set "-l" s ++ (switch p "-P" ++ set "-F" fmt))

-- Every direction, target, size and format, and the flag `-P`, are read back, whatever the values
-- look like, flags included.
pub parse_split_window-print :
    (f : DirectionFlag) (t s : Bytes) (p : Bool) (fmt : Bytes)
    → parse_split_window (print_split_window f t s p fmt)
      ≡ ok (record {
        horizontal = is_horizontal (flag_direction f);
        direction = direction_word (flag_direction f);
        target = t;
        size = s;
        print_after = p;
        format = fmt;
      })
unfolding parse_split_window
parse_split_window-print DirectionFlag.h t s true fmt = refl
parse_split_window-print _ t s true fmt = refl
parse_split_window-print DirectionFlag.h t s false fmt = refl
parse_split_window-print _ t s false fmt = refl

abbrev pub print_new_window : NewWindowOptions → List Bytes
print_new_window o =
    set "-t" o.target ++ (set "-n" o.name ++ (switch o.print_after "-P" ++ set "-F" o.format))

abbrev pub print_select_pane : SelectPaneOptions → List Bytes
print_select_pane o = set "-t" o.target ++ (set "-P" o.style ++ set "-T" o.title)

abbrev pub print_list_panes : ListPanesOptions → List Bytes
print_list_panes o = set "-F" o.format ++ set "-t" o.target

abbrev pub print_display_message : DisplayMessageOptions → List Bytes
print_display_message o = switch o.print "-p" ++ (set "-F" o.format ++ set "-t" o.target)

-- The options of new-window, select-pane, list-panes and display-message are read back from the
-- arguments that print them, whatever their values.
pub parse-print_options :
    (n : NewWindowOptions) (s : SelectPaneOptions) (l : ListPanesOptions)
    (d : DisplayMessageOptions)
    → (parse_new_window (print_new_window n) ≡ ok n)
      × (parse_select_pane (print_select_pane s) ≡ ok s)
      × (parse_list_panes (print_list_panes l) ≡ ok l)
      × (parse_display_message (print_display_message d) ≡ ok d)
unfolding parse_new_window parse_select_pane parse_list_panes parse_display_message
parse-print_options n s l d = ground arith
