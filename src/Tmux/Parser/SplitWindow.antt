-- ===== src/Tmux/Parser/SplitWindow.antt =====
-- internal/tmux/parser.go, `ParseSplitWindow`: the direction flags.
use shimux.Base.{
  Bool, true, false, List, [], ◌∷◌, ◌++◌, ◌≡◌, refl, ◌∙◌, Bytes, str, ok, ◌⊎◌, arith, inr,
}
use shimux.Tmux.Parser.{scan}
use shimux.Tmux.Parser.Commands.{
  SplitWindowOptions, split_window_defaults, split_window_arg, parse_split_window,
}
use shimux.Tmux.Parser.Scan.{Keeps, scan-append, scan-keeps}

pub data Direction : Type 0 where
  right left up down : Direction

abbrev pub direction_word : Direction → Bytes
direction_word right = str "right"
direction_word left = str "left"
direction_word up = str "up"
direction_word down = str "down"

abbrev pub is_horizontal : Direction → Bool
is_horizontal right = true
is_horizontal _ = false

abbrev pub Directs : SplitWindowOptions → Direction → Type 0
Directs o d = (o.direction ≡ direction_word d) × (o.horizontal ≡ is_horizontal d)

-- The options speak of one of the four directions, and `Horizontal` says whether it is `right`.
abbrev pub IsDirected : SplitWindowOptions → Type 0
IsDirected o = Directs o right ⊎ Directs o left ⊎ Directs o up ⊎ Directs o down

split_window_arg-IsDirected :
    (arg : Bytes) (o : SplitWindowOptions)
    → IsDirected o
    → Keeps IsDirected (split_window_arg arg o)
unfolding split_window_arg
split_window_arg-IsDirected arg o d = ground arith

-- Whatever the arguments, the options that `ParseSplitWindow` returns have one of the four
-- directions, and `Horizontal` agrees with it.
pub parse_split_window-IsDirected :
    (args : List Bytes) {o : SplitWindowOptions} → parse_split_window args ≡ ok o → IsDirected o
unfolding parse_split_window
parse_split_window-IsDirected args e =
    scan-keeps split_window_arg IsDirected split_window_arg-IsDirected args split_window_defaults
      (inr (inr (inr (refl, refl)))) e

-- A flag that chooses a direction.
pub data DirectionFlag : Type 0 where
  h v left right up down : DirectionFlag

abbrev pub flag_word : DirectionFlag → Bytes
flag_word h = str "-h"
flag_word v = str "-v"
flag_word left = str "--left"
flag_word right = str "--right"
flag_word up = str "--up"
flag_word down = str "--down"

abbrev pub flag_direction : DirectionFlag → Direction
flag_direction h = right
flag_direction v = down
flag_direction left = left
flag_direction right = right
flag_direction up = up
flag_direction down = down

-- The last direction flag wins: put behind arguments that parse, it sets the direction and
-- `Horizontal` and leaves every other option as the arguments in front of it set it.
pub parse_split_window-last_flag :
    (args : List Bytes) (f : DirectionFlag) {o : SplitWindowOptions}
    → parse_split_window args ≡ ok o
    → parse_split_window (args ++ flag_word f ∷ [])
      ≡ ok (record o {
        horizontal = is_horizontal (flag_direction f);
        direction = direction_word (flag_direction f);
      })
unfolding parse_split_window
parse_split_window-last_flag args f {o} e =
    scan-append split_window_arg args (flag_word f ∷ []) split_window_defaults e ∙ scan_flag f o
  where
    scan_flag :
        (f : DirectionFlag) (o : SplitWindowOptions)
        → scan split_window_arg (flag_word f ∷ []) o
          ≡ ok (record o {
            horizontal = is_horizontal (flag_direction f);
            direction = direction_word (flag_direction f);
          })
    scan_flag h o = refl
    scan_flag _ o = refl
