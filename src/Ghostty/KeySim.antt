-- ===== src/Ghostty/KeySim.antt =====
-- internal/ghostty/keysim/keysim.go: the controller that types Ghostty's key bindings through
-- `osascript`.
use shimux.Base.{Bytes, str, Error, message, ◌≡◌, refl, Option, none, some, ◌++◌}
use shimux.Ghostty.{
  SplitDirection, split_down, split_right, split_left, split_up, GotoDirection, goto_next,
  goto_previous, Controller,
}

pub record Keystroke : Type 0 where
  pub key : Bytes
  pub modifiers : Bytes

abbrev command : Bytes
command = str "{command down}"

abbrev key_new_window : Keystroke
key_new_window = record { key = str "n"; modifiers = command }

abbrev key_new_tab : Keystroke
key_new_tab = record { key = str "t"; modifiers = command }

abbrev key_close : Keystroke
key_close = record { key = str "w"; modifiers = command }

-- The map `keySplit`.
pub key_split : SplitDirection → Option Keystroke
key_split split_right = some (record { key = str "d"; modifiers = command })
key_split split_down = some (record { key = str "D"; modifiers = str "{command down, shift down}" })
key_split _ = none

-- The map `keyGoto`.
pub key_goto : GotoDirection → Option Keystroke
key_goto goto_next = some (record { key = str "]"; modifiers = command })
key_goto goto_previous = some (record { key = str "["; modifiers = command })

-- `%s` of a text is the text.
unfoldable pub build_script : Keystroke → Bytes
build_script ks =
    str "tell application \"System Events\" to tell process \"ghostty\" to keystroke \""
    ++ (ks.key ++ (str "\" using " ++ ks.modifiers))

-- `%d` of a direction.
abbrev direction_number : SplitDirection → Bytes
direction_number split_down = str "0"
direction_number split_right = str "1"
direction_number split_left = str "2"
direction_number split_up = str "3"

abbrev goto_number : GotoDirection → Bytes
goto_number goto_next = str "0"
goto_number goto_previous = str "1"

-- `New` and `NewWithExecutor`: `exec_script` runs a script, by `osascript` or in a test.
module _ {W : Type 0} (exec_script : Bytes → W → Option Error × W) where
  unfoldable pub new_split : SplitDirection → W → Option Error × W
  unfolding key_split build_script
  new_split direction w = elim (key_split direction) [
    | none ↦ (some (message (str "unsupported split direction: " ++ direction_number direction)), w)
    | some ks ↦ exec_script (build_script ks) w
  ]

  unfoldable pub goto_split : GotoDirection → W → Option Error × W
  unfolding key_goto build_script
  goto_split direction w = elim (key_goto direction) [
    | none ↦ (some (message (str "unsupported goto direction: " ++ goto_number direction)), w)
    | some ks ↦ exec_script (build_script ks) w
  ]

  abbrev pub key_sim : Controller W
  key_sim = record {
    new_window = exec_script (build_script key_new_window);
    new_tab = exec_script (build_script key_new_tab);
    new_split = new_split;
    goto_split = goto_split;
    close_surface = exec_script (build_script key_close);
  }

  -- A split to the right or down runs the script of its key binding, once. A split to the left or
  -- up has none: it runs no script, changes nothing and fails with the direction's number.
  pub new_split_lem :
      (w : W)
      → (new_split split_right w
          ≡ exec_script
              (str
                "tell application \"System Events\" to tell process \"ghostty\" to keystroke \"d\" using {command down}")
              w)
        × (new_split split_down w
            ≡ exec_script
                (str
                  "tell application \"System Events\" to tell process \"ghostty\" to keystroke \"D\" using {command down, shift down}")
                w)
        × (new_split split_left w ≡ (some (message (str "unsupported split direction: 2")), w))
        × (new_split split_up w ≡ (some (message (str "unsupported split direction: 3")), w))
  unfolding new_split
  new_split_lem w = (refl, refl, refl, refl)
