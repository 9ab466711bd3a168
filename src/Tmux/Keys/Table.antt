-- ===== src/Tmux/Keys/Table.antt =====
-- internal/tmux/keys.go: the maps `specialKeys` and `modifiableKeys`.
use Prim.Native.String.{String}
use shimux.Base.{ℕ, List, [], ◌∷◌, Bytes, str}

abbrev escape : String → Bytes
escape s = 0x1b ∷ str s

unfoldable pub special_keys : List (Bytes × Bytes)
special_keys =
    (str "Enter", 0xd ∷ [])
    ∷ (str "Escape", 0x1b ∷ [])
    ∷ (str "Tab", 0x9 ∷ [])
    ∷ (str "Space", 0x20 ∷ [])
    ∷ (str "BSpace", 0x7f ∷ [])
    ∷ (str "BTab", escape "[Z")
    ∷ (str "Up", escape "[A")
    ∷ (str "Down", escape "[B")
    ∷ (str "Right", escape "[C")
    ∷ (str "Left", escape "[D")
    ∷ (str "DC", escape "[3~")
    ∷ (str "End", escape "[F")
    ∷ (str "Home", escape "[H")
    ∷ (str "IC", escape "[2~")
    ∷ (str "NPage", escape "[6~")
    ∷ (str "PPage", escape "[5~")
    ∷ (str "Insert", escape "[2~")
    ∷ (str "Delete", escape "[3~")
    ∷ (str "PageDown", escape "[6~")
    ∷ (str "PgDn", escape "[6~")
    ∷ (str "PageUp", escape "[5~")
    ∷ (str "PgUp", escape "[5~")
    ∷ (str "F1", escape "OP")
    ∷ (str "F2", escape "OQ")
    ∷ (str "F3", escape "OR")
    ∷ (str "F4", escape "OS")
    ∷ (str "F5", escape "[15~")
    ∷ (str "F6", escape "[17~")
    ∷ (str "F7", escape "[18~")
    ∷ (str "F8", escape "[19~")
    ∷ (str "F9", escape "[20~")
    ∷ (str "F10", escape "[21~")
    ∷ (str "F11", escape "[23~")
    ∷ (str "F12", escape "[24~")
    ∷ (str "[NUL]", 0x0 ∷ [])
    ∷ (str "[SOH]", 0x1 ∷ [])
    ∷ (str "[STX]", 0x2 ∷ [])
    ∷ (str "[ETX]", 0x3 ∷ [])
    ∷ (str "[EOT]", 0x4 ∷ [])
    ∷ (str "[ENQ]", 0x5 ∷ [])
    ∷ (str "[ASC]", 0x6 ∷ [])
    ∷ (str "[BEL]", 0x7 ∷ [])
    ∷ (str "[BS]", 0x8 ∷ [])
    ∷ (str "[LF]", 0xa ∷ [])
    ∷ (str "[VT]", 0xb ∷ [])
    ∷ (str "[FF]", 0xc ∷ [])
    ∷ (str "[SO]", 0xe ∷ [])
    ∷ (str "[SI]", 0xf ∷ [])
    ∷ (str "[DLE]", 0x10 ∷ [])
    ∷ (str "[DC1]", 0x11 ∷ [])
    ∷ (str "[DC2]", 0x12 ∷ [])
    ∷ (str "[DC3]", 0x13 ∷ [])
    ∷ (str "[DC4]", 0x14 ∷ [])
    ∷ (str "[NAK]", 0x15 ∷ [])
    ∷ (str "[SYN]", 0x16 ∷ [])
    ∷ (str "[ETB]", 0x17 ∷ [])
    ∷ (str "[CAN]", 0x18 ∷ [])
    ∷ (str "[EM]", 0x19 ∷ [])
    ∷ (str "[SUB]", 0x1a ∷ [])
    ∷ (str "[FS]", 0x1c ∷ [])
    ∷ (str "[GS]", 0x1d ∷ [])
    ∷ (str "[RS]", 0x1e ∷ [])
    ∷ (str "[US]", 0x1f ∷ [])
    ∷ (str "KP/", str "/")
    ∷ (str "KP*", str "*")
    ∷ (str "KP-", str "-")
    ∷ (str "KP+", str "+")
    ∷ (str "KP.", str ".")
    ∷ (str "KPEnter", 0xd ∷ [])
    ∷ (str "KP0", str "0")
    ∷ (str "KP1", str "1")
    ∷ (str "KP2", str "2")
    ∷ (str "KP3", str "3")
    ∷ (str "KP4", str "4")
    ∷ (str "KP5", str "5")
    ∷ (str "KP6", str "6")
    ∷ (str "KP7", str "7")
    ∷ (str "KP8", str "8")
    ∷ (str "KP9", str "9")
    ∷ []

-- `letter` is 0 where the source gives none.
pub record ModifiableKeyInfo : Type 0 where
  pub param_style : Bytes
  pub num : Bytes
  pub letter : ℕ

abbrev csi_letter : ℕ → ModifiableKeyInfo
csi_letter c = record { param_style = str "csi_letter"; num = []; letter = c }

abbrev csi_tilde : String → ModifiableKeyInfo
csi_tilde n = record { param_style = str "csi_tilde"; num = str n; letter = 0 }

abbrev ss3_to_csi : ℕ → ModifiableKeyInfo
ss3_to_csi c = record { param_style = str "ss3_to_csi"; num = []; letter = c }

unfoldable pub modifiable_keys : List (Bytes × ModifiableKeyInfo)
modifiable_keys =
    (str "Up", csi_letter b'A')
    ∷ (str "Down", csi_letter b'B')
    ∷ (str "Right", csi_letter b'C')
    ∷ (str "Left", csi_letter b'D')
    ∷ (str "Home", csi_letter b'H')
    ∷ (str "End", csi_letter b'F')
    ∷ (str "IC", csi_tilde "2")
    ∷ (str "Insert", csi_tilde "2")
    ∷ (str "DC", csi_tilde "3")
    ∷ (str "Delete", csi_tilde "3")
    ∷ (str "PPage", csi_tilde "5")
    ∷ (str "PageUp", csi_tilde "5")
    ∷ (str "PgUp", csi_tilde "5")
    ∷ (str "NPage", csi_tilde "6")
    ∷ (str "PageDown", csi_tilde "6")
    ∷ (str "PgDn", csi_tilde "6")
    ∷ (str "F1", ss3_to_csi b'P')
    ∷ (str "F2", ss3_to_csi b'Q')
    ∷ (str "F3", ss3_to_csi b'R')
    ∷ (str "F4", ss3_to_csi b'S')
    ∷ (str "F5", csi_tilde "15")
    ∷ (str "F6", csi_tilde "17")
    ∷ (str "F7", csi_tilde "18")
    ∷ (str "F8", csi_tilde "19")
    ∷ (str "F9", csi_tilde "20")
    ∷ (str "F10", csi_tilde "21")
    ∷ (str "F11", csi_tilde "23")
    ∷ (str "F12", csi_tilde "24")
    ∷ []
