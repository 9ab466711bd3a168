-- ===== src/Agent/Pty.antt =====
-- internal/agent/agent.go: the pair of terminals, and the size of a window.
pub mod Opened
use shimux.Base.{
  ◌==◌, Bytes, str, Error, message, wrap, Result, ok, err, ℕ, ◌+◌, ◌/◌, true, false, Option, none,
  some, List, [], ◌∷◌, ◌++◌,
}

-- A file is its descriptor.
pub record PtyPair : Type 0 where
  pub master : ℕ
  pub slave : ℕ

-- The calls on terminals, over a world `W`.
pub record Terminals (W : Type 0) : Type 0 where
  -- `os.OpenFile(name, os.O_RDWR, 0)`
  pub open_file : Bytes → W → Result ℕ × W
  -- `ioctl` with TIOCPTYGRANT, TIOCPTYUNLK, and TIOCPTYGNAME, which fills a buffer of 128 bytes
  pub grant : ℕ → W → Option Error × W
  pub unlock : ℕ → W → Option Error × W
  pub name : ℕ → W → Result Bytes × W
  -- `ioctl` with TIOCGWINSZ and TIOCSWINSZ
  pub get_size : ℕ → W → Result (List ℕ) × W
  pub set_size : ℕ → List ℕ → W → Option Error × W
  pub close_file : ℕ → W → W

-- The text in front of the first null byte; empty if there is none.
unfoldable pub up_to_null : Bytes → Option Bytes
up_to_null [] = none
up_to_null (c ∷ s) = elim (c == 0) [
  | true ↦ some []
  | false ↦ elim (up_to_null s) [ none ↦ none | some name ↦ some (c ∷ name) ]
]

abbrev pub or_empty : Option Bytes → Bytes
or_empty none = []
or_empty (some name) = name

module _ {W : Type 0} (sys : Terminals W) where
  -- `master.Close()` and the error.
  unfoldable pub give_up : ℕ → Error → W → Result PtyPair × W
  give_up master e w = (err e, sys.close_file master w)

  unfoldable pub open_slave : ℕ → Bytes → W → Result PtyPair × W
  unfolding give_up
  open_slave master [] w = give_up master (message (str "ptsname: empty slave name")) w
  open_slave master (c ∷ s) w =
      let (r, w') = sys.open_file (c ∷ s) w in
      elim r [
        | err e ↦ give_up master (wrap (str "open slave " ++ (c ∷ s)) e) w'
        | ok slave ↦ (ok (record { master = master; slave = slave }), w')
      ]

  unfoldable pub find_slave : ℕ → W → Result PtyPair × W
  unfolding open_slave up_to_null
  find_slave master w =
      let (r, w') = sys.name master w in
      elim r [
        | err e ↦ give_up master (wrap (str "ptsname") e) w'
        | ok buf ↦ open_slave master (or_empty (up_to_null buf)) w'
      ]

  unfoldable pub unlock_master : ℕ → W → Result PtyPair × W
  unfolding find_slave
  unlock_master master w =
      let (r, w') = sys.unlock master w in
      elim r [ some e ↦ give_up master (wrap (str "unlockpt") e) w' | none ↦ find_slave master w' ]

  unfoldable pub grant_master : ℕ → W → Result PtyPair × W
  unfolding unlock_master
  grant_master master w =
      let (r, w') = sys.grant master w in
      elim r [
        | some e ↦ give_up master (wrap (str "grantpt") e) w'
        | none ↦ unlock_master master w'
      ]

  -- `DefaultPTYOpener.Open`
  unfoldable pub open_pty : W → Result PtyPair × W
  unfolding grant_master
  open_pty w =
      let (r, w') = sys.open_file (str "/dev/ptmx") w in
      elim r [
        | err e ↦ (err (wrap (str "open /dev/ptmx") e), w')
        | ok master ↦ grant_master master w'
      ]

  -- `syncWindowSize`; `none` is nil.
  unfoldable pub sync_window_size : Option ℕ → Option ℕ → W → W
  sync_window_size none to w = w
  sync_window_size (some from) none w = w
  sync_window_size (some from) (some to) w =
      let (r, w') = sys.get_size from w in
      elim r [ err e ↦ w' | ok size ↦ (sys.set_size to size w').1 ]
