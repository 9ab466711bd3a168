-- ===== src/Ghostty.antt =====
-- internal/ghostty: the interface to the terminal (controller.go) and the detection of the
-- environment (detect.go).
pub mod KeySim
pub mod Mock
use shimux.Base.{
  if◌then◌else◌, Bytes, str, equal, is, equal_iff, Error, ◌≡◌, ◌≢◌, Bool, true, false, not, ◌||◌,
  Option, [], arith,
}

-- An integer in the source; the four constants are the values that the program makes.
pub data SplitDirection : Type 0 where
  split_down split_right split_left split_up : SplitDirection

pub data GotoDirection : Type 0 where
  goto_next goto_previous : GotoDirection

-- `Controller`, over a world `W` that its calls change. A call returns nil or an error.
pub record Controller (W : Type 0) : Type 0 where
  pub new_window : W → Option Error × W
  pub new_tab : W → Option Error × W
  pub new_split : SplitDirection → W → Option Error × W
  pub goto_split : GotoDirection → W → Option Error × W
  pub close_surface : W → Option Error × W

-- `os.Getenv`: the empty text for a variable that is not set.
abbrev pub Environment : Type 0
Environment = Bytes → Bytes

unfoldable pub is_inside_ghostty : Environment → Bool
is_inside_ghostty getenv =
    is (getenv (str "TERM_PROGRAM")) "ghostty" || not (is (getenv (str "GHOSTTY_RESOURCES_DIR")) "")

unfoldable pub ghostty_version : Environment → Bytes
unfolding is_inside_ghostty
ghostty_version getenv =
    if not (is_inside_ghostty getenv) then [] else getenv (str "TERM_PROGRAM_VERSION")

unfoldable pub is_nested_terminal : Environment → Bool
unfolding equal
is_nested_terminal getenv = not (is (getenv (str "TMUX")) "")

pub record EnvironmentInfo : Type 0 where
  pub inside_ghostty : Bool
  pub version : Bytes
  pub nested_terminal : Bool
  pub os : Bytes
  pub arch : Bytes
  pub shimux_session : Bytes
  pub shimux_active : Bool
  pub resources_dir : Bytes

unfoldable pub detect_environment : Bytes → Bytes → Environment → EnvironmentInfo
unfolding is_inside_ghostty ghostty_version is_nested_terminal
detect_environment goos goarch getenv = record {
  inside_ghostty = is_inside_ghostty getenv;
  version = ghostty_version getenv;
  nested_terminal = is_nested_terminal getenv;
  os = goos;
  arch = goarch;
  shimux_session = getenv (str "SHIMUX_SESSION");
  shimux_active = is (getenv (str "SHIMUX")) "1";
  resources_dir = getenv (str "GHOSTTY_RESOURCES_DIR");
}

-- A version is reported only inside Ghostty, and then it is that of the terminal; outside, the
-- terminal program is not Ghostty and no resources directory is set.
pub detect_environment_lem :
    (goos goarch : Bytes) (getenv : Environment)
    → let info = detect_environment goos goarch getenv in
      (info.inside_ghostty ≡ true → info.version ≡ getenv (str "TERM_PROGRAM_VERSION"))
      × (info.inside_ghostty ≡ false
          → (info.version ≡ [])
            × (info.resources_dir ≡ [])
            × (getenv (str "TERM_PROGRAM") ≢ str "ghostty"))
unfolding detect_environment
detect_environment_lem goos goarch getenv = ground (
  arith,
  equal_iff (getenv (str "TERM_PROGRAM")) (str "ghostty"),
  equal_iff (getenv (str "GHOSTTY_RESOURCES_DIR")) (str ""),
)
