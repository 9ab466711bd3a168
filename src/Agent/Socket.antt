-- ===== src/Agent/Socket.antt =====
-- internal/agent/protocol.go: the socket file that an earlier agent left behind.
pub mod Cleaned
use shimux.Base.{if◌then◌else◌, Bytes, str, Error, wrap, socket_in_use, ℕ, Bool, Option, none, some}

-- The calls of `CleanStaleSocket`, over a world `W`.
pub record Sockets (W : Type 0) : Type 0 where
  -- whether `os.Stat(path)` says that there is no such file
  pub is_missing : Bytes → W → Bool × W
  -- `net.DialTimeout("unix", path, timeout)`, in milliseconds
  pub dial_timeout : Bytes → ℕ → W → Option Error × W
  pub close_conn : W → W
  -- `os.Remove(path)`: an error, and whether it says that there is no such file
  pub remove : Bytes → W → Option (Error × Bool) × W

abbrev pub stale_dial_timeout : ℕ
stale_dial_timeout = 500

-- The error of the removal that is passed on.
abbrev pub remove_error : Option (Error × Bool) → Option Error
remove_error none = none
remove_error (some (e, missing)) =
    if missing then none else some (wrap (str "remove stale socket") e)

module _ {W : Type 0} (sys : Sockets W) where
  unfoldable pub remove_stale : Bytes → W → Option Error × W
  remove_stale path w = let (r, w') = sys.remove path w in (remove_error r, w')

  -- The file is there: it is in use if something answers.
  unfoldable pub probe : Bytes → W → Option Error × W
  unfolding remove_stale
  probe path w =
      let (r, w') = sys.dial_timeout path stale_dial_timeout w in
      elim r [ some e ↦ remove_stale path w' | none ↦ (some socket_in_use, sys.close_conn w') ]

  unfoldable pub clean_stale_socket : Bytes → W → Option Error × W
  unfolding probe
  clean_stale_socket path w =
      let (missing, w') = sys.is_missing path w in if missing then (none, w') else probe path w'
