-- ===== src/Agent/Socket/Cleaned.antt =====
-- internal/agent/protocol.go: what `CleanStaleSocket` does to the files.
use shimux.Base.{
  if◌then◌else◌, Bytes, str, Error, wrap, socket_in_use, ℕ, ◌≡◌, refl, ◌∙◌, ◌≢◌, Bool, true, false,
  Option, none, some,
}
use shimux.Agent.Socket.{
  Sockets, stale_dial_timeout, remove_error, remove_stale, probe, clean_stale_socket,
}

module _ {W : Type 0} (sys : Sockets W) (exists : Bytes → W → Bool) where
  abbrev pub SameFiles : W → W → Type 0
  SameFiles w w' = (q : Bytes) → exists q w' ≡ exists q w

  -- The file at the path is not there, and every other one is as it was.
  abbrev pub Gone : Bytes → W → W → Type 0
  Gone path w w' = (exists path w' ≡ false) × ((q : Bytes) → q ≢ path → exists q w' ≡ exists q w)

  abbrev pub Removed : Bytes → W → Option (Error × Bool) → W → Type 0
  Removed path w none w' = Gone path w w'
  Removed path w (some (e, true)) w' = Gone path w w'
  Removed path w (some (e, false)) w' = SameFiles w w'

  -- How `CleanStaleSocket` ends: nothing was there, or what was there did not answer and is removed; it
  -- answered, and is left; it did not answer and could not be removed.
  pub data Cleaned (path : Bytes) (w w' : W) : Option Error → Type 0 where
    missing : exists path w ≡ false → Gone path w w' → Cleaned path w w' none
    stale :
        {e : Error} (w₁ : W)
        → (sys.dial_timeout path stale_dial_timeout w₁).0 ≡ some e
        → Gone path w w'
        → Cleaned path w w' none
    in_use :
        (w₁ : W)
        → (sys.dial_timeout path stale_dial_timeout w₁).0 ≡ none
        → SameFiles w w'
        → Cleaned path w w' (some socket_in_use)
    stuck :
        {e e₁ : Error} (w₁ : W)
        → (sys.dial_timeout path stale_dial_timeout w₁).0 ≡ some e₁
        → SameFiles w w'
        → Cleaned path w w' (some (wrap (str "remove stale socket") e))

-- What is documented of the calls: which files are there after each.
pub record SocketLaws {W : Type 0} (sys : Sockets W) (exists : Bytes → W → Bool) : Type 0 where
  pub stat_keeps : (path : Bytes) (w : W) → SameFiles sys exists w (sys.is_missing path w).1
  pub stat_right : (path : Bytes) (w : W) → (sys.is_missing path w).0 ≡ true → exists path w ≡ false
  pub dialled :
      (path : Bytes) (ms : ℕ) (w : W) → SameFiles sys exists w (sys.dial_timeout path ms w).1
  pub conn_closed : (w : W) → SameFiles sys exists w (sys.close_conn w)
  pub removed :
      (path : Bytes) (w : W) → Removed sys exists path w (sys.remove path w).0 (sys.remove path w).1

module _ {W : Type 0} (sys : Sockets W) (exists : Bytes → W → Bool) (laws : SocketLaws sys exists)
    (path : Bytes) (w : W) where
  abbrev Ends : Option Error × W → Type 0
  Ends x = Cleaned sys exists path w x.1 x.0

  remove_stale-Ends :
      (e : Error) (w₁ w₂ : W)
      → (sys.dial_timeout path stale_dial_timeout w₁).0 ≡ some e
      → SameFiles sys exists w w₂
      → Ends (remove_stale sys path w₂)
  unfolding remove_stale
  remove_stale-Ends e w₁ w₂ d same =
      by_removal (sys.remove path w₂).0 (sys.remove path w₂).1 (laws.removed path w₂)
    where
      by_removal :
          (r : Option (Error × Bool)) (w' : W)
          → Removed sys exists path w₂ r w'
          → Ends (remove_error r, w')
      by_removal none w' (g, k) = stale w₁ d (g, λ q n. k q n ∙ same q)
      by_removal (some (e', true)) w' (g, k) = stale w₁ d (g, λ q n. k q n ∙ same q)
      by_removal (some (e', false)) w' k = stuck w₁ d (λ q. k q ∙ same q)

  probe-Ends : (w₁ : W) → SameFiles sys exists w w₁ → Ends (probe sys path w₁)
  unfolding probe
  probe-Ends w₁ same =
      by_answer (sys.dial_timeout path stale_dial_timeout w₁).0
        (sys.dial_timeout path stale_dial_timeout w₁).1 refl
        (laws.dialled path stale_dial_timeout w₁)
    where
      by_answer :
          (r : Option Error) (w₂ : W)
          → (sys.dial_timeout path stale_dial_timeout w₁).0 ≡ r
          → SameFiles sys exists w₁ w₂
          → Ends (elim r as (λ x. Option Error × W) [
            | some e ↦ remove_stale sys path w₂
            | none ↦ (some socket_in_use, sys.close_conn w₂)
          ])
      by_answer (some e) w₂ d k = remove_stale-Ends e w₁ w₂ d (λ q. k q ∙ same q)
      by_answer none w₂ d k = in_use w₁ d (λ q. laws.conn_closed w₂ q ∙ k q ∙ same q)

  -- `CleanStaleSocket` removes a file only if nothing answered at it, and touches no other file. When
  -- it returns nil there is no file at the path; when the socket is in use or the file cannot be
  -- removed, every file is as it was.
  pub clean_stale_socket-Cleaned :
      Cleaned sys exists path w (clean_stale_socket sys path w).1 (clean_stale_socket sys path w).0
  unfolding clean_stale_socket
  clean_stale_socket-Cleaned =
      by_stat (sys.is_missing path w).0 (sys.is_missing path w).1 refl (laws.stat_keeps path w)
    where
      by_stat :
          (b : Bool) (w₁ : W)
          → (sys.is_missing path w).0 ≡ b
          → SameFiles sys exists w w₁
          → Ends (if b then (none, w₁) else probe sys path w₁)
      by_stat true w₁ h same =
          let gone = laws.stat_right path w h in missing gone (same path ∙ gone, λ q n. same q)
      by_stat false w₁ h same = probe-Ends w₁ same
