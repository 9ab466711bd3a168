-- ===== src/Agent/PathBound.antt =====
-- internal/agent/protocol.go: the length of the socket paths.
use shimux.Base.{
  leb, if◌then◌else◌, length, take, length-append, Bytes, str, ℕ, zero, suc, ◌+◌, ◌≤◌, ◌≡◌, refl,
  Bool, true, false, List, [], ◌∷◌, ◌++◌, arith,
}
use shimux.Base.FilePath.Lengths.{length-join}
use shimux.Agent.Client.{Host, max_sun_path, socket_dir, socket_path, hex, safe_socket_path}

length-take : {A : Type 0} (n : ℕ) (xs : List A) → length (take n xs) ≤ n
length-take zero xs = omega arith
length-take (suc n) [] = omega arith
length-take (suc n) (x ∷ xs) = omega (arith, length-take n xs)

length-socket_path :
    (host : Host) (session pane_id : Bytes)
    → length (socket_path host session pane_id)
      ≤ length host.temp_dir + length session + length pane_id + 19
unfolding socket_path socket_dir
length-socket_path host session pane_id = omega (
  arith,
  length-join (socket_dir host session ∷ (str "pane-" ++ (pane_id ++ str ".sock")) ∷ []),
  length-join (host.temp_dir ∷ str "shimux" ∷ session ∷ []),
  length-append pane_id (str ".sock"),
)

length-either :
    (b : Bool) (x y : Bytes) (n : ℕ)
    → (b ≡ true → length x ≤ n)
    → length y ≤ n
    → length (if b then x else y) ≤ n
length-either true x y n h k = h refl
length-either false x y n h k = k

-- Whatever the session, `SafeSocketPath` gives a path of at most 104 bytes, if the temporary
-- directory and the ID of the pane have at most 69 bytes together.
pub length-safe_socket_path :
    (host : Host) (session pane_id : Bytes)
    → length host.temp_dir + length pane_id ≤ 69
    → length (safe_socket_path host session pane_id) ≤ max_sun_path
unfolding safe_socket_path
length-safe_socket_path host session pane_id h =
    length-either (leb (length (socket_path host session pane_id)) max_sun_path)
      (socket_path host session pane_id)
      (socket_path host (take 16 (hex (host.sha256 session))) pane_id) max_sun_path (ground arith)
      (omega (
        arith,
        h,
        length-socket_path host (take 16 (hex (host.sha256 session))) pane_id,
        length-take 16 (hex (host.sha256 session)),
      ))
