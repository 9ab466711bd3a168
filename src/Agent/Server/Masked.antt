-- ===== src/Agent/Server/Masked.antt =====
-- internal/agent/protocol.go: the file mask under which `ListenAndServe` makes the socket.
use shimux.Base.{Bytes, str, Error, wrap, ℕ, ◌≡◌, refl, ◌∙◌, Option, none, some, ◌++◌}
use shimux.Base.FilePath.{dir_name}
use shimux.Agent.Server.{Listening, listen_under_mask, start_serving, listen_and_serve}

-- What is documented of the calls: the mask of the process after each.
pub record MaskLaws {W : Type 0} (sys : Listening W) (mask : W → ℕ) : Type 0 where
  pub dirs_made : (path : Bytes) (mode : ℕ) (w : W) → mask (sys.make_dirs path mode w).1 ≡ mask w
  pub old_mask : (m : ℕ) (w : W) → (sys.umask m w).0 ≡ mask w
  pub new_mask : (m : ℕ) (w : W) → mask (sys.umask m w).1 ≡ m
  pub listened : (path : Bytes) (w : W) → mask (sys.listen path w).1 ≡ mask w
  pub served : (w : W) → mask (sys.serve w) ≡ mask w

abbrev pub listen_error : Bytes → Option Error → Option Error
listen_error path none = none
listen_error path (some e) = some (wrap (str "listen on " ++ path) e)

-- Either the directory cannot be made, or the socket is asked for once, under the mask 0077.
pub data Asked {W : Type 0} (sys : Listening W) (mask : W → ℕ) (path : Bytes) (w : W)
    : Option Error → Type 0 where
  no_dir :
      {e : Error}
      → (sys.make_dirs (dir_name path) 0o700 w).0 ≡ some e
      → Asked sys mask path w (some (wrap (str "create socket directory") e))
  asked :
      {r : Option Error} (w₁ : W)
      → mask w₁ ≡ 0o077
      → r ≡ listen_error path (sys.listen path w₁).0
      → Asked sys mask path w r

module _ {W : Type 0} (sys : Listening W) (mask : W → ℕ) (laws : MaskLaws sys mask)
    (path : Bytes) where
  listen_under_mask-mask : (w : W) → mask (listen_under_mask sys path w).1 ≡ mask w
  unfolding listen_under_mask
  listen_under_mask-mask w = laws.new_mask _ _ ∙ laws.old_mask 0o077 w

  start_serving-mask : (w : W) → mask (start_serving sys path w).1 ≡ mask w
  unfolding start_serving
  start_serving-mask w =
      by_result (listen_under_mask sys path w).0 (listen_under_mask sys path w).1
        (listen_under_mask-mask w)
    where
      by_result :
          (r : Option Error) (w' : W)
          → mask w' ≡ mask w
          → mask
              (elim r as (λ x. Option Error × W) [
                | some e ↦ (some (wrap (str "listen on " ++ path) e), w')
                | none ↦ (none, sys.serve w')
              ]).1
            ≡ mask w
      by_result (some e) w' k = k
      by_result none w' k = laws.served w' ∙ k

  start_serving-error :
      (w : W)
      → (start_serving sys path w).0 ≡ listen_error path (sys.listen path (sys.umask 0o077 w).1).0
  unfolding start_serving listen_under_mask
  start_serving-error w = by_result (sys.listen path (sys.umask 0o077 w).1).0 _
    where
      by_result :
          (r : Option Error) (w' : W)
          → (elim r as (λ x. Option Error × W) [
            | some e ↦ (some (wrap (str "listen on " ++ path) e), w')
            | none ↦ (none, sys.serve w')
          ]).0
            ≡ listen_error path r
      by_result (some e) w' = refl
      by_result none w' = refl

  -- The socket is made under the mask 0077, so that no other user can open it, and the mask is put back:
  -- whether `ListenAndServe` succeeds or fails, and at whichever call, the mask is what it was.
  pub listen_and_serve-Asked :
      (w : W)
      → (mask (listen_and_serve sys path w).1 ≡ mask w)
        × Asked sys mask path w (listen_and_serve sys path w).0
  unfolding listen_and_serve
  listen_and_serve-Asked w =
      by_dirs (sys.make_dirs (dir_name path) 0o700 w).0 (sys.make_dirs (dir_name path) 0o700 w).1
        refl (laws.dirs_made (dir_name path) 0o700 w)
    where
      by_dirs :
          (r : Option Error) (w' : W)
          → (sys.make_dirs (dir_name path) 0o700 w).0 ≡ r
          → mask w' ≡ mask w
          → let x : Option Error × W = elim r [
            | some e ↦ (some (wrap (str "create socket directory") e), w')
            | none ↦ start_serving sys path w'
          ] in
            (mask x.1 ≡ mask w) × Asked sys mask path w x.0
      by_dirs (some e) w' c k = (k, no_dir c)
      by_dirs none w' c k = (
        start_serving-mask w' ∙ k,
        asked (sys.umask 0o077 w').1 (laws.new_mask 0o077 w') (start_serving-error w'),
      )
