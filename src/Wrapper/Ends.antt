-- ===== src/Wrapper/Ends.antt =====
-- internal/wrapper/wrapper.go: how a run ends, and what it leaves in the temporary directory.
use shimux.Base.{
  Bytes, str, equal, Error, wrap, ok, err, ◌≡◌, ◌≢◌, ◌⊎◌, Bool, false, not, ◌&&◌, ◌||◌, Option,
  none, some, List, [], ◌∷◌,
}
use shimux.Base.FilePath.{join}
use shimux.Pane.{register}
use shimux.Wrapper.Run.{System, Wrapper, child_env}

-- What is documented of the calls: `is_entry` tells the entries of the temporary directory by their
-- paths, `target_of` the text of a symbolic link. Nothing is asked of the child.
pub record TempLaws {W : Type 0} (sys : System W) (is_entry : Bytes → W → Bool)
    (target_of : Bytes → W → Option Bytes) : Type 0 where
  pub unmade :
      (pattern : Bytes) (w : W) {e : Error}
      → (sys.make_temp_dir pattern w).0 ≡ err e
      → (x : Bytes) → is_entry x (sys.make_temp_dir pattern w).1 ≡ is_entry x w
  pub named :
      (pattern : Bytes) (w : W) {dir : Bytes} → (sys.make_temp_dir pattern w).0 ≡ ok dir → dir ≢ []
  pub fresh :
      (pattern : Bytes) (w : W) {dir : Bytes}
      → (sys.make_temp_dir pattern w).0 ≡ ok dir
      → is_entry dir w ≡ false
  pub made :
      (pattern : Bytes) (w : W) {dir : Bytes}
      → (sys.make_temp_dir pattern w).0 ≡ ok dir
      → (x : Bytes) → is_entry x (sys.make_temp_dir pattern w).1 ≡ (equal x dir || is_entry x w)
  pub linked :
      (target link : Bytes) (w : W) (x : Bytes)
      → is_entry x (sys.symlink target link w).1 ≡ is_entry x w
  pub link_reads :
      (target link : Bytes) (w : W)
      → (sys.symlink target link w).0 ≡ none
      → target_of link (sys.symlink target link w).1 ≡ some target
  pub removed :
      (dir : Bytes) (w : W) (x : Bytes)
      → is_entry x (sys.remove_all dir w) ≡ (not (equal x dir) && is_entry x w)

module _ {W : Type 0} (sys : System W) (is_entry : Bytes → W → Bool)
    (target_of : Bytes → W → Option Bytes) (args : List Bytes) (wr : Wrapper W) (w : W) where
  abbrev pub link_path : Bytes → Bytes
  link_path dir = join (dir ∷ str "tmux" ∷ [])

  -- How a run ends in the world `w'`, with its result and the wrapper after it.
  pub data Ends (w' : W) : Option Error → Wrapper W → Type 0 where
    -- there is no command or no directory: no child was run, and the entries are what they were
    nothing_made :
        {e : Error}
        → (args ≡ [])
          ⊎ ((e₁ : Error) × ((sys.make_temp_dir (str "shimux-wrapper-") w).0 ≡ err e₁)
              × (e ≡ wrap (str "setup") e₁))
        → ((x : Bytes) → is_entry x w' ≡ is_entry x w)
        → Ends w' (some e) wr
    -- the link could not be made: no child was run, and a new directory is left
    left_behind :
        {e : Error} {wr' : Wrapper W} (dir : Bytes) (w₁ : W)
        → is_entry dir w ≡ false
        → (sys.symlink wr.shimux_path (link_path dir) w₁).0 ≡ some e
        → ((x : Bytes) → is_entry x w' ≡ (equal x dir || is_entry x w))
        → Ends w' (some (wrap (str "setup") e)) wr'
    -- the child was run in the world `w₁`, with a link to the program in a new directory that is the
    -- wrapper's, with the first pane registered; the result is the child's, and the entries are what
    -- the child left, without the directory
    child_ran :
        {r : Option Error} {wr' : Wrapper W} (dir : Bytes) (w₁ : W)
        → is_entry dir w ≡ false
        → ((x : Bytes) → is_entry x w₁ ≡ (equal x dir || is_entry x w))
        → target_of (link_path dir) w₁ ≡ some wr.shimux_path
        → wr'.tmp_dir ≡ dir
        → wr'.manager ≡ (register [] wr.manager).1
        → r ≡ (sys.run_child args (child_env sys wr') w₁).0
        → ((x : Bytes)
            → is_entry x w'
              ≡ (not (equal x dir) && is_entry x (sys.run_child args (child_env sys wr') w₁).1))
        → Ends w' r wr'

module _ {W : Type 0} (sys : System W) (is_entry : Bytes → W → Bool)
    (target_of : Bytes → W → Option Bytes) (laws : TempLaws sys is_entry target_of) where
  abbrev EndsIn : List Bytes → Wrapper W → W → Option Error × Wrapper W × W → Type 0
  EndsIn args wr w x = Ends sys is_entry target_of args wr w x.2 x.0 x.1
