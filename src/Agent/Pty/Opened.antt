-- ===== src/Agent/Pty/Opened.antt =====
-- internal/agent/agent.go: the files that are open after `DefaultPTYOpener.Open`.
use shimux.Base.{
  ◌==◌, ==_iff, Bool-cases, Bytes, str, Error, message, wrap, Result, ok, err, ℕ, ◌≡◌, refl, sym,
  ap, ◌∙◌, inl, inr, Bool, false, not, ◌&&◌, ◌||◌, Option, none, some, [], ◌∷◌, ◌++◌, arith,
}
use shimux.Agent.Pty.{
  PtyPair, Terminals, give_up, open_slave, find_slave, unlock_master, grant_master, open_pty,
  or_empty, up_to_null,
}

module _ {W : Type 0} (is_open : ℕ → W → Bool) where
  abbrev pub Same : W → W → Type 0
  Same w w' = (x : ℕ) → is_open x w' ≡ is_open x w

  -- A file was opened, under a descriptor that was not in use, or none was.
  abbrev pub IsOpened : Result ℕ → W → W → Type 0
  IsOpened (err e) w w' = Same w w'
  IsOpened (ok fd) w w' =
      (is_open fd w ≡ false) × ((x : ℕ) → is_open x w' ≡ (x == fd || is_open x w))

  -- Two files were opened, or none.
  abbrev pub IsPair : Result PtyPair → W → W → Type 0
  IsPair (err e) w w' = Same w w'
  IsPair (ok p) w w' =
      (is_open p.master w ≡ false)
      × (is_open p.slave w ≡ false)
      × ((p.slave == p.master) ≡ false)
      × ((x : ℕ) → is_open x w' ≡ (x == p.slave || (x == p.master || is_open x w)))

-- What is documented of the calls: which files are open after each.
pub record FileLaws {W : Type 0} (sys : Terminals W) (is_open : ℕ → W → Bool) : Type 0 where
  pub opened :
      (name : Bytes) (w : W) → IsOpened is_open (sys.open_file name w).0 w (sys.open_file name w).1
  pub granted : (fd : ℕ) (w : W) → Same is_open w (sys.grant fd w).1
  pub unlocked : (fd : ℕ) (w : W) → Same is_open w (sys.unlock fd w).1
  pub named : (fd : ℕ) (w : W) → Same is_open w (sys.name fd w).1
  pub closed :
      (fd : ℕ) (w : W) (x : ℕ) → is_open x (sys.close_file fd w) ≡ (not (x == fd) && is_open x w)

module _ {W : Type 0} (sys : Terminals W) (is_open : ℕ → W → Bool)
    (laws : FileLaws sys is_open) where
  -- The master was opened since `w`.
  abbrev HasMaster : ℕ → W → W → Type 0
  HasMaster m w w' = IsOpened is_open (ok m) w w'

  master_kept : (m : ℕ) (w w₁ w₂ : W) → HasMaster m w w₁ → Same is_open w₁ w₂ → HasMaster m w w₂
  master_kept m w w₁ w₂ (fresh, h) s = (fresh, λ x. s x ∙ h x)

  give_up-IsPair :
      (m : ℕ) (e : Error) (w w' : W)
      → HasMaster m w w'
      → IsPair is_open (give_up sys m e w').0 w (give_up sys m e w').1
  unfolding give_up
  give_up-IsPair m e w w' (fresh, h) x = elim (Bool-cases (x == m)) [
    | inl same ↦
        laws.closed m w' x ∙ rw same (sym fresh ∙ ap (λ y. is_open y w) (sym ((==_iff x m).0 same)))
    | inr other ↦ laws.closed m w' x ∙ rw other (h x ∙ rw other refl)
  ]

  -- What is shown of each stage, from the world `w` before the opening.
  abbrev Paired : W → Result PtyPair × W → Type 0
  Paired w x = IsPair is_open x.0 w x.1

  open_slave-Paired :
      (m : ℕ) (name : Bytes) (w w₁ : W) → HasMaster m w w₁ → Paired w (open_slave sys m name w₁)
  unfolding open_slave
  open_slave-Paired m [] w w₁ h =
      give_up-IsPair m (message (str "ptsname: empty slave name")) w w₁ h
  open_slave-Paired m (c ∷ s) w w₁ (fresh, h) =
      by_file (sys.open_file (c ∷ s) w₁).0 (sys.open_file (c ∷ s) w₁).1 (laws.opened (c ∷ s) w₁)
    where
      by_file :
          (r : Result ℕ) (w₂ : W)
          → IsOpened is_open r w₁ w₂
          → Paired w (elim r as (λ x. Result PtyPair × W) [
            | err e ↦ give_up sys m (wrap (str "open slave " ++ (c ∷ s)) e) w₂
            | ok slave ↦ (ok (record { master = m; slave = slave }), w₂)
          ])
      by_file (err e) w₂ same =
          give_up-IsPair m (wrap (str "open slave " ++ (c ∷ s)) e) w w₂
            (master_kept m w w₁ w₂ (fresh, h) same)
      by_file (ok slave) w₂ (new, k) =
          let apart = h slave in
          (
            fresh,
            ground (arith, apart, new),
            ground (arith, apart, new),
            λ x. k x ∙ ap (λ b. x == slave || b) (h x),
          )

  find_slave-Paired : (m : ℕ) (w w₁ : W) → HasMaster m w w₁ → Paired w (find_slave sys m w₁)
  unfolding find_slave
  find_slave-Paired m w w₁ h =
      by_name (sys.name m w₁).0 (sys.name m w₁).1
        (master_kept m w w₁ (sys.name m w₁).1 h (laws.named m w₁))
    where
      by_name :
          (r : Result Bytes) (w₂ : W)
          → HasMaster m w w₂
          → Paired w (elim r as (λ x. Result PtyPair × W) [
            | err e ↦ give_up sys m (wrap (str "ptsname") e) w₂
            | ok buf ↦ open_slave sys m (or_empty (up_to_null buf)) w₂
          ])
      by_name (err e) w₂ k = give_up-IsPair m (wrap (str "ptsname") e) w w₂ k
      by_name (ok buf) w₂ k = open_slave-Paired m (or_empty (up_to_null buf)) w w₂ k

  unlock_master-Paired : (m : ℕ) (w w₁ : W) → HasMaster m w w₁ → Paired w (unlock_master sys m w₁)
  unfolding unlock_master
  unlock_master-Paired m w w₁ h =
      by_error (sys.unlock m w₁).0 (sys.unlock m w₁).1
        (master_kept m w w₁ (sys.unlock m w₁).1 h (laws.unlocked m w₁))
    where
      by_error :
          (r : Option Error) (w₂ : W)
          → HasMaster m w w₂
          → Paired w (elim r as (λ x. Result PtyPair × W) [
            | some e ↦ give_up sys m (wrap (str "unlockpt") e) w₂
            | none ↦ find_slave sys m w₂
          ])
      by_error (some e) w₂ k = give_up-IsPair m (wrap (str "unlockpt") e) w w₂ k
      by_error none w₂ k = find_slave-Paired m w w₂ k

  grant_master-Paired : (m : ℕ) (w w₁ : W) → HasMaster m w w₁ → Paired w (grant_master sys m w₁)
  unfolding grant_master
  grant_master-Paired m w w₁ h =
      by_error (sys.grant m w₁).0 (sys.grant m w₁).1
        (master_kept m w w₁ (sys.grant m w₁).1 h (laws.granted m w₁))
    where
      by_error :
          (r : Option Error) (w₂ : W)
          → HasMaster m w w₂
          → Paired w (elim r as (λ x. Result PtyPair × W) [
            | some e ↦ give_up sys m (wrap (str "grantpt") e) w₂
            | none ↦ unlock_master sys m w₂
          ])
      by_error (some e) w₂ k = give_up-IsPair m (wrap (str "grantpt") e) w w₂ k
      by_error none w₂ k = unlock_master-Paired m w w₂ k

  -- The opener leaks nothing: if it returns an error, at whichever of its five calls, exactly the files
  -- are open that were open before; if it returns a pair, the master and the slave are open in
  -- addition, under two different descriptors that were not in use.
  pub open_pty-IsPair : (w : W) → IsPair is_open (open_pty sys w).0 w (open_pty sys w).1
  unfolding open_pty
  open_pty-IsPair w =
      by_file (sys.open_file (str "/dev/ptmx") w).0 (sys.open_file (str "/dev/ptmx") w).1
        (laws.opened (str "/dev/ptmx") w)
    where
      by_file :
          (r : Result ℕ) (w₁ : W)
          → IsOpened is_open r w w₁
          → Paired w (elim r as (λ x. Result PtyPair × W) [
            | err e ↦ (err (wrap (str "open /dev/ptmx") e), w₁)
            | ok m ↦ grant_master sys m w₁
          ])
      by_file (err e) w₁ same = same
      by_file (ok m) w₁ h = grant_master-Paired m w w₁ h
