-- ===== src/Pane/Panes.antt =====
-- The panes as an abstract value: a list in the order of registration, and the next ID. This is the
-- contract of the operations of `Manager`.
use shimux.Base.{
  if◌then◌else◌, Bool-cases, All, Distinct, Bytes, equal, equal_iff, equal_refl, equal-false, ℕ,
  suc, ◌<◌, ◌≡◌, refl, sym, ap, ◌≢◌, inl, inr, Bool, true, false, Option, none, some, List, [], ◌∷◌,
  ◌++◌, arith,
}
use shimux.Base.Decimal.{decimal}
use mathlib.Core.Option
use shimux.Pane.{Pane, new_pane}

pub record Panes : Type 0 where
  pub items : List Pane
  pub next : ℕ

abbrev pub no_panes : Panes
no_panes = record { items = []; next = 0 }

abbrev pub ids : List Pane → List Bytes
ids [] = []
ids (p ∷ ps) = p.id ∷ ids ps

unfoldable pub find : Bytes → List Pane → Option Pane
find id [] = none
find id (p ∷ ps) = if equal p.id id then some p else find id ps

unfoldable pub without : Bytes → List Pane → List Pane
without id [] = []
without id (p ∷ ps) = let rest = without id ps in if equal p.id id then rest else p ∷ rest

unfoldable pub position : Bytes → List Pane → Option ℕ
position id [] = none
position id (p ∷ ps) = if equal p.id id then some 0 else Option.map suc (position id ps)

abbrev pub is_nil : List Pane → Bool
is_nil [] = true
is_nil (p ∷ ps) = false

-- The first pane is active, any later one is not.
unfoldable pub added : Bytes → Panes → Panes
added tty s = record {
  items = s.items ++ new_pane (decimal s.next) tty (is_nil s.items) ∷ [];
  next = suc s.next;
}

unfoldable pub removed : Bytes → Panes → Panes
removed id s = record s { items = without id s.items }

-- The pane with the ID is active, any other is not.
abbrev pub marked : Bytes → Pane → Pane
marked id p = record p { active = equal p.id id }

abbrev pub mark_all : Bytes → List Pane → List Pane
mark_all id [] = []
mark_all id (p ∷ ps) = marked id p ∷ mark_all id ps

unfoldable pub activated : Bytes → Panes → Panes
activated id s = record s { items = mark_all id s.items }

-- An ID that was given out before `n`.
abbrev pub Issued : ℕ → Bytes → Type 0
Issued n id = (k : ℕ) × (k < n) × (id ≡ decimal k)

pub find-concat :
    (id : Bytes) (ps : List Pane) (p : Pane)
    → All (λ j. j ≢ p.id) (ids ps)
    → find id (ps ++ p ∷ []) ≡ (if equal p.id id then some p else find id ps)
unfolding find
find-concat id [] p h = refl
find-concat id (q ∷ ps) p (hq, h) =
    ground (arith, find-concat id ps p h, equal_iff q.id id, equal_iff p.id id)

pub find-without :
    (id j : Bytes) (ps : List Pane)
    → find j (without id ps) ≡ (if equal id j then none else find j ps)
unfolding find without
find-without id j [] = ground arith
find-without id j (p ∷ ps) =
    ground (arith, find-without id j ps, equal_iff p.id id, equal_iff p.id j, equal_iff id j)

pub find-mark_all :
    (id j : Bytes) (ps : List Pane) → find j (mark_all id ps) ≡ Option.map (marked id) (find j ps)
unfolding find
find-mark_all id j [] = refl
find-mark_all id j (p ∷ ps) = ground (arith, find-mark_all id j ps)

pub ids-append : (ps qs : List Pane) → ids (ps ++ qs) ≡ ids ps ++ ids qs
ids-append [] qs = refl
ids-append (p ∷ ps) qs = ap (◌∷◌ p.id) (ids-append ps qs)

pub ids-mark_all : (id : Bytes) (ps : List Pane) → ids (mark_all id ps) ≡ ids ps
ids-mark_all id [] = refl
ids-mark_all id (p ∷ ps) = ap (◌∷◌ p.id) (ids-mark_all id ps)

pub All-without :
    (P : Bytes → Type 0) (id : Bytes) (ps : List Pane)
    → All P (ids ps)
    → All P (ids (without id ps))
unfolding without
All-without P id [] h = tt
All-without P id (p ∷ ps) (hp, h) = elim (Bool-cases (equal p.id id)) [
  | inl e ↦ rw e (All-without P id ps h)
  | inr e ↦ rw e (hp, All-without P id ps h)
]

pub Distinct-without :
    (id : Bytes) (ps : List Pane) → Distinct (ids ps) → Distinct (ids (without id ps))
unfolding without
Distinct-without id [] h = tt
Distinct-without id (p ∷ ps) (n, d) = elim (Bool-cases (equal p.id id)) [
  | inl e ↦ rw e (Distinct-without id ps d)
  | inr e ↦ rw e (All-without (λ j. j ≢ p.id) id ps n, Distinct-without id ps d)
]

found_behind :
    (p : Pane) (found ps : List Pane)
    → All (λ y. y ≢ p.id) (ids ps)
    → All (λ q. find q.id found ≡ some q) ps
    → All (λ q. find q.id (p ∷ found) ≡ some q) ps
unfolding find
found_behind p found [] n h = tt
found_behind p found (q ∷ ps) (nq, n) (hq, h) =
    (rw (equal-false p.id q.id (λ e. nq (sym e))) hq, found_behind p found ps n h)

-- Each pane is found under its own ID.
pub find_self : (ps : List Pane) → Distinct (ids ps) → All (λ p. find p.id ps ≡ some p) ps
find_self [] d = tt
find_self (p ∷ ps) (n, d) = (unfold find in rw equal_refl, found_behind p ps ps n (find_self ps d))
