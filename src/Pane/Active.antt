-- ===== src/Pane/Active.antt =====
-- internal/pane/manager.go: the active pane. Go visits a map in no fixed order, so `GetActive` is
-- taken over any list of the map's values.
use shimux.Base.{
  if◌then◌else◌, Bool-cases, Option-cases, All, All-append, Distinct, In, In-All, Bytes, equal,
  equal_iff, equal-false, ◌≡◌, refl, sym, ap, subst, ◌∙◌, ◌≢◌, inl, inr, Bool, true, false, none,
  some, List, [], ◌∷◌, ◌++◌,
}
use shimux.Base.Maps.{lookup}
use shimux.Pane.{Pane, Manager, get_active_in}
use shimux.Pane.Panes.{
  Panes, ids, find, without, is_nil, added, removed, mark_all, activated, find_self,
}
use shimux.Pane.Refines.{Represents}

-- At most one pane is active.
abbrev pub OneActive : List Pane → Type 0
OneActive [] = Unit
OneActive (p ∷ ps) = (p.active ≡ true → All (λ q. q.active ≡ false) ps) × OneActive ps

inactive_everywhere :
    (id : Bytes) (ps : List Pane)
    → All (λ j. j ≢ id) (ids ps)
    → All (λ q. q.active ≡ false) (mark_all id ps)
inactive_everywhere id [] h = tt
inactive_everywhere id (p ∷ ps) (hp, h) = (equal-false p.id id hp, inactive_everywhere id ps h)

OneActive-mark_all : (id : Bytes) (ps : List Pane) → Distinct (ids ps) → OneActive (mark_all id ps)
OneActive-mark_all id [] d = tt
OneActive-mark_all id (p ∷ ps) (n, d) = (
  λ e.
      inactive_everywhere id ps
        (subst (λ x. All (λ j. j ≢ x) (ids ps)) ((equal_iff p.id id).0 e) n),
  OneActive-mark_all id ps d,
)

All-without_items :
    (P : Pane → Type 0) (id : Bytes) (ps : List Pane) → All P ps → All P (without id ps)
unfolding without
All-without_items P id [] h = tt
All-without_items P id (p ∷ ps) (hp, h) = elim (Bool-cases (equal p.id id)) [
  | inl e ↦ rw e (All-without_items P id ps h)
  | inr e ↦ rw e (hp, All-without_items P id ps h)
]

OneActive-without : (id : Bytes) (ps : List Pane) → OneActive ps → OneActive (without id ps)
unfolding without
OneActive-without id [] h = tt
OneActive-without id (p ∷ ps) (n, h) = elim (Bool-cases (equal p.id id)) [
  | inl e ↦ rw e (OneActive-without id ps h)
  | inr e ↦
      rw e (λ a. All-without_items (λ q. q.active ≡ false) id ps (n a), OneActive-without id ps h)
]

OneActive-concat :
    (ps : List Pane) (p : Pane) → p.active ≡ false → OneActive ps → OneActive (ps ++ p ∷ [])
OneActive-concat [] p e h = (λ a. tt, tt)
OneActive-concat (q ∷ ps) p e (n, h) =
    (λ a. All-append (λ q. q.active ≡ false) ps (p ∷ []) (n a) (e, tt), OneActive-concat ps p e h)

OneActive-append_new :
    (ps : List Pane) (p : Pane) → p.active ≡ is_nil ps → OneActive ps → OneActive (ps ++ p ∷ [])
OneActive-append_new [] p e h = (λ a. tt, tt)
OneActive-append_new (q ∷ ps) p e h = OneActive-concat (q ∷ ps) p e h

OneActive-added : (tty : Bytes) (s : Panes) → OneActive s.items → OneActive (added tty s).items
unfolding added
OneActive-added tty s h = OneActive-append_new s.items _ refl h

-- Every way to change the panes keeps at most one of them active: `Register`, `Unregister` and, with
-- the pane that it names, `SetActive`.
pub OneActive-kept :
    (s : Panes) (arg : Bytes)
    → Distinct (ids s.items)
    → OneActive s.items
    → OneActive (added arg s).items
      × OneActive (removed arg s).items
      × OneActive (activated arg s).items
unfolding removed activated
OneActive-kept s arg d h =
    (OneActive-added arg s h, OneActive-without arg s.items h, OneActive-mark_all arg s.items d)

-- `visited` holds the values of the map, in some order.
abbrev pub Visits : Manager → List Pane → Type 0
Visits m visited =
    (p : Pane)
    → (In p visited → lookup p.id m.panes ≡ some p) × (lookup p.id m.panes ≡ some p → In p visited)

get_active_in-head :
    (q : Pane) (ps : List Pane) (b : Bool)
    → q.active ≡ b
    → get_active_in (q ∷ ps) ≡ (if b then some q else get_active_in ps)
unfolding get_active_in
get_active_in-head q ps b a = ap (λ (x : Bool). if x then some q else get_active_in ps) a

get_active_in-some :
    (ps : List Pane) {p : Pane} → get_active_in ps ≡ some p → In p ps × (p.active ≡ true)
unfolding get_active_in
get_active_in-some [] e = cc
get_active_in-some (q ∷ ps) {p} e = elim (Bool-cases q.active) [
  | inl a ↦
      let same : some q ≡ some p = sym (get_active_in-head q ps true a) ∙ e in
      let same' : q ≡ p = cc in (inl same', sym (ap (λ (x : Pane). x.active) same') ∙ a)
  | inr a ↦
      let rest = get_active_in-some ps (sym (get_active_in-head q ps false a) ∙ e) in
      (inr rest.0, rest.1)
]

get_active_in-none : (ps : List Pane) → get_active_in ps ≡ none → All (λ p. p.active ≡ false) ps
unfolding get_active_in
get_active_in-none [] e = tt
get_active_in-none (q ∷ ps) e = elim (Bool-cases q.active) [
  | inl a ↦ cc
  | inr a ↦ (a, get_active_in-none ps (rw a at e))
]

get_active_in_unique :
    (ps : List Pane) (p : Pane)
    → OneActive ps
    → In p ps
    → p.active ≡ true
    → get_active_in ps ≡ some p
unfolding get_active_in
get_active_in_unique [] p o i a = absurd i
get_active_in_unique (q ∷ ps) p (n, o) (inl e) a =
    get_active_in-head q ps true (ap (λ (x : Pane). x.active) e ∙ a) ∙ ap some e
get_active_in_unique (q ∷ ps) p (n, o) (inr i) a = elim (Bool-cases q.active) [
  | inl b ↦ let off : p.active ≡ false = In-All (λ (x : Pane). x.active ≡ false) ps (n b) i in cc
  | inr b ↦ rw b (get_active_in_unique ps p o i a)
]

pub find-In : (id : Bytes) (ps : List Pane) {p : Pane} → find id ps ≡ some p → In p ps
unfolding find
find-In id [] e = cc
find-In id (q ∷ ps) {p} e = elim (Bool-cases (equal q.id id)) [
  | inl a ↦ let same : some q ≡ some p = rw a at e in inl (cc)
  | inr a ↦ inr (find-In id ps (rw a at e))
]

-- While at most one pane is active, `GetActive` does not depend on the order in which Go visits the
-- map: any order gives the first active pane in the order of registration, or nil if none is active.
pub get_active-any_order :
    {m : Manager} {s : Panes} (visited : List Pane)
    → Represents m s
    → OneActive s.items
    → Visits m visited
    → get_active_in visited ≡ get_active_in s.items
get_active-any_order {m} {s} visited r o v = elim (Option-cases (get_active_in visited)) [
  | inl none_there ↦ elim (Option-cases (get_active_in s.items)) [
    | inl none_here ↦ none_there ∙ sym none_here
    | inr (p, here) ↦
        let found = get_active_in-some s.items here in
        let off : p.active ≡ false =
          In-All (λ (x : Pane). x.active ≡ false) visited (get_active_in-none visited none_there)
            ((v p).1 (
              r.lookup_is p.id
              ∙ In-All (λ (x : Pane). find x.id s.items ≡ some x) s.items
                  (find_self s.items r.distinct) found.0)) in
        absurd (true_false (sym found.1 ∙ off))
  ]
  | inr (p, there) ↦
      let found = get_active_in-some visited there in
      there
      ∙ sym (
          get_active_in_unique s.items p o
            (find-In p.id s.items (sym (r.lookup_is p.id) ∙ (v p).0 found.0)) found.1)
]
  where
    true_false : true ≡ false → ⊥
    true_false e = cc
