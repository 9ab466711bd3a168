-- ===== src/Pane/Refines.antt =====
-- internal/pane/manager.go: the map, the order and the counter of a `Manager` against the
-- list of `Panes`.
use shimux.Base.{
  if◌then◌else◌, Bool-cases, Option-cases, All, All-append, All-map, Distinct, Distinct-concat,
  Bytes, equal, equal_iff, equal_refl, equal-false, pane_not_found, Result, ok, err, ℕ, suc, ◌+◌,
  ◌<◌, ◌≡◌, refl, sym, ap, subst, ◌∙◌, ◌≢◌, inl, inr, Bool, Option, none, some, List, [], ◌∷◌, ◌++◌,
  arith,
}
use mathlib.Core.Option
use mathlib.Core.Path.{ap₂}
use shimux.Base.Int.{pos, max_int, increment}
use shimux.Base.Decimal.{decimal, itoa, itoa-pos, decimal_inj}
use shimux.Base.Maps.{lookup, remove, map_values, lookup-put, lookup-remove, lookup-map_values}
use shimux.Pane.{
  Pane, Manager, new_manager, new_pane, mark, is_empty, register, drop_id, unregister, get,
  list_ids, list, index_from, index_of, set_active,
}
use shimux.Pane.Panes.{
  Panes, no_panes, ids, find, without, position, is_nil, added, removed, mark_all, activated,
  Issued, find-concat, find-without, find-mark_all, ids-append, ids-mark_all, All-without,
  Distinct-without, find_self,
}

-- The manager `m` holds the abstract panes `s`.
pub record Represents (m : Manager) (s : Panes) : Type 0 where
  pub order_is : m.order ≡ ids s.items
  pub lookup_is : (id : Bytes) → lookup id m.panes ≡ find id s.items
  pub distinct : Distinct (ids s.items)
  pub issued : All (Issued s.next) (ids s.items)
  pub next_is : m.next_pane_id ≡ pos s.next

pub Represents-new_manager : (file : Bytes) → Represents (new_manager file) no_panes
unfolding lookup find
Represents-new_manager file = record {
  order_is = refl;
  lookup_is = λ id. refl;
  distinct = tt;
  issued = tt;
  next_is = refl;
}

is_empty-is_nil :
    (panes : List (Bytes × Pane)) (ps : List Pane)
    → ((id : Bytes) → lookup id panes ≡ find id ps)
    → is_empty panes ≡ is_nil ps
unfolding lookup find
is_empty-is_nil [] [] h = refl
is_empty-is_nil [] (p ∷ ps) h = ground (arith, h p.id, equal_refl p.id)
is_empty-is_nil ((k, v) ∷ m) [] h = ground (arith, h k, equal_refl k)
is_empty-is_nil ((k, v) ∷ m) (p ∷ ps) h = refl

-- An ID that was not given out yet differs from all that were.
Issued-ne : (n : ℕ) (js : List Bytes) → All (Issued n) js → All (λ j. j ≢ decimal n) js
Issued-ne n js =
    All-map
      (λ j i e. let same : i.0 ≡ n = decimal_inj i.0 n (sym i.2 ∙ e) in absurd (omega (arith, i.1)))
      js

Issued-suc : (n : ℕ) (js : List Bytes) → All (Issued n) js → All (Issued (suc n)) js
Issued-suc n js = All-map (λ j i. (i.0, omega (arith, i.1), i.2)) js

increment_pos : (n : ℕ) → n < max_int → increment (pos n) ≡ pos (suc n)
unfolding increment
increment_pos n h = ground arith

-- `Register` appends a pane with the next ID, which no pane had before; it is active exactly when
-- it is the only one.
pub register-Represents :
    (tty : Bytes) {m : Manager} {s : Panes}
    → s.next < max_int
    → Represents m s
    → Represents (register tty m).1 (added tty s)
unfolding register added
register-Represents tty {m} {s} room r = record {
  order_is =
      ap₂ (λ (o : List Bytes) (i : Bytes). o ++ i ∷ []) r.order_is id_is
      ∙ sym (ids-append s.items _);
  lookup_is = λ j.
      lookup-put (itoa m.next_pane_id) j p m.panes
      ∙ ap₂ (λ (q : Pane) (o : Option Pane). if equal q.id j then some q else o) p_is
          (r.lookup_is j)
      ∙ sym (find-concat j s.items q fresh);
  distinct =
      subst Distinct (sym (ids-append s.items (q ∷ [])))
        (Distinct-concat (ids s.items) (decimal s.next) r.distinct fresh);
  issued = subst (All (Issued (suc s.next))) (sym (ids-append s.items (q ∷ []))) (
      All-append (Issued (suc s.next)) (ids s.items) (decimal s.next ∷ [])
        (Issued-suc s.next (ids s.items) r.issued) ((s.next, omega arith, refl), tt));
  next_is = ap increment r.next_is ∙ increment_pos s.next room;
}
  where
    id_is : itoa m.next_pane_id ≡ decimal s.next
    id_is = ap itoa r.next_is ∙ itoa-pos s.next

    fresh : All (λ j. j ≢ decimal s.next) (ids s.items)
    fresh = Issued-ne s.next (ids s.items) r.issued

    p : Pane
    p = new_pane (itoa m.next_pane_id) tty (is_empty m.panes)

    q : Pane
    q = new_pane (decimal s.next) tty (is_nil s.items)

    p_is : p ≡ q
    p_is =
        ap₂ (λ (i : Bytes) (b : Bool). new_pane i tty b) id_is
          (is_empty-is_nil m.panes s.items r.lookup_is)

without_absent : (id : Bytes) (ps : List Pane) → All (λ j. j ≢ id) (ids ps) → without id ps ≡ ps
unfolding without
without_absent id [] h = refl
without_absent id (p ∷ ps) (hp, h) = rw (equal-false p.id id hp, without_absent id ps h)

drop_id-ids :
    (id : Bytes) (ps : List Pane) → Distinct (ids ps) → drop_id id (ids ps) ≡ ids (without id ps)
unfolding drop_id without
drop_id-ids id [] d = refl
drop_id-ids id (p ∷ ps) (n, d) = elim (Bool-cases (equal p.id id)) [
  | inl e ↦ rw e (
      ap ids (
        sym (
          without_absent id ps
            (subst (λ x. All (λ j. j ≢ x) (ids ps)) ((equal_iff p.id id).0 e) n))))
  | inr e ↦ rw e (ap (◌∷◌ p.id) (drop_id-ids id ps d))
]

list_ids-ids :
    (panes : List (Bytes × Pane)) (ps : List Pane)
    → All (λ p. lookup p.id panes ≡ some p) ps
    → list_ids panes (ids ps) ≡ ps
unfolding list_ids
list_ids-ids panes [] h = refl
list_ids-ids panes (p ∷ ps) (hp, h) = rw hp (ap (◌∷◌ p) (list_ids-ids panes ps h))

index_from-position :
    (i : ℕ) (id : Bytes) (ps : List Pane)
    → index_from i id (ids ps) ≡ Option.map (λ k. i + k) (position id ps)
unfolding index_from position
index_from-position i id [] = refl
index_from-position i id (p ∷ ps) = ground (arith, index_from-position (suc i) id ps)

pub found_or : Bytes → Option Pane → Result Pane
found_or id none = err (pane_not_found id)
found_or id (some p) = ok p

-- What a reader of the manager sees: `Get` finds the pane of an ID or fails with its ID, `List` gives
-- the panes in the order of registration, `OrderedList` their IDs and `IndexOf` the place of an ID.
pub readers :
    (id : Bytes) {m : Manager} {s : Panes}
    → Represents m s
    → (get id m ≡ found_or id (find id s.items))
      × (list m ≡ s.items)
      × (m.order ≡ ids s.items)
      × (index_of id m ≡ position id s.items)
unfolding get list index_of found_or
readers id {m} {s} r = (
  ap (found_or id) (r.lookup_is id),
  ap (list_ids m.panes) r.order_is
      ∙ list_ids-ids m.panes s.items
          (All-map (λ p f. r.lookup_is p.id ∙ f) s.items (find_self s.items r.distinct)),
  r.order_is,
  ap (index_from 0 id) r.order_is
      ∙ index_from-position 0 id s.items
      ∙ map_zero (position id s.items),
)
  where
    map_zero : (o : Option ℕ) → Option.map (λ k. 0 + k) o ≡ o
    map_zero none = refl
    map_zero (some k) = ap some (omega arith)

-- What `Unregister` and `SetActive` return: an error with the ID if no pane has it, and the state is
-- then what it was; otherwise the panes without that pane, or with that pane alone active.
abbrev pub Outcome : Result Manager → Bytes → Panes → Panes → Type 0
Outcome (err e) id s t = (e ≡ pane_not_found id) × (find id s.items ≡ none)
Outcome (ok m) id s t = (find id s.items ≢ none) × Represents m t

-- `Unregister` takes the pane with the ID out of the map and the order and keeps the other panes in
-- their order; if there is none it fails with the ID.
pub unregister-Represents :
    (id : Bytes) {m : Manager} {s : Panes}
    → Represents m s
    → Outcome (unregister id m) id s (removed id s)
unfolding unregister removed
unregister-Represents id {m} {s} r = elim (Option-cases (lookup id m.panes)) [
  | inl e ↦
      let failed : unregister id m ≡ err (pane_not_found id) = rw (e, unregister) in
      subst (λ x. Outcome x id s (removed id s)) (sym failed) (refl, sym (r.lookup_is id) ∙ e)
  | inr (p, e) ↦
      let done : unregister id m
          ≡ ok (record m { panes = remove id m.panes; order = drop_id id m.order }) =
        rw (e, unregister) in
      subst (λ x. Outcome x id s (removed id s)) (sym done) (λ absent. cc (r.lookup_is id), left)
]
  where
    left :
        Represents
          (record m { panes = remove id m.panes; order = drop_id id m.order })
          (record s { items = without id s.items })
    left = record {
      order_is = ap (drop_id id) r.order_is ∙ drop_id-ids id s.items r.distinct;
      lookup_is = λ j.
          lookup-remove id j m.panes
          ∙ ap (λ (o : Option Pane). if equal id j then none else o) (r.lookup_is j)
          ∙ sym (find-without id j s.items);
      distinct = Distinct-without id s.items r.distinct;
      issued = All-without (Issued s.next) id s.items r.issued;
      next_is = r.next_is;
    }

-- `SetActive` makes the pane with the ID active and every other pane inactive; if there is none it
-- fails with the ID.
pub set_active-Represents :
    (id : Bytes) {m : Manager} {s : Panes}
    → Represents m s
    → Outcome (set_active id m) id s (activated id s)
unfolding set_active activated
set_active-Represents id {m} {s} r = elim (Option-cases (lookup id m.panes)) [
  | inl e ↦
      let failed : set_active id m ≡ err (pane_not_found id) = rw (e, set_active) in
      subst (λ x. Outcome x id s (activated id s)) (sym failed) (refl, sym (r.lookup_is id) ∙ e)
  | inr (p, e) ↦
      let done : set_active id m ≡ ok (record m { panes = map_values (mark id) m.panes }) =
        rw (e, set_active) in
      subst (λ x. Outcome x id s (activated id s)) (sym done)
        (λ absent. cc (r.lookup_is id), marked)
]
  where
    marked :
        Represents
          (record m { panes = map_values (mark id) m.panes })
          (record s { items = mark_all id s.items })
    marked = record {
      order_is = r.order_is ∙ sym (ids-mark_all id s.items);
      lookup_is = λ j.
          lookup-map_values (mark id) j m.panes
          ∙ ap (Option.map (mark id)) (r.lookup_is j)
          ∙ sym (find-mark_all id j s.items);
      distinct = subst Distinct (sym (ids-mark_all id s.items)) r.distinct;
      issued = subst (All (Issued s.next)) (sym (ids-mark_all id s.items)) r.issued;
      next_is = r.next_is;
    }
