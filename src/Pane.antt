-- ===== src/Pane.antt =====
-- internal/pane/manager.go: the panes that are registered, in memory. A `*Pane` that a method
-- returns is the pane's value: no caller writes through it.
pub mod Panes
pub mod Refines
pub mod Active
pub mod State
use shimux.Base.{
  if◌then◌else◌, Bytes, equal, pane_not_found, Result, ok, err, ℕ, suc, ◌+◌, Bool, true, false,
  Option, none, some, List, [], ◌∷◌, ◌++◌,
}
use shimux.Base.Int.{ℤ, pos, increment}
use shimux.Base.Decimal.{itoa}
use shimux.Base.Maps.{lookup, put, remove, map_values}

pub record Pane : Type 0 where
  pub id : Bytes
  pub tty : Bytes
  pub active : Bool
  pub width : ℤ
  pub height : ℤ
  pub pid : ℤ
  pub current_path : Bytes

-- The mutex serialises the methods: each is one function on the state.
pub record Manager : Type 0 where
  pub panes : List (Bytes × Pane)
  pub next_pane_id : ℤ
  pub state_file : Bytes
  pub order : List Bytes

abbrev pub new_manager : Bytes → Manager
new_manager file = record { panes = []; next_pane_id = pos 0; state_file = file; order = [] }

-- `nextID` and `NextID`
unfoldable pub next_id : Manager → Bytes × Manager
next_id m = (itoa m.next_pane_id, record m { next_pane_id = increment m.next_pane_id })

abbrev pub is_empty : List (Bytes × Pane) → Bool
is_empty [] = true
is_empty (e ∷ m) = false

abbrev pub new_pane : Bytes → Bytes → Bool → Pane
new_pane id tty active = record {
  id = id;
  tty = tty;
  active = active;
  width = pos 0;
  height = pos 0;
  pid = pos 0;
  current_path = [];
}

-- `Register`: its error is always nil.
unfoldable pub register : Bytes → Manager → Pane × Manager
unfolding next_id
register tty m =
    let (id, m') = next_id m in
    let p = new_pane id tty (is_empty m'.panes) in
    (p, record m' { panes = put id p m'.panes; order = m'.order ++ id ∷ [] })

-- The loop that takes the first occurrence of the ID out of `order`.
unfoldable pub drop_id : Bytes → List Bytes → List Bytes
drop_id id [] = []
drop_id id (oid ∷ rest) = if equal oid id then rest else oid ∷ drop_id id rest

unfoldable pub unregister : Bytes → Manager → Result Manager
unregister id m = elim (lookup id m.panes) [
  | none ↦ err (pane_not_found id)
  | some p ↦ ok (record m { panes = remove id m.panes; order = drop_id id m.order })
]

unfoldable pub get : Bytes → Manager → Result Pane
get id m = elim (lookup id m.panes) [ none ↦ err (pane_not_found id) | some p ↦ ok p ]

abbrev pub append_found : Option Pane → List Pane → List Pane
append_found none ps = ps
append_found (some p) ps = p ∷ ps

unfoldable pub list_ids : List (Bytes × Pane) → List Bytes → List Pane
list_ids panes [] = []
list_ids panes (id ∷ order) = append_found (lookup id panes) (list_ids panes order)

-- `List`
unfoldable pub list : Manager → List Pane
list m = list_ids m.panes m.order

-- `IndexOf`; `none` is -1.
unfoldable pub index_from : ℕ → Bytes → List Bytes → Option ℕ
index_from i id [] = none
index_from i id (oid ∷ rest) = if equal oid id then some i else index_from (suc i) id rest

unfoldable pub index_of : Bytes → Manager → Option ℕ
index_of id m = index_from 0 id m.order

-- `OrderedList`
abbrev pub ordered_list : Manager → List Bytes
ordered_list m = m.order

-- `GetActive` over the panes in the order in which Go happens to visit the map.
unfoldable pub get_active_in : List Pane → Option Pane
get_active_in [] = none
get_active_in (p ∷ ps) = if p.active then some p else get_active_in ps

abbrev pub mark : Bytes → Pane → Pane
mark id p = record p { active = equal p.id id }

unfoldable pub set_active : Bytes → Manager → Result Manager
set_active id m = elim (lookup id m.panes) [
  | none ↦ err (pane_not_found id)
  | some p ↦ ok (record m { panes = map_values (mark id) m.panes })
]
