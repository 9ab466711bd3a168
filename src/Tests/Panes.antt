-- ===== src/Tests/Panes.antt =====
-- The registered panes: pane 0 and pane 1 are registered, then one is activated or removed.
use shimux.Base.{
  inl, inr, In, In-All, str, equal, ◌-◌, ◌/◌, ◌<◌, ◌≡◌, refl, sym, ◌∙◌, inl, inr, some, List, [],
  ◌∷◌, arith,
}
use shimux.Base.Int.{max_int}
use shimux.Base.Decimal.{decimal}
use shimux.Pane.{
  Pane, Manager, new_manager, register, unregister, set_active, get, list, index_of, get_active_in,
}
use shimux.Pane.Panes.{find_self, Panes, no_panes, added, removed, activated, find, position, ids}
use shimux.Pane.Refines.{
  Represents, Outcome, found_or, Represents-new_manager, register-Represents, unregister-Represents,
  set_active-Represents, readers,
}
use shimux.Pane.Active.{get_active-any_order, find-In, Visits, OneActive, OneActive-kept}
use shimux.Tests.World.{no_manager}

abbrev pub one_pane : Manager
one_pane = (register (str "/dev/ttys001") no_manager).1

abbrev pub one : Panes
one = added (str "/dev/ttys001") no_panes

pub one-Represents : Represents one_pane one
one-Represents =
    register-Represents (str "/dev/ttys001") (omega arith)
      (Represents-new_manager (str "panes.json"))

abbrev pub two_panes : Manager
two_panes = (register (str "/dev/ttys002") one_pane).1

abbrev pub two : Panes
two = added (str "/dev/ttys002") one

one-room : one.next < max_int
unfolding added
one-room = omega arith

register-Represents_example : Represents two_panes two
register-Represents_example = register-Represents (str "/dev/ttys002") one-room one-Represents

pub two-Represents : Represents two_panes two
two-Represents = register-Represents (str "/dev/ttys002") one-room one-Represents

unregister-Represents_example :
    Outcome (unregister (str "0") two_panes) (str "0") two (removed (str "0") two)
unregister-Represents_example = unregister-Represents (str "0") two-Represents

set_active-Represents_example :
    Outcome (set_active (str "1") two_panes) (str "1") two (activated (str "1") two)
set_active-Represents_example = set_active-Represents (str "1") two-Represents

readers_example :
    (get (str "1") two_panes ≡ found_or (str "1") (find (str "1") two.items))
    × (list two_panes ≡ two.items)
    × (two_panes.order ≡ ids two.items)
    × (index_of (str "1") two_panes ≡ position (str "1") two.items)
readers_example = readers (str "1") two-Represents

pub two-OneActive : OneActive two.items
unfolding added
two-OneActive = (λ e. (refl, tt), (λ e. tt, tt))

OneActive-kept_example :
    OneActive (added (str "1") two).items
    × OneActive (removed (str "1") two).items
    × OneActive (activated (str "1") two).items
OneActive-kept_example = OneActive-kept two (str "1") two-Represents.distinct two-OneActive

-- Runs on the first steps of the Go tests.
registers : (two_panes.order ≡ str "0" ∷ str "1" ∷ []) × (index_of (str "1") two_panes ≡ some 1)
unfolding register index_of shimux.Base.Decimal.itoa shimux.Base.Int.increment
    shimux.Pane.index_from equal
registers = (refl, refl)

abbrev swap : List Pane → List Pane
swap (a ∷ b ∷ ps) = b ∷ a ∷ ps
swap ps = ps

In-flip : (p a b : Pane) (ps : List Pane) → In p (a ∷ b ∷ ps) → In p (b ∷ a ∷ ps)
In-flip p a b ps (inl e) = inr (inl e)
In-flip p a b ps (inr (inl e)) = inl e
In-flip p a b ps (inr (inr i)) = inr (inr i)

swap-In : (p : Pane) (ps : List Pane) → (In p (swap ps) → In p ps) × (In p ps → In p (swap ps))
swap-In p [] = (λ i. i, λ i. i)
swap-In p (a ∷ []) = (λ i. i, λ i. i)
swap-In p (a ∷ b ∷ ps) = (In-flip p b a ps, In-flip p a b ps)

two-Visits : Visits two_panes (swap two.items)
two-Visits p = (
  λ i.
      two-Represents.lookup_is p.id
      ∙ In-All (λ x. find x.id two.items ≡ some x) two.items
          (find_self two.items two-Represents.distinct) ((swap-In p two.items).0 i),
  λ e. (swap-In p two.items).1 (find-In p.id two.items (sym (two-Represents.lookup_is p.id) ∙ e)),
)

-- Go visits pane 1 first.
get_active-any_order_example : get_active_in (swap two.items) ≡ get_active_in two.items
get_active-any_order_example =
    get_active-any_order (swap two.items) two-Represents two-OneActive two-Visits

pub two-room : two.next < max_int
unfolding added
two-room = omega arith
