-- ===== src/Base/Maps.antt =====
-- A Go map with string keys, as an association list. The program looks its entries up by key.
use mathlib.Core.Path.{◌≡◌, refl, subst}
use mathlib.Core.Bool.{Bool, true, not, ◌&&◌}
use mathlib.Core.List.{List, [], ◌∷◌}
use mathlib.Core.Logic.{inl, inr}
use mathlib.Core.Option
use mathlib.Core.Option.{Option, none, some}
use native.Mathlib.Omega.{arith}
use shimux.Base.Lists.{all}
use shimux.Base.Tests.{if◌then◌else◌, Bool-cases}
use shimux.Base.Text.{Bytes, equal, equal_iff}

and_true : (a b : Bool) → (a && b) ≡ true → (a ≡ true) × (b ≡ true)
and_true a b h = ground arith

not_both : {b : Bool} → not b ≡ true → b ≡ true → ⊥
not_both h k = ground arith

module _ {ℓ} {V : Type ℓ} where
  unfoldable pub lookup : Bytes → List (Bytes × V) → Option V
  unfolding equal
  lookup k [] = none
  lookup k ((j, v) ∷ m) = if equal j k then some v else lookup k m

  -- A key with a property that no key of the map has is not found.
  pub lookup_without :
      (p : Bytes → Bool) (k : Bytes) (m : List (Bytes × V))
      → all (λ e. not (p e.0)) m ≡ true
      → p k ≡ true
      → lookup k m ≡ none
  unfolding lookup
  lookup_without p k [] h pk = refl
  lookup_without p k ((j, v) ∷ m) h pk =
      let tests = and_true (not (p j)) (all (λ e. not (p e.0)) m) h in
      elim (Bool-cases (equal j k)) [
        | inl e ↦ absurd (not_both (subst (λ x. not (p x) ≡ true) ((equal_iff j k).0 e) tests.0) pk)
        | inr e ↦ rw e (lookup_without p k m tests.1 pk)
      ]

  -- What holds of every entry holds of the entry that is found.
  pub lookup-all :
      (p : Bytes → V → Bool) (k : Bytes) (m : List (Bytes × V)) {v : V}
      → all (λ e. p e.0 e.1) m ≡ true
      → lookup k m ≡ some v
      → p k v ≡ true
  unfolding lookup
  lookup-all p k [] h e = cc
  lookup-all p k ((j, w) ∷ m) {v} h e =
      let tests = and_true (p j w) (all (λ e. p e.0 e.1) m) h in
      elim (Bool-cases (equal j k)) [
        | inl t ↦
            let same : some w ≡ some v = rw t at e in
            subst (λ x. p x v ≡ true) ((equal_iff j k).0 t)
              (subst (λ (o : Option V). elim o [ none ↦ true | some x ↦ p j x ] ≡ true) same
                tests.0)
        | inr t ↦ lookup-all p k m tests.1 (rw t at e)
      ]

  -- `delete(m, k)`
  unfoldable pub remove : Bytes → List (Bytes × V) → List (Bytes × V)
  unfolding equal
  remove k [] = []
  remove k ((j, v) ∷ m) = let rest = remove k m in if equal j k then rest else (j, v) ∷ rest

  -- `m[k] = v`
  unfoldable pub put : Bytes → V → List (Bytes × V) → List (Bytes × V)
  unfolding remove
  put k v m = (k, v) ∷ remove k m

  -- Each value replaced, as a loop over the map does.
  unfoldable pub map_values : (V → V) → List (Bytes × V) → List (Bytes × V)
  map_values f [] = []
  map_values f ((k, v) ∷ m) = (k, f v) ∷ map_values f m

  pub lookup-remove :
      (k j : Bytes) (m : List (Bytes × V))
      → lookup j (remove k m) ≡ (if equal k j then none else lookup j m)
  unfolding lookup remove
  lookup-remove k j [] = ground arith
  lookup-remove k j ((i, v) ∷ m) =
      ground (arith, lookup-remove k j m, equal_iff i k, equal_iff i j, equal_iff k j)

  pub lookup-put :
      (k j : Bytes) (v : V) (m : List (Bytes × V))
      → lookup j (put k v m) ≡ (if equal k j then some v else lookup j m)
  unfolding lookup put
  lookup-put k j v m = ground (arith, lookup-remove k j m)

  pub lookup-map_values :
      (f : V → V) (k : Bytes) (m : List (Bytes × V))
      → lookup k (map_values f m) ≡ Option.map f (lookup k m)
  unfolding lookup map_values
  lookup-map_values f k [] = refl
  lookup-map_values f k ((j, v) ∷ m) = ground (arith, lookup-map_values f k m)
