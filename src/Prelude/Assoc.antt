-- ===== src/Prelude/Assoc.antt =====
-- Go's `map[K]V` as an association list. A key that is written again keeps its place.
use mathlib.Core.Path.{◌≡◌, ap}
use mathlib.Core.Logic.{inl, inr}
use mathlib.Core.Bool.{false}
use mathlib.Core.Option.{Option, none, some}
use mathlib.Core.List.{List, [], ◌∷◌}
use forge_eng_fabric.Prelude.Tests.{Eq, ◌==◌, if◌then◌else◌, Bool-cases, beq_refl}

module _ {ℓ κ} {K : Type ℓ} {V : Type κ} ⦃e : Eq K⦄ where
  unfoldable pub lookup : K → List (K × V) → Option V
  lookup k [] = none
  lookup k ((j, v) ∷ m) = let rest = lookup k m in if j == k then some v else rest

  unfoldable pub insert : K → V → List (K × V) → List (K × V)
  insert k v [] = (k, v) ∷ []
  insert k v ((j, w) ∷ m) = let rest = insert k v m in if j == k then (k, v) ∷ m else (j, w) ∷ rest

  pub lookup-insert_self : (k : K) (v : V) (m : List (K × V)) → lookup k (insert k v m) ≡ some v
  unfolding lookup insert
  lookup-insert_self k v [] = rw (beq_refl k)
  lookup-insert_self k v ((j, w) ∷ m) = elim (Bool-cases (j == k)) [
    | inl h ↦ rw h (rw (beq_refl k))
    | inr h ↦ rw h (rw h (lookup-insert_self k v m))
  ]

  pub lookup-insert_ne :
      (k j : K) (v : V) (m : List (K × V)) → (k == j) ≡ false → lookup j (insert k v m) ≡ lookup j m
  unfolding lookup insert
  lookup-insert_ne k j v [] h = rw h
  lookup-insert_ne k j v ((i, w) ∷ m) h = elim (Bool-cases (i == k)) [
    | inl p ↦ rw p (rw ((e.decides i k).0 p) (rw h))
    | inr p ↦ rw p (ap (λ r. if i == j then some w else r) (lookup-insert_ne k j v m h))
  ]
