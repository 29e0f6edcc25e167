-- ===== src/Prelude/Maps.antt =====
-- Go maps from texts, as association lists with at most one entry for a key.
use mathlib.Core.Path.{◌≡◌}
use mathlib.Core.Option.{Option, none, some}
use mathlib.Core.List.{List, [], ◌∷◌}
use native.Mathlib.Omega.{arith}
use karpenter_provider_azure.Prelude.Tests.{if◌then◌else◌}
use karpenter_provider_azure.Prelude.Texts.{Text, teq, teq_iff, teq_refl}

abbrev pub Map : Type 0 → Type 0
Map V = List (Text × V)

module _ {V : Type 0} where
  unfoldable pub lookup : Text → Map V → Option V
  lookup k [] = none
  lookup k ((j, v) ∷ m) = if teq j k then some v else lookup k m

  unfoldable pub remove : Text → Map V → Map V
  remove k [] = []
  remove k ((j, v) ∷ m) = let rest = remove k m in if teq j k then rest else (j, v) ∷ rest

  unfoldable pub insert : Text → V → Map V → Map V
  insert k v m = (k, v) ∷ remove k m

  pub lookup-remove :
      (k j : Text) (m : Map V) → lookup j (remove k m) ≡ (if teq k j then none else lookup j m)
  unfolding lookup remove
  lookup-remove k j [] = ground arith
  lookup-remove k j ((i, w) ∷ m) =
      ground (arith, teq_iff k j, teq_iff i k, teq_iff i j, lookup-remove k j m)

  pub lookup-insert :
      (k j : Text) (v : V) (m : Map V)
      → lookup j (insert k v m) ≡ (if teq k j then some v else lookup j m)
  unfolding lookup insert
  lookup-insert k j v m = ground (arith, lookup-remove k j m)

  -- Each key stands once.
  abbrev pub Distinct : Map V → Type 0
  Distinct [] = Unit
  Distinct ((k, v) ∷ m) = (lookup k m ≡ none) × Distinct m

  pub remove-Distinct : (k : Text) (m : Map V) → Distinct m → Distinct (remove k m)
  unfolding remove
  remove-Distinct k [] h = tt
  remove-Distinct k ((j, v) ∷ m) h = ground (arith, lookup-remove k j m, remove-Distinct k m)

  pub insert-Distinct : (k : Text) (v : V) (m : Map V) → Distinct m → Distinct (insert k v m)
  unfolding insert
  insert-Distinct k v m h = ground (arith, lookup-remove k k m, teq_refl k, remove-Distinct k m)
