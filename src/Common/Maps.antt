-- ===== src/Common/Maps.antt =====
-- A JavaScript object or `Map` with string keys: an association list in insertion order, in which
-- a write to a present key keeps its place.
use mathlib.Core.Path.{◌≡◌, refl}
use mathlib.Core.Logic.{◌≢◌}
use mathlib.Core.Option.{Option, none, some}
use mathlib.Core.List.{List, [], ◌∷◌}
use native.Mathlib.Omega.{arith}
use steerloop.Common.Tests.{if◌then◌else◌}
use steerloop.Common.Strings.{Text, same, same_refl}

abbrev pub Assoc {ℓ} : Type ℓ → Type ℓ
Assoc V = List (Text × V)

module _ {ℓ} {V : Type ℓ} where
  unfoldable pub lookup : Text → Assoc V → Option V
  lookup k [] = none
  lookup k ((j, v) ∷ m) = if same j k then some v else lookup k m

  unfoldable pub insert : Text → V → Assoc V → Assoc V
  insert k v [] = (k, v) ∷ []
  insert k v ((j, w) ∷ m) = if same j k then (j, v) ∷ m else (j, w) ∷ insert k v m

  unfoldable pub remove : Text → Assoc V → Assoc V
  remove k [] = []
  remove k ((j, v) ∷ m) = if same j k then remove k m else (j, v) ∷ remove k m

  -- `Object.values(m)`
  unfoldable pub values : Assoc V → List V
  values [] = []
  values ((j, v) ∷ m) = v ∷ values m

  pub lookup-insert :
      (k j : Text) (v : V) (m : Assoc V)
      → lookup j (insert k v m) ≡ (if same k j then some v else lookup j m)
  unfolding lookup insert
  lookup-insert k j v [] = refl
  lookup-insert k j v ((i, w) ∷ m) = ground (arith, lookup-insert k j v m)

  pub lookup-insert_ne :
      (k j : Text) (v : V) (m : Assoc V) → j ≢ k → lookup j (insert k v m) ≡ lookup j m
  lookup-insert_ne k j v m h = ground (arith, lookup-insert k j v m)

  pub lookup-insert_self : (k : Text) (v : V) (m : Assoc V) → lookup k (insert k v m) ≡ some v
  lookup-insert_self k v m = ground (arith, lookup-insert k k v m, same_refl k)

  pub lookup-remove :
      (k j : Text) (m : Assoc V) → lookup j (remove k m) ≡ (if same k j then none else lookup j m)
  unfolding lookup remove
  lookup-remove k j [] = ground arith
  lookup-remove k j ((i, w) ∷ m) = ground (arith, lookup-remove k j m)

  -- The keys are distinct, as those of an object are.
  abbrev pub Distinct : Assoc V → Type ℓ
  Distinct [] = Unit
  Distinct ((j, v) ∷ m) = (lookup j m ≡ none) × Distinct m

  pub insert-Distinct : (k : Text) (v : V) (m : Assoc V) → Distinct m → Distinct (insert k v m)
  unfolding insert lookup
  insert-Distinct k v [] d = (refl, tt)
  insert-Distinct k v ((j, w) ∷ m) d =
      ground (arith, insert-Distinct k v m d.1, lookup-insert k j v m)

  -- Every entry satisfies a predicate of its key and value.
  abbrev pub Every {κ} : (Text → V → Type κ) → Assoc V → Type κ
  Every P [] = Unit
  Every P ((j, v) ∷ m) = P j v × Every P m

  module _ {κ} (P : Text → V → Type κ) where
    pub insert-Every : (k : Text) (v : V) (m : Assoc V) → P k v → Every P m → Every P (insert k v m)
    unfolding insert
    insert-Every k v [] p h = (p, tt)
    insert-Every k v ((j, w) ∷ m) p h = ground (arith, insert-Every k v m p h.1)

    pub lookup-Every : (k : Text) (m : Assoc V) (v : V) → lookup k m ≡ some v → Every P m → P k v
    unfolding lookup
    lookup-Every k [] v e h = cc
    lookup-Every k ((j, w) ∷ m) v e h =
        ground (arith, λ (p : lookup k m ≡ some v). lookup-Every k m v p h.1)

  -- The entry with each key is stored under its own id.
  abbrev pub Keyed : (V → Text) → Assoc V → Type 0
  Keyed id m = Every (λ k v. id v ≡ k) m
