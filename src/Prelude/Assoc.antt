-- ===== src/Prelude/Assoc.antt =====
-- Go maps with string keys, as association lists. The order of the list stands for the order in
-- which the run time ranges over the map, which Go leaves open: what is proved holds of every order.
pub mod Laws
pub mod Except
pub mod Entries
use mathlib.Core.Bool.{Bool}
use mathlib.Core.Logic.{◌≢◌}
use mathlib.Core.Option.{Option, none, some}
use mathlib.Core.List.{List, [], ◌∷◌}
use Prim.Native.Nat.{ℕ, ◌+◌}
use docker_monitor.Prelude.Tests.{if◌then◌else◌}
use docker_monitor.Prelude.Lists.{All}
use docker_monitor.Prelude.Bytes.{Bytes, str_eq}

abbrev pub Assoc {ℓ} : Type ℓ → Type ℓ
Assoc V = List (Bytes × V)

module _ {ℓ} {V : Type ℓ} where
  -- v, ok := m[k]
  unfoldable pub lookup : Bytes → Assoc V → Option V
  lookup k [] = none
  lookup k ((j, v) ∷ m) = if str_eq j k then some v else lookup k m

  -- m[k] = v
  unfoldable pub insert : Bytes → V → Assoc V → Assoc V
  insert k v [] = (k, v) ∷ []
  insert k v ((j, w) ∷ m) = if str_eq j k then (k, v) ∷ m else (j, w) ∷ insert k v m

  -- delete(m, k)
  unfoldable pub delete : Bytes → Assoc V → Assoc V
  delete k [] = []
  delete k ((j, w) ∷ m) = if str_eq j k then m else (j, w) ∷ delete k m

  -- Key k does not occur.
  abbrev pub Fresh : Bytes → Assoc V → Type 0
  Fresh k m = All (λ (e : Bytes × V). e.0 ≢ k) m

  -- No key occurs twice: what every Go map has by its nature.
  abbrev pub Distinct : Assoc V → Type 0
  Distinct [] = Unit
  Distinct ((j, w) ∷ m) = Fresh j m × Distinct m

  -- The sum of a measure over the values.
  abbrev pub total : (V → ℕ) → Assoc V → ℕ
  total f [] = 0
  total f ((j, w) ∷ m) = f w + total f m

  -- The measure of a value that may be missing.
  abbrev pub weight : (V → ℕ) → Option V → ℕ
  weight f none = 0
  weight f (some v) = f v

  -- The entries whose key and value pass a test: the loop `for k, v := range m { … delete(m, k) }`.
  abbrev pub retain : (V → Bool) → Assoc V → Assoc V
  retain p [] = []
  retain p ((j, w) ∷ m) = let rest = retain p m in if p w then (j, w) ∷ rest else rest

  -- A predicate of every value.
  abbrev pub Values {κ} : (V → Type κ) → Assoc V → Type κ
  Values P [] = Unit
  Values P ((j, w) ∷ m) = P w × Values P m

  -- A predicate of every value but that of one key.
  abbrev pub Except {κ} : Bytes → (V → Type κ) → Assoc V → Type κ
  Except key P [] = Unit
  Except key P ((j, w) ∷ m) = (j ≢ key → P w) × Except key P m
