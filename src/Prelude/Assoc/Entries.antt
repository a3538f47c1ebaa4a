-- ===== src/Prelude/Assoc/Entries.antt =====
-- Predicates of the entries of a map, names included.
use mathlib.Core.List.{[], ◌∷◌}
use mathlib.Core.Logic.{inl, inr}
use docker_monitor.Prelude.Assoc.{Assoc, delete, insert}
use docker_monitor.Prelude.Bytes.{Bytes, str_eq}
use docker_monitor.Prelude.Lists.{All}
use docker_monitor.Prelude.Tests.{Bool-cases}

module _ {ℓ κ} {V : Type ℓ} (P : Bytes × V → Type κ) where
  pub All-insert : (k : Bytes) (v : V) (m : Assoc V) → P (k, v) → All P m → All P (insert k v m)
  unfolding insert
  All-insert k v [] p h = (p, tt)
  All-insert k v ((j, w) ∷ m) p h = elim (Bool-cases (str_eq j k)) [
    | inl same ↦ rw same (p, h.1)
    | inr other ↦ rw other (h.0, All-insert k v m p h.1)
  ]

  pub All-delete : (k : Bytes) (m : Assoc V) → All P m → All P (delete k m)
  unfolding delete
  All-delete k [] h = tt
  All-delete k ((j, w) ∷ m) h = elim (Bool-cases (str_eq j k)) [
    | inl same ↦ rw same h.1
    | inr other ↦ rw other (h.0, All-delete k m h.1)
  ]
