-- ===== src/Prelude/Assoc/Except.antt =====
-- The predicate that excepts one key, while a map holds a value that does not satisfy it.
use mathlib.Core.Bool.{Bool}
use mathlib.Core.List.{[], ◌∷◌}
use mathlib.Core.Logic.{inl, inr}
use mathlib.Core.Path.{refl}
use native.Mathlib.Omega.{arith}
use docker_monitor.Prelude.Assoc.{Assoc, Distinct, Except, Fresh, Values, delete, insert, retain}
use docker_monitor.Prelude.Bytes.{Bytes, str_eq, str_eq_iff}
use docker_monitor.Prelude.Lists.{drop}
use docker_monitor.Prelude.Tests.{Bool-cases}

module _ {ℓ κ} {V : Type ℓ} (P : V → Type κ) (key : Bytes) where
  pub Except-of_Values : (m : Assoc V) → Values P m → Except key P m
  Except-of_Values [] h = tt
  Except-of_Values ((i, w) ∷ m) h = ((λ _. h.0), Except-of_Values m h.1)

  pub Except-insert : (v : V) (m : Assoc V) → Values P m → Except key P (insert key v m)
  unfolding insert
  Except-insert v [] h = ((λ ne. absurd (ne refl)), tt)
  Except-insert v ((i, w) ∷ m) h = elim (Bool-cases (str_eq i key)) [
    | inl same ↦ rw same ((λ ne. absurd (ne refl)), Except-of_Values m h.1)
    | inr other ↦ rw other ((λ _. h.0), Except-insert v m h.1)
  ]

  pub Except-delete : (k : Bytes) (m : Assoc V) → Except key P m → Except key P (delete k m)
  unfolding delete
  Except-delete k [] h = tt
  Except-delete k ((i, w) ∷ m) h = elim (Bool-cases (str_eq i k)) [
    | inl same ↦ rw same h.1
    | inr other ↦ rw other (h.0, Except-delete k m h.1)
  ]

  pub Except-retain : (p : V → Bool) (m : Assoc V) → Except key P m → Except key P (retain p m)
  Except-retain p [] h = tt
  Except-retain p ((i, w) ∷ m) h = elim (Bool-cases (p w)) [
    | inl keep ↦ rw keep (h.0, Except-retain p m h.1)
    | inr drop ↦ rw drop (Except-retain p m h.1)
  ]

  Except-Fresh : (m : Assoc V) → Fresh key m → Except key P m → Values P m
  Except-Fresh [] f h = tt
  Except-Fresh ((i, w) ∷ m) f h = (h.0 f.0, Except-Fresh m f.1 h.1)

  pub Except-delete_self : (m : Assoc V) → Distinct m → Except key P m → Values P (delete key m)
  unfolding delete
  Except-delete_self [] d h = tt
  Except-delete_self ((i, w) ∷ m) d h = elim (Bool-cases (str_eq i key)) [
    | inl same ↦ rw same (Except-Fresh m (rw ((str_eq_iff i key).0 same) at d.0) h.1)
    | inr other ↦
        rw other (h.0 (λ e. ground (arith, str_eq_iff i key)), Except-delete_self m d.1 h.1)
  ]
