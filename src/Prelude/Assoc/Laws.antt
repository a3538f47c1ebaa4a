-- ===== src/Prelude/Assoc/Laws.antt =====
-- The laws of lookup, insert and delete.
use mathlib.Core.Path.{◌≡◌, refl}
use mathlib.Core.Logic.{◌≢◌, inl, inr}
use mathlib.Core.Bool.{Bool}
use mathlib.Core.Option.{none, some}
use mathlib.Core.List.{[], ◌∷◌}
use native.Mathlib.Omega.{arith}
use Prim.Native.Nat.{ℕ, ◌+◌}
use docker_monitor.Prelude.Tests.{if◌then◌else◌, Bool-cases}
use docker_monitor.Prelude.Lists.{length}
use docker_monitor.Prelude.Bytes.{Bytes, str_eq, str_eq_iff}
use docker_monitor.Prelude.Assoc.{
  Assoc, lookup, insert, delete, Fresh, Distinct, total, weight, retain, Values,
}

module _ {ℓ} {V : Type ℓ} where
  pub lookup-insert :
      (k j : Bytes) (v : V) (m : Assoc V)
      → lookup j (insert k v m) ≡ (if str_eq k j then some v else lookup j m)
  unfolding lookup insert
  lookup-insert k j v [] = refl
  lookup-insert k j v ((i, w) ∷ m) =
      ground (arith, str_eq_iff k j, str_eq_iff i k, str_eq_iff i j, lookup-insert k j v m)

  pub lookup-Fresh : (k : Bytes) (m : Assoc V) → Fresh k m → lookup k m ≡ none
  unfolding lookup
  lookup-Fresh k [] h = refl
  lookup-Fresh k ((i, w) ∷ m) h = ground (arith, str_eq_iff i k, lookup-Fresh k m h.1)

  pub lookup-delete :
      (k j : Bytes) (m : Assoc V)
      → Distinct m
      → lookup j (delete k m) ≡ (if str_eq k j then none else lookup j m)
  unfolding lookup delete
  lookup-delete k j [] d = ground arith
  lookup-delete k j ((i, w) ∷ m) d = ground (
    arith,
    str_eq_iff k j,
    str_eq_iff i k,
    str_eq_iff i j,
    lookup-delete k j m,
    lookup-Fresh i m d.0,
  )

  pub Fresh-insert :
      (k j : Bytes) (v : V) (m : Assoc V) → k ≢ j → Fresh j m → Fresh j (insert k v m)
  unfolding insert
  Fresh-insert k j v [] ne h = (ne, tt)
  Fresh-insert k j v ((i, w) ∷ m) ne h = elim (Bool-cases (str_eq i k)) [
    | inl same ↦ rw same (ne, h.1)
    | inr other ↦ rw other (h.0, Fresh-insert k j v m ne h.1)
  ]

  pub Distinct-insert : (k : Bytes) (v : V) (m : Assoc V) → Distinct m → Distinct (insert k v m)
  unfolding insert
  Distinct-insert k v [] d = (tt, tt)
  Distinct-insert k v ((i, w) ∷ m) d = elim (Bool-cases (str_eq i k)) [
    | inl same ↦ rw same (rw ((str_eq_iff i k).0 same) at d.0, d.1)
    | inr other ↦
        rw other (
          Fresh-insert k i v m (λ e. ground (arith, str_eq_iff i k)) d.0,
          Distinct-insert k v m d.1,
        )
  ]

  pub Fresh-delete : (k j : Bytes) (m : Assoc V) → Fresh j m → Fresh j (delete k m)
  unfolding delete
  Fresh-delete k j [] h = tt
  Fresh-delete k j ((i, w) ∷ m) h = elim (Bool-cases (str_eq i k)) [
    | inl same ↦ rw same h.1
    | inr other ↦ rw other (h.0, Fresh-delete k j m h.1)
  ]

  pub Distinct-delete : (k : Bytes) (m : Assoc V) → Distinct m → Distinct (delete k m)
  unfolding delete
  Distinct-delete k [] d = tt
  Distinct-delete k ((i, w) ∷ m) d = elim (Bool-cases (str_eq i k)) [
    | inl same ↦ rw same d.1
    | inr other ↦ rw other (Fresh-delete k i m d.0, Distinct-delete k m d.1)
  ]

  pub Fresh-retain : (p : V → Bool) (j : Bytes) (m : Assoc V) → Fresh j m → Fresh j (retain p m)
  Fresh-retain p j [] h = tt
  Fresh-retain p j ((i, w) ∷ m) h = elim (Bool-cases (p w)) [
    | inl keep ↦ rw keep (h.0, Fresh-retain p j m h.1)
    | inr drop ↦ rw drop (Fresh-retain p j m h.1)
  ]

  pub Distinct-retain : (p : V → Bool) (m : Assoc V) → Distinct m → Distinct (retain p m)
  Distinct-retain p [] d = tt
  Distinct-retain p ((i, w) ∷ m) d = elim (Bool-cases (p w)) [
    | inl keep ↦ rw keep (Fresh-retain p i m d.0, Distinct-retain p m d.1)
    | inr drop ↦ rw drop (Distinct-retain p m d.1)
  ]

  pub total-insert :
      (f : V → ℕ) (k : Bytes) (v : V) (m : Assoc V)
      → total f (insert k v m) + weight f (lookup k m) ≡ total f m + f v
  unfolding lookup insert
  total-insert f k v [] = omega arith
  total-insert f k v ((i, w) ∷ m) = ground (arith, total-insert f k v m)

  pub total-delete :
      (f : V → ℕ) (k : Bytes) (m : Assoc V)
      → total f (delete k m) + weight f (lookup k m) ≡ total f m
  unfolding lookup delete
  total-delete f k [] = omega arith
  total-delete f k ((i, w) ∷ m) = ground (arith, total-delete f k m)

  pub length-total : (m : Assoc V) → length m ≡ total (λ _. 1) m
  length-total [] = refl
  length-total ((i, w) ∷ m) = omega (arith, length-total m)

  module _ {κ} (P : V → Type κ) where
    pub Values-insert :
        (k : Bytes) (v : V) (m : Assoc V) → P v → Values P m → Values P (insert k v m)
    unfolding insert
    Values-insert k v [] hv h = (hv, tt)
    Values-insert k v ((i, w) ∷ m) hv h = elim (Bool-cases (str_eq i k)) [
      | inl same ↦ rw same (hv, h.1)
      | inr other ↦ rw other (h.0, Values-insert k v m hv h.1)
    ]

    pub Values-delete : (k : Bytes) (m : Assoc V) → Values P m → Values P (delete k m)
    unfolding delete
    Values-delete k [] h = tt
    Values-delete k ((i, w) ∷ m) h = elim (Bool-cases (str_eq i k)) [
      | inl same ↦ rw same h.1
      | inr other ↦ rw other (h.0, Values-delete k m h.1)
    ]

    pub Values-retain : (p : V → Bool) (m : Assoc V) → Values P m → Values P (retain p m)
    Values-retain p [] h = tt
    Values-retain p ((i, w) ∷ m) h = elim (Bool-cases (p w)) [
      | inl keep ↦ rw keep (h.0, Values-retain p m h.1)
      | inr drop ↦ rw drop (Values-retain p m h.1)
    ]

    pub Values-lookup : (k : Bytes) (m : Assoc V) {v : V} → Values P m → lookup k m ≡ some v → P v
    unfolding lookup
    Values-lookup k [] h e = cc
    Values-lookup k ((i, w) ∷ m) {v} h e = elim (Bool-cases (str_eq i k)) [
      | inl same ↦ let e' : w ≡ v = ground arith in rw (← e') h.0
      | inr other ↦ Values-lookup k m h.1 (ground arith)
    ]
