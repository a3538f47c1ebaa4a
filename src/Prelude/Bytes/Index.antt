-- ===== src/Prelude/Bytes/Index.antt =====
-- bytes.IndexByte, and the cut of a text at the byte that it finds.
use Prim.Native.Nat.{suc, zero, ℕ, ◌<◌, ◌≤◌}
use mathlib.Core.Bool.{false}
use mathlib.Core.List.{[], ◌++◌, ◌∷◌}
use mathlib.Core.Logic.{inl, inr}
use mathlib.Core.Option.{Option, none, some}
use mathlib.Core.Path.{ap, refl, ◌≡◌}
use native.Mathlib.Omega.{arith}
use docker_monitor.Prelude.Bytes.{Bytes}
use docker_monitor.Prelude.Lists.{All, drop, length, take}
use docker_monitor.Prelude.Tests.{Bool-cases, Option-cases, if◌then◌else◌, ◌==◌}

abbrev shifted : Option ℕ → Option ℕ
shifted none = none
shifted (some i) = some (suc i)

unfoldable pub index_byte : ℕ → Bytes → Option ℕ
index_byte b [] = none
index_byte b (c ∷ s) = if c == b then some 0 else shifted (index_byte b s)

-- The byte does not occur.
abbrev pub Lacks : ℕ → Bytes → Type 0
Lacks b = All (λ c. (c == b) ≡ false)

pub index_byte-none : (b : ℕ) (s : Bytes) → index_byte b s ≡ none → Lacks b s
unfolding index_byte
index_byte-none b [] h = tt
index_byte-none b (c ∷ s) h = elim (Bool-cases (c == b)) [
  | inl here ↦ absurd (ground arith)
  | inr other ↦ elim (Option-cases (index_byte b s)) [
    | inl e ↦ (other, index_byte-none b s e)
    | inr (j, e) ↦ absurd (ground arith)
  ]
]

-- The text up to the byte, the byte, and what follows.
pub record Cut (b : ℕ) (s : Bytes) (i : ℕ) : Type 0 where
  pub lacks : Lacks b (take i s)
  pub splits : s ≡ take i s ++ (b ∷ drop (suc i) s)
  pub within : i < length s

pub index_byte-some : (b : ℕ) (s : Bytes) (i : ℕ) → index_byte b s ≡ some i → Cut b s i
unfolding index_byte
index_byte-some b [] i h = cc
index_byte-some b (c ∷ s) i h = elim (Bool-cases (c == b)) [
  | inl here ↦
      let z : 0 ≡ i = ground arith in
      let same : c ≡ b = ground arith in
      rw (← z) (record { lacks = tt; splits = rw same; within = omega arith })
  | inr other ↦ elim (Option-cases (index_byte b s)) [
    | inl e ↦ absurd (ground arith)
    | inr (j, e) ↦
        let next : suc j ≡ i = ground arith in
        let rest = index_byte-some b s j e in
        rw (← next) (record {
          lacks = (other, rest.lacks);
          splits = ap (◌∷◌ c) rest.splits;
          within = omega (arith, rest.within);
        })
  ]
]

pub Lacks-take : (b k : ℕ) (s : Bytes) → Lacks b s → Lacks b (take k s)
Lacks-take b zero s h = tt
Lacks-take b (suc k) [] h = tt
Lacks-take b (suc k) (c ∷ s) h = (h.0, Lacks-take b k s h.1)

pub Lacks-take_le : (b k i : ℕ) (s : Bytes) → k ≤ i → Lacks b (take i s) → Lacks b (take k s)
Lacks-take_le b zero i s le h = tt
Lacks-take_le b (suc k) zero s le h = absurd (omega arith)
Lacks-take_le b (suc k) (suc i) [] le h = tt
Lacks-take_le b (suc k) (suc i) (c ∷ s) le h = (h.0, Lacks-take_le b k i s (omega arith) h.1)

-- The byte behind the first k ones, where it is known to be another one.
pub drop_head :
    (b k : ℕ) (s : Bytes)
    → k < length s
    → Lacks b (take (suc k) s)
    → (c : ℕ) × (r : Bytes) × (drop k s ≡ c ∷ r) × ((c == b) ≡ false)
drop_head b k [] lt h = absurd (omega arith)
drop_head b zero (c ∷ s) lt h = (c, s, refl, h.0)
drop_head b (suc k) (c ∷ s) lt h = drop_head b k s (omega arith) h.1
