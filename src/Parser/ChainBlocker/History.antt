-- ===== src/Parser/ChainBlocker/History.antt =====
-- internal/parser/parser.go: the calls of a chainBlocker, the latest first, as a reference for its
-- answers.
use mathlib.Core.Path.{subst}
use docker_monitor.Model.{Time}
use docker_monitor.Parser.ChainBlocker.{ChainBlocker, block, blocked, evict_locked}
use docker_monitor.Parser.ChainBlocker.Laws.{
  Within, evict_locked-lem, length-delete_le, length-insert_le,
}
use docker_monitor.Prelude.{
  Bool, Bool-cases, List, Option, Option-cases, [], arith, false, ge→ltb, if◌then◌else◌, inl, inr,
  leb, length, ltb, ltb→ge, none, not, refl, some, true, ℕ, ◌&&◌, ◌+◌, ◌<◌, ◌∷◌, ◌≡◌, ◌≤◌, ◌⊎◌,
}
use docker_monitor.Prelude.Assoc.{Assoc, Distinct, delete, insert, lookup}
use docker_monitor.Prelude.Assoc.Laws.{
  Distinct-delete, Distinct-insert, lookup-Fresh, lookup-delete, lookup-insert,
}
use docker_monitor.Prelude.Bytes.{Bytes, is_empty, is_empty_iff, str_eq, str_eq_iff}

pub data Call : Type 0 where
  -- Block(id, now), Blocked(id, now)
  block_at : Bytes → Time → Call
  ask_at : Bytes → Time → Call

abbrev pub step : Call → Option ChainBlocker → Option ChainBlocker
step (block_at id now) b = block id now b
step (ask_at id now) b = (blocked id now b).1

abbrev pub run : Option ChainBlocker → List Call → Option ChainBlocker
run b [] = b
run b (c ∷ calls) = step c (run b calls)

-- The specification: the last time at which the id was blocked counts, and nothing else. A call
-- with an empty id does nothing.
abbrev pub last_block : Bytes → List Call → Option Time
last_block id [] = none
last_block id (ask_at i now ∷ calls) = last_block id calls
last_block id (block_at i now ∷ calls) =
    let rest = last_block id calls in if not (is_empty i) && str_eq i id then some now else rest

abbrev pub expiry : ℕ → Option Time → Option Time
expiry ttl none = none
expiry ttl (some now) = some (now + ttl)

abbrev pub after : Time → Option Time → Bool
after t none = false
after t (some e) = ltb t e

abbrev pub is_silent : ℕ → Bytes → Time → List Call → Bool
is_silent ttl id t calls = after t (expiry ttl (last_block id calls))

-- Every question was asked at `t` or earlier.
abbrev pub AskedBy : Time → List Call → Type 0
AskedBy t [] = Unit
AskedBy t (ask_at i now ∷ calls) = (now ≤ t) × AskedBy t calls
AskedBy t (block_at i now ∷ calls) = AskedBy t calls

abbrev pub blocker : ℕ → ℕ → Assoc Time → ChainBlocker
blocker ttl max_entries entries = record { ttl = ttl; max_entries = max_entries; entries = entries }

module _ (ttl max_entries : ℕ) where
  -- The entries are those of a Go map, in number within the limit, and each says when the last
  -- silence of its id ends.
  abbrev Sound : List Call → Assoc Time → Type 0
  Sound calls m =
      Distinct m
      × length m ≤ max_entries
      × ((id : Bytes) → (lookup id m ≡ none) ⊎ (lookup id m ≡ expiry ttl (last_block id calls)))

  entered :
      (id : Bytes) (now : Time) (calls : List Call) (m n : Assoc Time)
      → is_empty id ≡ false
      → Sound calls m
      → Within n (insert id (now + ttl) m)
      → (k : Bytes)
      → (lookup k n ≡ none) ⊎ (lookup k n ≡ expiry ttl (last_block k (block_at id now ∷ calls)))
  entered id now calls m n ne s w k = ground (arith, w k, lookup-insert id k (now + ttl) m, s.2 k)

  block-Sound :
      (id : Bytes) (now : Time) (calls : List Call) (m : Assoc Time)
      → Sound calls m
      → (n : Assoc Time) × (block id now (some (blocker ttl max_entries m))
          ≡ some (blocker ttl max_entries n))
        × Sound (block_at id now ∷ calls) n
  unfolding block
  block-Sound id now calls m s = elim (Bool-cases (is_empty id)) [
    | inl empty ↦ rw empty (m, refl, s)
    | inr named ↦
        let m' = insert id (now + ttl) m in
        let d = Distinct-insert id (now + ttl) m s.0 in
        let (d', w, le) = evict_locked-lem now (blocker ttl max_entries m') d in
        elim (Bool-cases (ltb max_entries (length m'))) [
          | inl over ↦
              rw (named, over)
                (
                  (evict_locked now (blocker ttl max_entries m')).entries,
                  refl,
                  (d', le, rw named at (entered id now calls m _ named s w)),
                )
          | inr fits ↦
              rw (named, fits)
                (
                  m',
                  refl,
                  (
                    d,
                    ltb→ge _ _ fits,
                    rw named at (entered id now calls m m' named s (λ k. inr refl)),
                  ),
                )
        ]
  ]

  ask-Sound :
      (id : Bytes) (now : Time) (calls : List Call) (m : Assoc Time)
      → Sound calls m
      → (n : Assoc Time) × ((blocked id now (some (blocker ttl max_entries m))).1
          ≡ some (blocker ttl max_entries n))
        × Sound (ask_at id now ∷ calls) n
  unfolding blocked
  ask-Sound id now calls m s = elim (Bool-cases (is_empty id)) [
    | inl empty ↦ rw empty (m, refl, s)
    | inr named ↦ elim (Option-cases (lookup id m)) [
      | inl missing ↦ rw (named, missing) (m, refl, s)
      | inr (e, found) ↦ elim (Bool-cases (leb e now)) [
        | inl past ↦
            rw (named, found, past)
              (
                delete id m,
                refl,
                (
                  Distinct-delete id m s.0,
                  omega (arith, length-delete_le id m, s.1),
                  λ k. ground (arith, lookup-delete id k m s.0, s.2 k),
                ),
              )
        | inr later ↦ rw (named, found, later) (m, refl, s)
      ]
    ]
  ]

  -- The entries after a run from the new blocker.
  run-Sound :
      (calls : List Call)
      → (m : Assoc Time) × (run (some (blocker ttl max_entries [])) calls
          ≡ some (blocker ttl max_entries m))
        × Sound calls m
  run-Sound [] = ([], refl, (tt, omega arith, λ k. inl (lookup-Fresh k [] tt)))
  run-Sound (block_at id now ∷ calls) =
      let (m, e, s) = run-Sound calls in rw e (block-Sound id now calls m s)
  run-Sound (ask_at id now ∷ calls) =
      let (m, e, s) = run-Sound calls in rw e (ask-Sound id now calls m s)

  -- The specification, where no entry has been lost.
  abbrev Full : Time → List Call → Assoc Time → Type 0
  Full t calls m =
      Distinct m
      × length m ≤ length calls
      × ((id : Bytes) → after t (lookup id m) ≡ after t (expiry ttl (last_block id calls)))

  Full-entered :
      (t : Time) (id : Bytes) (now : Time) (calls : List Call) (m : Assoc Time)
      → is_empty id ≡ false
      → Full t calls m
      → Full t (block_at id now ∷ calls) (insert id (now + ttl) m)
  Full-entered t id now calls m ne s = (
    Distinct-insert id (now + ttl) m s.0,
    omega (arith, length-insert_le id (now + ttl) m, s.1),
    λ k. ground (arith, lookup-insert id k (now + ttl) m, s.2 k),
  )

  Full-deleted :
      (t : Time) (id : Bytes) (now : Time) (e : Time) (calls : List Call) (m : Assoc Time)
      → lookup id m ≡ some e
      → leb e now ≡ true
      → now ≤ t
      → Full t calls m
      → Full t (ask_at id now ∷ calls) (delete id m)
  Full-deleted t id now e calls m found past le s = (
    Distinct-delete id m s.0,
    omega (arith, length-delete_le id m, s.1),
    λ k. ground (arith, str_eq_iff id k, lookup-delete id k m s.0, s.2 k, found),
  )

  block-Full :
      (t : Time) (id : Bytes) (now : Time) (calls : List Call) (m : Assoc Time)
      → length calls < max_entries
      → Full t calls m
      → (n : Assoc Time) × (block id now (some (blocker ttl max_entries m))
          ≡ some (blocker ttl max_entries n))
        × Full t (block_at id now ∷ calls) n
  unfolding block
  block-Full t id now calls m le s = elim (Bool-cases (is_empty id)) [
    | inl empty ↦ rw empty (m, refl, (s.0, omega (arith, s.1), s.2))
    | inr named ↦
        let fits : ltb max_entries (length (insert id (now + ttl) m)) ≡ false =
          ge→ltb _ _ (omega (arith, length-insert_le id (now + ttl) m, s.1)) in
        rw (named, fits)
          (insert id (now + ttl) m, refl, rw named at (Full-entered t id now calls m named s))
  ]

  ask-Full :
      (t : Time) (id : Bytes) (now : Time) (calls : List Call) (m : Assoc Time)
      → now ≤ t
      → Full t calls m
      → (n : Assoc Time) × ((blocked id now (some (blocker ttl max_entries m))).1
          ≡ some (blocker ttl max_entries n))
        × Full t (ask_at id now ∷ calls) n
  unfolding blocked
  ask-Full t id now calls m le s =
      let unchanged : Full t (ask_at id now ∷ calls) m = (s.0, omega (arith, s.1), s.2) in
      elim (Bool-cases (is_empty id)) [
        | inl empty ↦ rw empty (m, refl, unchanged)
        | inr named ↦ elim (Option-cases (lookup id m)) [
          | inl missing ↦ rw (named, missing) (m, refl, unchanged)
          | inr (x, found) ↦ elim (Bool-cases (leb x now)) [
            | inl past ↦
                rw (named, found, past)
                  (delete id m, refl, Full-deleted t id now x calls m found past le s)
            | inr later ↦ rw (named, found, later) (m, refl, unchanged)
          ]
        ]
      ]

  run-Full :
      (t : Time) (calls : List Call)
      → length calls ≤ max_entries
      → AskedBy t calls
      → (m : Assoc Time) × (run (some (blocker ttl max_entries [])) calls
          ≡ some (blocker ttl max_entries m))
        × Full t calls m
  unfolding lookup
  run-Full t [] le asked = ([], refl, (tt, omega arith, λ k. refl))
  run-Full t (block_at id now ∷ calls) le asked =
      let (m, e, s) = run-Full t calls (omega arith) asked in
      rw e (block-Full t id now calls m (omega arith) s)
  run-Full t (ask_at id now ∷ calls) le asked =
      let (m, e, s) = run-Full t calls (omega arith) asked.1 in
      rw e (ask-Full t id now calls m asked.0 s)

pub last_block-empty : (calls : List Call) → last_block [] calls ≡ none
unfolding is_empty
last_block-empty [] = refl
last_block-empty (ask_at i now ∷ calls) = last_block-empty calls
last_block-empty (block_at i now ∷ calls) = ground (arith, str_eq_iff i [], last_block-empty calls)

-- What Blocked answers on a blocker with given entries.
blocked-answer :
    (id : Bytes) (t : Time) (ttl max_entries : ℕ) (m : Assoc Time)
    → (blocked id t (some (blocker ttl max_entries m))).0
      ≡ (not (is_empty id) && after t (lookup id m))
unfolding blocked
blocked-answer id t ttl max_entries m = ground arith

-- After any calls of a new blocker it holds no more ids than its limit, and does not answer that an
-- id is silent unless the id was blocked, the last time less than the time to live ago.
pub run-blocked_sound :
    (ttl max_entries : ℕ) (calls : List Call) (id : Bytes) (t : Time) (b : ChainBlocker)
    → run (some (blocker ttl max_entries [])) calls ≡ some b
    → (length b.entries ≤ max_entries)
      × (((blocked id t (some b)).0 && not (is_silent ttl id t calls)) ≡ false)
run-blocked_sound ttl max_entries calls id t b h =
    let (m, e, s) = run-Sound ttl max_entries calls in
    let same : blocker ttl max_entries m ≡ b = ground (arith, e, h) in
    subst
      (λ x.
        (length x.entries ≤ max_entries)
        × (((blocked id t (some x)).0 && not (is_silent ttl id t calls)) ≡ false))
      same (s.1, ground (arith, blocked-answer id t ttl max_entries m, s.2 id))

-- A new blocker, after no more calls than it may hold ids, all questions of them asked at `t` or
-- before, answers at `t` as the specification says: an id is silent exactly if it was blocked, the
-- last time less than the time to live ago.
pub run-blocked :
    (ttl max_entries : ℕ) (calls : List Call) (id : Bytes) (t : Time)
    → length calls ≤ max_entries
    → AskedBy t calls
    → (blocked id t (run (some (blocker ttl max_entries [])) calls)).0 ≡ is_silent ttl id t calls
run-blocked ttl max_entries calls id t le asked =
    let (m, e, s) = run-Full ttl max_entries t calls le asked in
    rw e (
      ground (
        arith,
        blocked-answer id t ttl max_entries m,
        s.2 id,
        last_block-empty calls,
        is_empty_iff id,
      ))
