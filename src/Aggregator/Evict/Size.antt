-- ===== src/Aggregator/Evict/Size.antt =====
-- internal/aggregator/aggregator.go: the number of groups after evictGroupsLocked.
use docker_monitor.Aggregator.Evict.{
  Candidate, GroupBuffer, candidates_of, evict_excess, evict_expired, evict_first, evict_groups,
}
use docker_monitor.Aggregator.Evict.Victims.{Distinct-evict_expired}
use docker_monitor.Model.{Time}
use docker_monitor.Prelude.{
  Bool, Bool-cases, List, Option-cases, [], arith, count, inl, inr, leb, length, none, some, suc,
  true, zero, ℕ, ◌+◌, ◌-◌, ◌<◌, ◌||◌, ◌∷◌, ◌≡◌, ◌≤◌, ◌⊎◌,
}
use docker_monitor.Prelude.Assoc.{Assoc, Distinct, Fresh, Values, delete, lookup}
use docker_monitor.Prelude.Assoc.Laws.{Distinct-delete, lookup-delete}
use docker_monitor.Prelude.Bytes.{Bytes, str_eq, str_eq_iff, str_eq_refl}
use docker_monitor.Prelude.Sort.{count-sort_by, sort_by}

abbrev names : Bytes → Candidate → Bool
names k c = str_eq c.key k

-- Every group has an alert, or is named by a candidate.
abbrev Covered : List Candidate → Assoc GroupBuffer → Type 0
Covered cs [] = Unit
Covered cs ((k, b) ∷ groups) = ((b.has_alert ≡ true) ⊎ (0 < count (names k) cs)) × Covered cs groups

abbrev pub AllAlert : Assoc GroupBuffer → Type 0
AllAlert = Values (λ b. b.has_alert ≡ true)

Covered-more :
    (cs ds : List Candidate) (groups : Assoc GroupBuffer)
    → ((k : Bytes) → count (names k) cs ≤ count (names k) ds)
    → Covered cs groups
    → Covered ds groups
Covered-more cs ds [] le h = tt
Covered-more cs ds ((k, b) ∷ groups) le h =
    (ground (arith, le k, h.0), Covered-more cs ds groups le h.1)

Covered-candidates_of : (groups : Assoc GroupBuffer) → Covered (candidates_of groups) groups
unfolding candidates_of
Covered-candidates_of [] = tt
Covered-candidates_of ((k, b) ∷ groups) = (
  ground (arith, str_eq_refl k),
  Covered-more (candidates_of groups) (candidates_of ((k, b) ∷ groups)) groups (λ j. ground arith)
      (Covered-candidates_of groups),
)

Covered-nil : (groups : Assoc GroupBuffer) → Covered [] groups → AllAlert groups
Covered-nil [] h = tt
Covered-nil ((k, b) ∷ groups) h = (ground (arith, h.0), Covered-nil groups h.1)

-- A candidate whose key is not there covers nothing.
Covered-skip :
    (c : Candidate) (cs : List Candidate) (groups : Assoc GroupBuffer)
    → Fresh c.key groups
    → Covered (c ∷ cs) groups
    → Covered cs groups
Covered-skip c cs [] f h = tt
Covered-skip c cs ((k, b) ∷ groups) f h =
    (ground (arith, str_eq_iff c.key k, f.0, h.0), Covered-skip c cs groups f.1 h.1)

lookup-none : (k : Bytes) (groups : Assoc GroupBuffer) → lookup k groups ≡ none → Fresh k groups
unfolding lookup
lookup-none k [] e = tt
lookup-none k ((j, b) ∷ groups) e =
    ((λ p. ground (arith, str_eq_iff j k)), lookup-none k groups (ground (arith, str_eq_iff j k)))

Fresh-delete_self :
    (k : Bytes) (groups : Assoc GroupBuffer) → Distinct groups → Fresh k (delete k groups)
Fresh-delete_self k groups d =
    lookup-none k (delete k groups) (simp (lookup-delete k k groups d, str_eq_refl))

Covered-delete :
    (cs : List Candidate) (k : Bytes) (groups : Assoc GroupBuffer)
    → Covered cs groups
    → Covered cs (delete k groups)
unfolding delete
Covered-delete cs k [] h = tt
Covered-delete cs k ((j, b) ∷ groups) h = elim (Bool-cases (str_eq j k)) [
  | inl same ↦ rw same h.1
  | inr other ↦ rw other (h.0, Covered-delete cs k groups h.1)
]

length-delete :
    (k : Bytes) (groups : Assoc GroupBuffer) (b : GroupBuffer)
    → lookup k groups ≡ some b
    → length (delete k groups) + 1 ≡ length groups
unfolding lookup delete
length-delete k [] b e = cc
length-delete k ((j, x) ∷ groups) b e = ground (arith, length-delete k groups b)

-- Either as many groups went as had to, or only groups with alerts are left.
evict_first-size :
    (need : ℕ) (cs : List Candidate) (groups : Assoc GroupBuffer)
    → Distinct groups
    → Covered cs groups
    → (length (evict_first need cs groups) + need ≡ length groups)
      ⊎ AllAlert (evict_first need cs groups)
unfolding evict_first
evict_first-size need [] groups d h = inr (Covered-nil groups h)
evict_first-size zero (c ∷ cs) groups d h = inl (omega arith)
evict_first-size (suc need) (c ∷ cs) groups d h = elim (Option-cases (lookup c.key groups)) [
  | inl e ↦
      rw (e, evict_first)
        (evict_first-size (suc need) cs groups d
          (Covered-skip c cs groups (lookup-none c.key groups e) h))
  | inr (b, e) ↦
      let rest = evict_first-size need cs (delete c.key groups) (Distinct-delete c.key groups d) (
        Covered-skip c cs (delete c.key groups) (Fresh-delete_self c.key groups d)
          (Covered-delete (c ∷ cs) c.key groups h)) in
      rw (e, evict_first)
        (elim rest [
          | inl gone ↦ inl (omega (arith, length-delete c.key groups b e))
          | inr alerts ↦ inr alerts
        ])
]

-- After evictGroupsLocked the number of groups is within the limit, or each group has an alert.
pub evict_groups-size :
    (group_ttl max_groups : ℕ) (now : Time) (groups : Assoc GroupBuffer)
    → 0 < max_groups
    → Distinct groups
    → (length (evict_groups group_ttl max_groups now groups) ≤ max_groups)
      ⊎ AllAlert (evict_groups group_ttl max_groups now groups)
unfolding evict_groups evict_excess
evict_groups-size group_ttl max_groups now groups limited d =
    let live = evict_expired group_ttl now groups in
    let sorted = sort_by (λ (c : Candidate). c.last_touch) (candidates_of live) in
    let covered : Covered sorted live =
      Covered-more (candidates_of live) sorted live
        (λ k.
          omega
            (arith, count-sort_by (λ (c : Candidate). c.last_touch) (names k) (candidates_of live)))
        (Covered-candidates_of live) in
    elim (Bool-cases (leb max_groups 0 || leb (length live) max_groups)) [
      | inl small ↦ rw small (inl (ground arith))
      | inr large ↦
          rw large
            (elim (evict_first-size (length live - max_groups) sorted live
              (Distinct-evict_expired group_ttl now groups d) covered) [
                | inl gone ↦ inl (ground arith)
                | inr alerts ↦ inr alerts
              ])
    ]
