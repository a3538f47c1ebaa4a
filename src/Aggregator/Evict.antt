-- ===== src/Aggregator/Evict.antt =====
-- groupBuffer and evictGroupsLocked of internal/aggregator/aggregator.go.
pub mod Victims
pub mod Size
use docker_monitor.Prelude.{
  ℕ, zero, suc, ◌-◌, Bool, not, ◌&&◌, ◌||◌, Option, none, some, List, [], ◌∷◌, ltb, leb,
  if◌then◌else◌, length,
}
use docker_monitor.Prelude.Bytes.{Bytes}
use docker_monitor.Prelude.Assoc.{Assoc, lookup, delete, retain}
use docker_monitor.Prelude.Sort.{sort_by}
use docker_monitor.Model.{Time, time_sub, LogEvent}

pub record GroupBuffer : Type 0 where
  pub first_seen : Time
  pub last_seen : Time
  pub last_touched : Time
  -- a Go map from names to struct{}
  pub containers : Assoc (Unit {0})
  pub has_alert : Bool
  pub events : List LogEvent

-- A group without an alert that was last touched group_ttl ago, or earlier.
abbrev pub is_expired : ℕ → Time → GroupBuffer → Bool
is_expired group_ttl now buffer =
    not buffer.has_alert && leb group_ttl (time_sub now buffer.last_touched)

unfoldable pub evict_expired : ℕ → Time → Assoc GroupBuffer → Assoc GroupBuffer
evict_expired group_ttl now groups =
    if ltb 0 group_ttl then retain (λ b. not (is_expired group_ttl now b)) groups else groups

pub record Candidate : Type 0 where
  pub key : Bytes
  pub last_touch : Time

unfoldable pub candidates_of : Assoc GroupBuffer → List Candidate
candidates_of [] = []
candidates_of ((k, b) ∷ groups) =
    let rest = candidates_of groups in
    if b.has_alert then rest else record { key = k; last_touch = b.last_touched } ∷ rest

-- The last loop: `need` groups are deleted, those named first.
unfoldable pub evict_first : ℕ → List Candidate → Assoc GroupBuffer → Assoc GroupBuffer
unfolding lookup delete
evict_first need [] groups = groups
evict_first zero (c ∷ cs) groups = groups
evict_first (suc need) (c ∷ cs) groups = elim (lookup c.key groups) [
  | none ↦ evict_first (suc need) cs groups
  | some b ↦ evict_first need cs (delete c.key groups)
]

unfoldable pub evict_excess : ℕ → Assoc GroupBuffer → Assoc GroupBuffer
unfolding candidates_of evict_first sort_by
evict_excess max_groups groups =
    if leb max_groups 0 || leb (length groups) max_groups
    then groups
    else evict_first (length groups - max_groups)
        (sort_by (λ (c : Candidate). c.last_touch) (candidates_of groups)) groups

unfoldable pub evict_groups : ℕ → ℕ → Time → Assoc GroupBuffer → Assoc GroupBuffer
unfolding evict_expired evict_excess
evict_groups group_ttl max_groups now groups =
    evict_excess max_groups (evict_expired group_ttl now groups)
