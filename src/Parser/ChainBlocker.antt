-- ===== src/Parser/ChainBlocker.antt =====
-- internal/parser/parser.go: chainBlocker, the log ids that are silent for a while. The pointer is an
-- Option, whose none is the nil that stands for a filter that is switched off.
pub mod Laws
pub mod History
pub mod Tests
use docker_monitor.Aggregator.Preserve.{live}
use docker_monitor.Model.{Time}
use docker_monitor.Prelude.{
  Bool, List, Option, [], false, if◌then◌else◌, leb, length, ltb, none, some, true, ℕ, ◌*◌, ◌+◌,
  ◌/◌, ◌∷◌,
}
use docker_monitor.Prelude.Assoc.{Assoc, delete, insert, lookup, retain}
use docker_monitor.Prelude.Bytes.{Bytes, is_empty}
use docker_monitor.Prelude.Int.{clamp_zero, is_nonpositive, ℤ}
use docker_monitor.Prelude.Sort.{sort_by}

abbrev pub chain_blocker_max_entries : ℕ
chain_blocker_max_entries = 100_000

-- `entries` has the time at which each id's silence ends.
pub record ChainBlocker : Type 0 where
  pub ttl : ℕ
  pub max_entries : ℕ
  pub entries : Assoc Time

abbrev pub new_chain_blocker : ℤ → ℤ → Option ChainBlocker
new_chain_blocker ttl max_entries =
    if is_nonpositive ttl
    then none
    else some (record {
      ttl = clamp_zero ttl;
      max_entries =
          if is_nonpositive max_entries then chain_blocker_max_entries else clamp_zero max_entries;
      entries = [];
    })

pub record Item : Type 0 where
  pub id : Bytes
  pub exp : Time

unfoldable pub items_of : Assoc Time → List Item
items_of [] = []
items_of ((id, exp) ∷ entries) = record { id = id; exp = exp } ∷ items_of entries

-- The last loop of evictLocked, down to `target` entries.
unfoldable pub evict_until : ℕ → List Item → Assoc Time → Assoc Time
unfolding delete
evict_until target [] entries = entries
evict_until target (i ∷ items) entries =
    let rest = evict_until target items (delete i.id entries) in
    if ltb target (length entries) then rest else entries

-- evictLocked
unfoldable pub evict_locked : Time → ChainBlocker → ChainBlocker
unfolding items_of evict_until sort_by
evict_locked now b =
    let live = retain (λ exp. ltb now exp) b.entries in
    record b {
      entries =
          if leb (length live) b.max_entries
          then live
          else evict_until (b.max_entries * 8 / 10) (sort_by (λ (i : Item). i.exp) (items_of live))
              live;
    }

-- Block
unfoldable pub block : Bytes → Time → Option ChainBlocker → Option ChainBlocker
unfolding insert evict_locked is_empty
block log_id now none = none
block log_id now (some b) =
    let entered = record b { entries = insert log_id (now + b.ttl) b.entries } in
    if is_empty log_id
    then some b
    else some
        (if ltb b.max_entries (length entered.entries) then evict_locked now entered else entered)

-- What Blocked makes of the entry that it finds.
abbrev pub blocked_found : Bytes → Time → ChainBlocker → Option Time → Bool × ChainBlocker
blocked_found log_id now b none = (false, b)
blocked_found log_id now b (some expire_at) =
    if leb expire_at now then (false, record b { entries = delete log_id b.entries }) else (true, b)

-- Blocked
unfoldable pub blocked : Bytes → Time → Option ChainBlocker → Bool × Option ChainBlocker
unfolding lookup delete is_empty
blocked log_id now none = (false, none)
blocked log_id now (some b) =
    let (silent, b') = blocked_found log_id now b (lookup log_id b.entries) in
    if is_empty log_id then (false, some b) else (silent, some b')
