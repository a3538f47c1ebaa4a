-- ===== src/Aggregator.antt =====
-- internal/aggregator/aggregator.go: log events are buffered by log id, and a group that has seen
-- an alert is handed to the store as one batch. The mutex makes each method one step; the readings
-- of the clock are arguments.
pub mod Evict
pub mod Touch
pub mod Invariant
pub mod Preserve
pub mod Conservation
pub mod Drain
pub mod Delivery
pub mod Spans
pub mod Backfill
mod Tests
use Evict.{GroupBuffer, evict_groups}
use docker_monitor.Model.{Errors, LogBatch, LogEvent, Sink, Time, append_all}
use docker_monitor.Prelude.{
  Bool, List, Option, [], count, drop, false, if◌then◌else◌, leb, length, ltb, none, not, some, suc,
  true, zero, ℕ, ◌%◌, ◌&&◌, ◌*◌, ◌++◌, ◌+◌, ◌-◌, ◌/◌, ◌==◌, ◌^◌, ◌||◌, ◌∷◌,
}
use docker_monitor.Prelude.Assoc.{Assoc, delete, insert, lookup}
use docker_monitor.Prelude.Bytes.{Bytes, str_eq}
use docker_monitor.Prelude.Int.{below, clamp_zero, negsuc, pos, ℤ}
use docker_monitor.Prelude.Sort.{sort_by}

pub record Aggregator : Type 0 where
  pub flush_size : ℤ
  pub unknown_log_id : Bytes
  pub max_group_size : ℕ
  pub max_groups : ℕ
  pub group_ttl : ℕ
  pub groups : Assoc GroupBuffer
  -- the bit patterns of an atomic.Int32 and an atomic.Int64
  pub active_backfills : ℕ
  pub backfill_alerts : ℕ

abbrev pub max_buffered_events_factor : ℕ
max_buffered_events_factor = 10

-- int(^uint(0) >> 1) on a 64-bit machine
abbrev pub max_int : ℕ
max_int = 2 ^ 63 - 1

pub max_buffered_events : ℤ → ℕ
max_buffered_events (negsuc n) = max_buffered_events_factor
max_buffered_events (pos zero) = max_buffered_events_factor
max_buffered_events (pos (suc n)) =
    if ltb (max_int / max_buffered_events_factor) (suc n)
    then suc n
    else suc n * max_buffered_events_factor

pub new : ℤ → Bytes → ℤ → ℤ → Aggregator
unfolding max_buffered_events
new flush_size unknown_log_id max_groups group_ttl = record {
  flush_size = flush_size;
  unknown_log_id = unknown_log_id;
  max_group_size = max_buffered_events flush_size;
  max_groups = clamp_zero max_groups;
  group_ttl = clamp_zero group_ttl;
  groups = [];
  active_backfills = 0;
  backfill_alerts = 0;
}

-- The keys of the set of container names.
abbrev pub keys {ℓ} : {V : Type ℓ} → Assoc V → List Bytes
keys [] = []
keys ((k, v) ∷ m) = k ∷ keys m

pub snapshot_batch : Bytes → GroupBuffer → Time → LogBatch
unfolding sort_by
snapshot_batch key buffer flushed_at = record {
  log_id = key;
  first_seen = buffer.first_seen;
  last_seen = buffer.last_seen;
  count = length buffer.events;
  containers = keys buffer.containers;
  events = sort_by (λ (e : LogEvent). e.timestamp) buffer.events;
  flushed_at = flushed_at;
  suppress_alert_sinks = false;
}

pub batch_from_single_event : LogEvent → Time → LogBatch
batch_from_single_event event flushed_at = record {
  log_id = event.log_id;
  first_seen = event.timestamp;
  last_seen = event.timestamp;
  count = 1;
  containers = event.container.name ∷ [];
  events = event ∷ [];
  flushed_at = flushed_at;
  suppress_alert_sinks = false;
}

pub should_flush_individually : Aggregator → LogEvent → Bool
should_flush_individually a event = event.alert_matched && str_eq event.log_id a.unknown_log_id

-- The buffer that `add` finds, or makes.
abbrev pub buffer_or_new : LogEvent → Time → Option GroupBuffer → GroupBuffer
buffer_or_new event now (some buffer) = buffer
buffer_or_new event now none = record {
  first_seen = event.timestamp;
  last_seen = event.timestamp;
  last_touched = now;
  containers = [];
  has_alert = false;
  events = [];
}

-- buffer.firstSeen after the oldest events were cut off
abbrev first_timestamp : Time → List LogEvent → Time
first_timestamp old [] = old
first_timestamp old (e ∷ es) = e.timestamp

-- What `add` does to the group of the event.
pub touch : ℕ → LogEvent → Time → GroupBuffer → GroupBuffer
unfolding insert
touch max_group_size event now buffer =
    let seen =
      if buffer.first_seen == 0 || ltb event.timestamp buffer.first_seen
      then event.timestamp
      else buffer.first_seen in
    let events = buffer.events ++ event ∷ [] in
    let overflow = length events - max_group_size in
    let kept = if ltb 0 overflow then drop overflow events else events in
    record {
      first_seen = if ltb 0 overflow then first_timestamp seen kept else seen;
      last_seen =
          if ltb buffer.last_seen event.timestamp then event.timestamp else buffer.last_seen;
      last_touched = now;
      containers = insert event.container.name tt buffer.containers;
      has_alert = buffer.has_alert || event.alert_matched;
      events = kept;
    }

-- The end of `add`, on the touched buffer and the groups that hold it.
pub settle :
    Aggregator
    → Bytes
    → Time
    → Time
    → GroupBuffer
    → Assoc GroupBuffer
    → Assoc GroupBuffer × Option LogBatch
unfolding delete snapshot_batch evict_groups
settle a key now flushed_at buffer groups =
    if not buffer.has_alert && leb a.max_group_size (length buffer.events)
    then (delete key groups, none)
    else (let evicted = evict_groups a.group_ttl a.max_groups now groups in
        if not buffer.has_alert || below (length buffer.events) a.flush_size
        then (evicted, none)
        else (delete key evicted, some (snapshot_batch key buffer flushed_at)))

pub add : Aggregator → LogEvent → Time → Time → Aggregator × Option LogBatch
unfolding touch settle lookup
add a event now flushed_at =
    let key = event.log_id in
    let groups = evict_groups a.group_ttl a.max_groups now a.groups in
    let buffer = touch a.max_group_size event now (buffer_or_new event now (lookup key groups)) in
    let (left, batch) = settle a key now flushed_at buffer (insert key buffer groups) in
    (record a { groups = left }, batch)

-- a.activeBackfills.Load() > 0
pub is_backfilling : Aggregator → Bool
is_backfilling a = ltb 0 a.active_backfills && ltb a.active_backfills (2 ^ 31)

-- `if suppress && event.AlertMatched { a.backfillAlerts.Add(1) }`
pub count_replayed : Aggregator → LogEvent → Aggregator
unfolding is_backfilling
count_replayed a event =
    if is_backfilling a && event.alert_matched
    then record a { backfill_alerts = (a.backfill_alerts + 1) % 2 ^ 64 }
    else a

-- `batch.SuppressAlertSinks = suppress`
abbrev pub mark : Bool → Option LogBatch → Option LogBatch
mark suppress none = none
mark suppress (some b) = some (record b { suppress_alert_sinks = suppress })

-- The state after Add, and the batch that it hands to the store.
pub admit : Aggregator → LogEvent → Time → Time → Aggregator × Option LogBatch
admit a event now flushed_at =
    let suppress = is_backfilling a in
    let counted = count_replayed a event in
    if should_flush_individually a event
    then (counted, mark suppress (some (batch_from_single_event event flushed_at)))
    else (let (a', batch) = add counted event now flushed_at in (a', mark suppress batch))

-- `return a.store.AppendBatch(ctx, batch)`, or nil when there is no batch.
unfoldable pub hand_over :
    {S : Type 0} → Sink S → Aggregator → Option LogBatch → S → Errors × (Aggregator × S)
hand_over sink a none s = ([], (a, s))
hand_over sink a (some b) s = let (e, s') = sink b s in (e, (a, s'))

-- Add
unfoldable pub add_event :
    {S : Type 0} → Sink S → LogEvent → Time → Time → Aggregator × S → Errors × (Aggregator × S)
unfolding hand_over
add_event sink event now flushed_at (a, s) =
    let (a', batch) = admit a event now flushed_at in hand_over sink a' batch s

-- The loop of drainAll; `flushed_at` reads the clock at each snapshot.
pub drain_groups : (Bytes → Time) → Assoc GroupBuffer → List LogBatch × Assoc GroupBuffer
unfolding snapshot_batch
drain_groups flushed_at [] = ([], [])
drain_groups flushed_at ((key, buffer) ∷ groups) =
    let (batches, left) = drain_groups flushed_at groups in
    if length buffer.events == 0 || not buffer.has_alert
    then (batches, (key, buffer) ∷ left)
    else (snapshot_batch key buffer (flushed_at key) ∷ batches, left)

pub drain_all : Aggregator → Time → (Bytes → Time) → Aggregator × List LogBatch
unfolding drain_groups evict_groups
drain_all a now flushed_at =
    let (batches, left) =
      drain_groups flushed_at (evict_groups a.group_ttl a.max_groups now a.groups) in
    (record a { groups = left }, batches)

-- `if suppress { batch.SuppressAlertSinks = true }`
abbrev pub mark_all : Bool → List LogBatch → List LogBatch
mark_all suppress [] = []
mark_all suppress (b ∷ bs) =
    (if suppress then record b { suppress_alert_sinks = true } else b) ∷ mark_all suppress bs

-- FlushAll
pub flush_all :
    {S : Type 0} → Sink S → Time → (Bytes → Time) → Aggregator × S → Errors × (Aggregator × S)
flush_all sink now flushed_at (a, s) =
    let (a', batches) = drain_all a now flushed_at in
    let (es, s') = append_all sink (mark_all (is_backfilling a') batches) s in (es, (a', s'))

-- EnterBackfill
pub enter_backfill : Aggregator → Aggregator
enter_backfill a =
    let active = (a.active_backfills + 1) % 2 ^ 32 in
    record a {
      active_backfills = active;
      backfill_alerts = if active == 1 then 0 else a.backfill_alerts;
    }

-- ExitBackfill
pub exit_backfill : Aggregator → ℕ × Aggregator
exit_backfill a =
    let remaining = (a.active_backfills + (2 ^ 32 - 1)) % 2 ^ 32 in
    if leb (2 ^ 31) remaining
    then (0, record a { active_backfills = 0 })
    else if remaining == 0
    then (a.backfill_alerts, record a { active_backfills = 0; backfill_alerts = 0 })
    else (0, record a { active_backfills = remaining })
