-- ===== src/Aggregator/Spans.antt =====
-- internal/aggregator/aggregator.go: FirstSeen, LastSeen, Count and the order of a batch.
use docker_monitor.Aggregator.{Aggregator, add, buffer_or_new, settle, snapshot_batch, touch}
use docker_monitor.Aggregator.Evict.{GroupBuffer}
use docker_monitor.Aggregator.Evict.Victims.{Values-evict_groups}
use docker_monitor.Aggregator.Invariant.{IsValid}
use docker_monitor.Aggregator.Preserve.{live, live-Groups, touched, touched-room}
use docker_monitor.Aggregator.Touch.{events-touch}
use docker_monitor.Model.{LogBatch, LogEvent, Time}
use docker_monitor.Prelude.{
  All, All-append, Bool-cases, List, Option, Option-cases, [], arith, inl, inr, leb, length,
  length-append, none, not, some, sym, ℕ, ◌&&◌, ◌<◌, ◌||◌, ◌∷◌, ◌≡◌, ◌≤◌,
}
use docker_monitor.Prelude.Assoc.{Assoc, Distinct, Values, insert, lookup}
use docker_monitor.Prelude.Assoc.Laws.{Distinct-insert, Values-delete, Values-insert, Values-lookup}
use docker_monitor.Prelude.Bytes.{Bytes}
use docker_monitor.Prelude.Int.{below}
use docker_monitor.Prelude.Sort.{All-sort_by, IsSorted, length-sort_by, sort_by-IsSorted}

-- The buffer's first and last time bound its events.
abbrev pub IsSpanned : GroupBuffer → Type 0
IsSpanned b =
    (0 < b.first_seen)
    × All (λ (e : LogEvent). (b.first_seen ≤ e.timestamp) × (e.timestamp ≤ b.last_seen)) b.events

abbrev pub BatchSpanned : Option LogBatch → Type 0
BatchSpanned none = Unit
BatchSpanned (some b) =
    All (λ (e : LogEvent). (b.first_seen ≤ e.timestamp) × (e.timestamp ≤ b.last_seen)) b.events
    × (b.count ≡ length b.events)
    × IsSorted (λ (e : LogEvent). e.timestamp) b.events

widen :
    (lo hi lo' hi' : Time) (es : List LogEvent)
    → lo' ≤ lo
    → hi ≤ hi'
    → All (λ (e : LogEvent). (lo ≤ e.timestamp) × (e.timestamp ≤ hi)) es
    → All (λ (e : LogEvent). (lo' ≤ e.timestamp) × (e.timestamp ≤ hi')) es
widen lo hi lo' hi' [] l h k = tt
widen lo hi lo' hi' (e ∷ es) l h k =
    ((omega (arith, k.0.0), omega (arith, k.0.1)), widen lo hi lo' hi' es l h k.1)

module _ (max_group_size : ℕ) (event : LogEvent) (now : Time) (dated : 0 < event.timestamp) where
  times-touch :
      (b : GroupBuffer)
      → length b.events < max_group_size
      → (0 < b.first_seen)
      → ((touch max_group_size event now b).first_seen ≤ b.first_seen)
        × ((touch max_group_size event now b).first_seen ≤ event.timestamp)
        × (0 < (touch max_group_size event now b).first_seen)
        × (b.last_seen ≤ (touch max_group_size event now b).last_seen)
        × (event.timestamp ≤ (touch max_group_size event now b).last_seen)
  unfolding touch
  times-touch b room seen = ground (arith, length-append b.events (event ∷ []))

  touch-IsSpanned :
      (b : GroupBuffer)
      → length b.events < max_group_size
      → IsSpanned b
      → IsSpanned (touch max_group_size event now b)
  touch-IsSpanned b room h =
      let t = times-touch b room h.0 in
      (
        t.2,
        rw (events-touch max_group_size event now b room) (
            All-append _ b.events (event ∷ []) (widen _ _ _ _ b.events t.0 t.3 h.1)
              ((t.1, t.4), tt)),
      )

settle-Spanned :
    (a : Aggregator) (key : Bytes) (now flushed_at : Time) (b : GroupBuffer)
    (groups : Assoc GroupBuffer)
    → Distinct groups
    → IsSpanned b
    → Values IsSpanned groups
    → Values IsSpanned (settle a key now flushed_at b (insert key b groups)).0
      × BatchSpanned (settle a key now flushed_at b (insert key b groups)).1
unfolding settle snapshot_batch
settle-Spanned a key now flushed_at b groups d s h =
    let held = Values-insert IsSpanned key b groups s h in
    let kept =
      Values-evict_groups IsSpanned a.group_ttl a.max_groups now (insert key b groups)
        (Distinct-insert key b groups d) held in
    elim (Bool-cases (not b.has_alert && leb a.max_group_size (length b.events))) [
      | inl full ↦ rw full (Values-delete IsSpanned key _ held, tt)
      | inr small ↦ elim (Bool-cases (not b.has_alert || below (length b.events) a.flush_size)) [
        | inl wait ↦ rw (small, wait) (kept, tt)
        | inr ready ↦
            rw (small, ready)
              (
                Values-delete IsSpanned key _ kept,
                (
                  All-sort_by (λ (e : LogEvent). e.timestamp) _ b.events s.1,
                  sym (length-sort_by (λ (e : LogEvent). e.timestamp) b.events),
                  sort_by-IsSorted (λ (e : LogEvent). e.timestamp) b.events,
                ),
              )
      ]
    ]

found-IsSpanned :
    (event : LogEvent) (now : Time) (key : Bytes) (groups : Assoc GroupBuffer)
    → 0 < event.timestamp
    → Values IsSpanned groups
    → IsSpanned (buffer_or_new event now (lookup key groups))
found-IsSpanned event now key groups dated h = elim (Option-cases (lookup key groups)) [
  | inl e ↦ rw e (dated, tt)
  | inr (b, e) ↦ rw e (Values-lookup IsSpanned key groups h e)
]

-- Where every event has a time (none is the zero time), a group's FirstSeen and LastSeen bound the
-- times of its events, before and after `add`; and in a batch that `add` returns they do so too,
-- Count is the number of events, and the events are in the order of their times.
pub add-Spanned :
    (a : Aggregator) (event : LogEvent) (now flushed_at : Time)
    → IsValid a
    → 0 < event.timestamp
    → Values IsSpanned a.groups
    → Values IsSpanned (add a event now flushed_at).0.groups
      × BatchSpanned (add a event now flushed_at).1
unfolding add
add-Spanned a event now flushed_at v dated h =
    let alive = Values-evict_groups IsSpanned a.group_ttl a.max_groups now a.groups v.distinct h in
    settle-Spanned a event.log_id now flushed_at (touched a event now (live a now)) (live a now)
      (live-Groups a event now flushed_at v).0
      (touch-IsSpanned a.max_group_size event now dated
        (buffer_or_new event now (lookup event.log_id (live a now)))
        (touched-room a event now flushed_at v).0
        (found-IsSpanned event now event.log_id (live a now) dated alive))
      alive
