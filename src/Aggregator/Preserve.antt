-- ===== src/Aggregator/Preserve.antt =====
-- internal/aggregator/aggregator.go: the methods against the invariant.
use docker_monitor.Aggregator.{
  Aggregator, add, admit, buffer_or_new, count_replayed, drain_all, drain_groups, enter_backfill,
  exit_backfill, is_backfilling, new, should_flush_individually, touch,
}
use docker_monitor.Aggregator.Evict.{GroupBuffer, evict_groups}
use docker_monitor.Aggregator.Invariant.{
  Groups, IsValid, buffer_or_new-room, evict_groups-Groups, max_group_size_pos, settle-Groups,
}
use docker_monitor.Aggregator.Touch.{IsFlagged, length-touch, touch-IsFlagged}
use docker_monitor.Model.{LogEvent, Time}
use docker_monitor.Prelude.{
  Bool-cases, [], arith, inl, inr, leb, length, not, refl, ℕ, ◌%◌, ◌&&◌, ◌+◌, ◌-◌, ◌<◌, ◌==◌, ◌^◌,
  ◌||◌, ◌∷◌, ◌≡◌,
}
use docker_monitor.Prelude.Assoc.{Assoc, Fresh, lookup}
use docker_monitor.Prelude.Bytes.{Bytes}
use docker_monitor.Prelude.Int.{ℤ}

pub new-IsValid :
    (flush_size max_groups group_ttl : ℤ) (unknown_log_id : Bytes)
    → IsValid (new flush_size unknown_log_id max_groups group_ttl)
unfolding new
new-IsValid flush_size max_groups group_ttl unknown_log_id = record {
  sized = refl;
  distinct = tt;
  buffers = tt;
}

-- The buffer that `add` goes on with after the event, in the groups that the first eviction left.
abbrev pub touched : Aggregator → LogEvent → Time → Assoc GroupBuffer → GroupBuffer
touched a event now groups =
    touch a.max_group_size event now (buffer_or_new event now (lookup event.log_id groups))

abbrev pub live : Aggregator → Time → Assoc GroupBuffer
live a now = evict_groups a.group_ttl a.max_groups now a.groups

module _ (a : Aggregator) (event : LogEvent) (now flushed_at : Time) (v : IsValid a) where
  pub live-Groups : Groups a.max_group_size a.flush_size (live a now)
  live-Groups =
      evict_groups-Groups a.max_group_size a.flush_size a.group_ttl a.max_groups now a.groups
        (v.distinct, v.buffers)

  pub touched-room :
      (length (buffer_or_new event now (lookup event.log_id (live a now))).events
        < a.max_group_size)
      × IsFlagged (buffer_or_new event now (lookup event.log_id (live a now)))
  touched-room =
      buffer_or_new-room a.max_group_size a.flush_size event now event.log_id (live a now)
        (max_group_size_pos a v) live-Groups.1

  pub touched-length :
      length (touched a event now (live a now)).events
      ≡ length (buffer_or_new event now (lookup event.log_id (live a now))).events + 1
  touched-length = length-touch a.max_group_size event now _ touched-room.0

  pub touched-IsFlagged : IsFlagged (touched a event now (live a now))
  touched-IsFlagged = touch-IsFlagged a.max_group_size event now _ touched-room.0 touched-room.1

  add-Groups : Groups a.max_group_size a.flush_size (add a event now flushed_at).0.groups
  unfolding add
  add-Groups =
      settle-Groups a v.sized event.log_id now flushed_at (touched a event now (live a now))
        (omega (arith, touched-length)) (omega (arith, touched-length, touched-room.0))
        touched-IsFlagged (live a now) live-Groups

  pub add-IsValid : IsValid (add a event now flushed_at).0
  unfolding add
  add-IsValid = record { sized = v.sized; distinct = add-Groups.0; buffers = add-Groups.1 }

pub count_replayed-IsValid :
    (a : Aggregator) (event : LogEvent) → IsValid a → IsValid (count_replayed a event)
unfolding count_replayed
count_replayed-IsValid a event v = elim (Bool-cases (is_backfilling a && event.alert_matched)) [
  | inl on ↦ rw on (record { sized = v.sized; distinct = v.distinct; buffers = v.buffers })
  | inr off ↦ rw off v
]

pub admit-IsValid :
    (a : Aggregator) (event : LogEvent) (now flushed_at : Time)
    → IsValid a
    → IsValid (admit a event now flushed_at).0
unfolding admit
admit-IsValid a event now flushed_at v =
    let counted = count_replayed-IsValid a event v in
    elim (Bool-cases (should_flush_individually a event)) [
      | inl alone ↦ rw alone counted
      | inr grouped ↦ rw grouped (add-IsValid (count_replayed a event) event now flushed_at counted)
    ]

drain_groups-Fresh :
    (flushed_at : Bytes → Time) (k : Bytes) (groups : Assoc GroupBuffer)
    → Fresh k groups
    → Fresh k (drain_groups flushed_at groups).1
unfolding drain_groups
drain_groups-Fresh flushed_at k [] h = tt
drain_groups-Fresh flushed_at k ((j, b) ∷ groups) h =
    elim (Bool-cases (length b.events == 0 || not b.has_alert)) [
      | inl kept ↦ rw kept (h.0, drain_groups-Fresh flushed_at k groups h.1)
      | inr sent ↦ rw sent (drain_groups-Fresh flushed_at k groups h.1)
    ]

drain_groups-Groups :
    (max_group_size : ℕ) (flush_size : ℤ) (flushed_at : Bytes → Time) (groups : Assoc GroupBuffer)
    → Groups max_group_size flush_size groups
    → Groups max_group_size flush_size (drain_groups flushed_at groups).1
unfolding drain_groups
drain_groups-Groups m s flushed_at [] h = h
drain_groups-Groups m s flushed_at ((j, b) ∷ groups) h =
    let rest = drain_groups-Groups m s flushed_at groups (h.0.1, h.1.1) in
    elim (Bool-cases (length b.events == 0 || not b.has_alert)) [
      | inl kept ↦ rw kept ((drain_groups-Fresh flushed_at j groups h.0.0, rest.0), (h.1.0, rest.1))
      | inr sent ↦ rw sent rest
    ]

pub drain_all-IsValid :
    (a : Aggregator) (now : Time) (flushed_at : Bytes → Time)
    → IsValid a
    → IsValid (drain_all a now flushed_at).0
unfolding drain_all
drain_all-IsValid a now flushed_at v =
    let g = drain_groups-Groups a.max_group_size a.flush_size flushed_at (live a now) (
      evict_groups-Groups a.max_group_size a.flush_size a.group_ttl a.max_groups now a.groups
        (v.distinct, v.buffers)) in
    record { sized = v.sized; distinct = g.0; buffers = g.1 }

pub enter_backfill-IsValid : (a : Aggregator) → IsValid a → IsValid (enter_backfill a)
unfolding enter_backfill
enter_backfill-IsValid a v = record { sized = v.sized; distinct = v.distinct; buffers = v.buffers }

pub exit_backfill-IsValid : (a : Aggregator) → IsValid a → IsValid (exit_backfill a).1
unfolding exit_backfill
exit_backfill-IsValid a v =
    let remaining = (a.active_backfills + (2 ^ 32 - 1)) % 2 ^ 32 in
    elim (Bool-cases (leb (2 ^ 31) remaining)) [
      | inl under ↦
          rw under (record { sized = v.sized; distinct = v.distinct; buffers = v.buffers })
      | inr over ↦ rw over (elim (Bool-cases (remaining == 0)) [
        | inl last ↦
            rw last (record { sized = v.sized; distinct = v.distinct; buffers = v.buffers })
        | inr more ↦
            rw more (record { sized = v.sized; distinct = v.distinct; buffers = v.buffers })
      ])
    ]
