-- ===== src/Aggregator/Invariant.antt =====
-- internal/aggregator/aggregator.go: the invariant of the aggregator between two calls.
use docker_monitor.Aggregator.{Aggregator, buffer_or_new, max_buffered_events, settle}
use docker_monitor.Aggregator.Evict.{GroupBuffer, evict_groups}
use docker_monitor.Aggregator.Evict.Victims.{
  Distinct-evict_groups, Except-evict_groups, Values-evict_groups,
}
use docker_monitor.Aggregator.Touch.{IsFlagged, below-max_buffered_events, max_buffered_events_pos}
use docker_monitor.Model.{LogEvent, Time}
use docker_monitor.Prelude.{
  Bool-cases, Option-cases, arith, false, inl, inr, leb, length, not, refl, true, ℕ, ◌&&◌, ◌<◌,
  ◌||◌, ◌≡◌, ◌≤◌,
}
use docker_monitor.Prelude.Assoc.{Assoc, Distinct, Values, insert, lookup}
use docker_monitor.Prelude.Assoc.Except.{Except-delete_self, Except-insert}
use docker_monitor.Prelude.Assoc.Laws.{
  Distinct-delete, Distinct-insert, Values-insert, Values-lookup,
}
use docker_monitor.Prelude.Bytes.{Bytes}
use docker_monitor.Prelude.Int.{below, ℤ}

pub record BufferInv (max_group_size : ℕ) (flush_size : ℤ) (b : GroupBuffer) : Type 0 where
  pub nonempty : 0 < length b.events
  pub room : length b.events < max_group_size
  pub waiting : b.has_alert ≡ true → below (length b.events) flush_size ≡ true
  pub flagged : IsFlagged b

abbrev pub Groups : ℕ → ℤ → Assoc GroupBuffer → Type 0
Groups max_group_size flush_size groups =
    Distinct groups × Values (BufferInv max_group_size flush_size) groups

pub record IsValid (a : Aggregator) : Type 0 where
  pub sized : a.max_group_size ≡ max_buffered_events a.flush_size
  pub distinct : Distinct a.groups
  pub buffers : Values (BufferInv a.max_group_size a.flush_size) a.groups

pub max_group_size_pos : (a : Aggregator) → IsValid a → 0 < a.max_group_size
max_group_size_pos a v = rw v.sized (max_buffered_events_pos a.flush_size)

pub evict_groups-Groups :
    (max_group_size : ℕ) (flush_size : ℤ) (t m : ℕ) (now : Time) (groups : Assoc GroupBuffer)
    → Groups max_group_size flush_size groups
    → Groups max_group_size flush_size (evict_groups t m now groups)
evict_groups-Groups max_group_size flush_size t m now groups h =
    (Distinct-evict_groups t m now groups h.0, Values-evict_groups _ t m now groups h.0 h.1)

-- The buffer that `add` goes on with has room for one more event, and its flag is right.
pub buffer_or_new-room :
    (max_group_size : ℕ) (flush_size : ℤ) (event : LogEvent) (now : Time) (key : Bytes)
    (groups : Assoc GroupBuffer)
    → 0 < max_group_size
    → Values (BufferInv max_group_size flush_size) groups
    → (length (buffer_or_new event now (lookup key groups)).events < max_group_size)
      × IsFlagged (buffer_or_new event now (lookup key groups))
buffer_or_new-room max_group_size flush_size event now key groups m h =
    elim (Option-cases (lookup key groups)) [
      | inl e ↦ rw e (m, refl)
      | inr (b, e) ↦
          let i = Values-lookup (BufferInv max_group_size flush_size) key groups h e in
          rw e (i.room, i.flagged)
    ]

module _ (a : Aggregator) (sized : a.max_group_size ≡ max_buffered_events a.flush_size)
    (key : Bytes) (now flushed_at : Time) (b : GroupBuffer) (nonempty : 0 < length b.events)
    (fits : length b.events ≤ a.max_group_size) (flagged : IsFlagged b) (groups : Assoc GroupBuffer)
    (h : Groups a.max_group_size a.flush_size groups) where
  abbrev Inv : GroupBuffer → Type 0
  Inv = BufferInv a.max_group_size a.flush_size

  held-BufferInv :
      (not b.has_alert && leb a.max_group_size (length b.events)) ≡ false
      → (not b.has_alert || below (length b.events) a.flush_size) ≡ true
      → Inv b
  held-BufferInv small held = record {
    nonempty = nonempty;
    room = ground (arith, below-max_buffered_events a.flush_size (length b.events));
    waiting = ground arith;
    flagged = flagged;
  }

  pub settle-Groups :
      Groups a.max_group_size a.flush_size (settle a key now flushed_at b (insert key b groups)).0
  unfolding settle
  settle-Groups = elim (Bool-cases (not b.has_alert && leb a.max_group_size (length b.events))) [
    | inl full ↦ rw full (
      Distinct-delete key _ (Distinct-insert key b groups h.0),
      Except-delete_self Inv key _ (Distinct-insert key b groups h.0)
          (Except-insert Inv key b groups h.1),
    )
    | inr small ↦ elim (Bool-cases (not b.has_alert || below (length b.events) a.flush_size)) [
      | inl held ↦
          rw (small, held)
            (evict_groups-Groups a.max_group_size a.flush_size a.group_ttl a.max_groups now _ (
              Distinct-insert key b groups h.0,
              Values-insert Inv key b groups (held-BufferInv small held) h.1,
            ))
      | inr ready ↦
          let d = Distinct-insert key b groups h.0 in
          let d' = Distinct-evict_groups a.group_ttl a.max_groups now _ d in
          rw (small, ready)
            (
              Distinct-delete key _ d',
              Except-delete_self Inv key _ d' (
                  Except-evict_groups Inv key a.group_ttl a.max_groups now _ d
                    (Except-insert Inv key b groups h.1)),
            )
    ]
  ]
