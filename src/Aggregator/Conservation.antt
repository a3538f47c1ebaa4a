-- ===== src/Aggregator/Conservation.antt =====
-- internal/aggregator/aggregator.go: how many alerts are buffered and handed over around add.
use docker_monitor.Aggregator.{
  Aggregator, add, admit, batch_from_single_event, buffer_or_new, count_replayed, is_backfilling,
  mark, settle, should_flush_individually, snapshot_batch,
}
use docker_monitor.Aggregator.Evict.{GroupBuffer, evict_groups}
use docker_monitor.Aggregator.Evict.Victims.{IgnoresQuiet, lookup-evict_groups, total-evict_groups}
use docker_monitor.Aggregator.Invariant.{BufferInv, IsValid}
use docker_monitor.Aggregator.Preserve.{
  count_replayed-IsValid, live, live-Groups, touched, touched-IsFlagged, touched-room,
}
use docker_monitor.Aggregator.Touch.{IsFlagged, events-touch}
use docker_monitor.Model.{LogBatch, LogEvent, Time}
use docker_monitor.Prelude.{
  Bool, Bool-cases, List, Option, [], any, ap, arith, count, count-append, false, inl, inr, leb,
  length, none, not, refl, some, true, ℕ, ◌&&◌, ◌+◌, ◌||◌, ◌∙◌, ◌∷◌, ◌≡◌,
}
use docker_monitor.Prelude.Assoc.{Assoc, Distinct, Values, delete, insert, lookup, total, weight}
use docker_monitor.Prelude.Assoc.Laws.{
  Distinct-insert, Values-insert, lookup-insert, total-delete, total-insert,
}
use docker_monitor.Prelude.Bytes.{Bytes, str_eq_refl}
use docker_monitor.Prelude.Int.{below, ℤ}
use docker_monitor.Prelude.Sort.{count-sort_by}

-- A test that only alerts pass.
abbrev pub OnlyAlerts : (LogEvent → Bool) → Type 0
OnlyAlerts p = (e : LogEvent) → p e ≡ true → e.alert_matched ≡ true

-- How many of the buffered events pass the test.
abbrev pub buffered : (LogEvent → Bool) → Assoc GroupBuffer → ℕ
buffered p = total (λ (b : GroupBuffer). count p b.events)

abbrev pub in_batch : (LogEvent → Bool) → Option LogBatch → ℕ
in_batch p none = 0
in_batch p (some b) = count p b.events

pub Values-map :
    (P Q : GroupBuffer → Type 0) (m : Assoc GroupBuffer)
    → ((b : GroupBuffer) → P b → Q b)
    → Values P m
    → Values Q m
Values-map P Q [] f h = tt
Values-map P Q ((k, b) ∷ m) f h = (f b h.0, Values-map P Q m f h.1)

module _ (p : LogEvent → Bool) (only : OnlyAlerts p) where
  count-quiet :
      (es : List LogEvent) → any (λ (e : LogEvent). e.alert_matched) es ≡ false → count p es ≡ 0
  count-quiet [] h = refl
  count-quiet (e ∷ es) h = ground (arith, only e, count-quiet es)

  pub flagged-quiet : (b : GroupBuffer) → IsFlagged b → b.has_alert ≡ false → count p b.events ≡ 0
  flagged-quiet b f quiet = count-quiet b.events (cc (f, quiet))

  pub IgnoresQuiet-buffered :
      (max_group_size : ℕ) (flush_size : ℤ) (groups : Assoc GroupBuffer)
      → Values (BufferInv max_group_size flush_size) groups
      → IgnoresQuiet (λ b. count p b.events) groups
  IgnoresQuiet-buffered m s groups =
      Values-map (BufferInv m s) (λ b. b.has_alert ≡ false → count p b.events ≡ 0) groups
        (λ b i. flagged-quiet b i.flagged)

  module _ (a : Aggregator) (key : Bytes) (now flushed_at : Time) (b : GroupBuffer)
      (flagged : IsFlagged b) (groups : Assoc GroupBuffer) (d : Distinct groups)
      (quiet : IgnoresQuiet (λ x. count p x.events) groups) where
    abbrev held : Assoc GroupBuffer
    held = insert key b groups

    abbrev left_over : Assoc GroupBuffer
    left_over = evict_groups a.group_ttl a.max_groups now held

    held-IgnoresQuiet : IgnoresQuiet (λ x. count p x.events) held
    held-IgnoresQuiet =
        Values-insert (λ x. x.has_alert ≡ false → count p x.events ≡ 0) key b groups
          (flagged-quiet b flagged) quiet

    lookup-held : lookup key held ≡ some b
    lookup-held = lookup-insert key key b groups ∙ simp (str_eq_refl key)

    buffered-left_over : buffered p left_over ≡ buffered p held
    buffered-left_over =
        total-evict_groups (λ x. count p x.events) a.group_ttl a.max_groups now held
          (Distinct-insert key b groups d) held-IgnoresQuiet

    buffered-delete :
        (m : Assoc GroupBuffer)
        → lookup key m ≡ some b
        → buffered p (delete key m) + count p b.events ≡ buffered p m
    buffered-delete m e = let t = total-delete (λ x. count p x.events) key m in rw e at t

    in_batch-snapshot_batch : in_batch p (some (snapshot_batch key b flushed_at)) ≡ count p b.events
    unfolding snapshot_batch
    in_batch-snapshot_batch = count-sort_by (λ (e : LogEvent). e.timestamp) p b.events

    -- The end of `add` neither loses nor doubles an alert.
    pub settle-conserves :
        buffered p (settle a key now flushed_at b held).0
          + in_batch p (settle a key now flushed_at b held).1
        ≡ buffered p held
    unfolding settle
    settle-conserves =
        elim (Bool-cases (not b.has_alert && leb a.max_group_size (length b.events))) [
          | inl full ↦ simp full (
              omega
                (arith, buffered-delete held lookup-held, flagged-quiet b flagged (ground arith)))
          | inr small ↦
              elim (Bool-cases (not b.has_alert || below (length b.events) a.flush_size)) [
                | inl wait ↦ simp (small, wait) (omega (arith, buffered-left_over))
                | inr ready ↦
                    let found : lookup key left_over ≡ some b =
                      lookup-evict_groups a.group_ttl a.max_groups now held key b
                        (Distinct-insert key b groups d) lookup-held (ground arith) in
                    simp (small, ready)
                      (omega (
                        arith,
                        buffered-delete left_over found,
                        buffered-left_over,
                        in_batch-snapshot_batch,
                      ))
              ]
        ]

module _ (p : LogEvent → Bool) (only : OnlyAlerts p) where
  weight-buffer_or_new :
      (event : LogEvent) (now : Time) (o : Option GroupBuffer)
      → count p (buffer_or_new event now o).events ≡ weight (λ b. count p b.events) o
  weight-buffer_or_new event now none = refl
  weight-buffer_or_new event now (some b) = refl

  module _ (a : Aggregator) (event : LogEvent) (now flushed_at : Time) (v : IsValid a) where
    quiet-groups : IgnoresQuiet (λ b. count p b.events) a.groups
    quiet-groups = IgnoresQuiet-buffered p only a.max_group_size a.flush_size a.groups v.buffers

    buffered-live : buffered p (live a now) ≡ buffered p a.groups
    buffered-live =
        total-evict_groups (λ b. count p b.events) a.group_ttl a.max_groups now a.groups v.distinct
          quiet-groups

    count-touched :
        count p (touched a event now (live a now)).events
        ≡ weight (λ b. count p b.events) (lookup event.log_id (live a now)) + count p (event ∷ [])
    count-touched =
        ap (count p)
          (events-touch a.max_group_size event now _ (touched-room a event now flushed_at v).0)
        ∙ count-append p _ (event ∷ [])
        ∙ ap (λ n. n + count p (event ∷ []))
            (weight-buffer_or_new event now (lookup event.log_id (live a now)))

    buffered-held :
        buffered p (insert event.log_id (touched a event now (live a now)) (live a now))
        ≡ buffered p a.groups + count p (event ∷ [])
    buffered-held = omega (
      arith,
      buffered-live,
      count-touched,
      total-insert (λ b. count p b.events) event.log_id (touched a event now (live a now))
          (live a now),
    )

    -- `add` moves alerts to the batch and loses none.
    pub add-conserves :
        buffered p (add a event now flushed_at).0.groups + in_batch p (add a event now flushed_at).1
        ≡ buffered p a.groups + count p (event ∷ [])
    unfolding add
    add-conserves =
        settle-conserves p only a event.log_id now flushed_at (touched a event now (live a now))
          (touched-IsFlagged a event now flushed_at v) (live a now)
          (live-Groups a event now flushed_at v).0
          (IgnoresQuiet-buffered p only a.max_group_size a.flush_size (live a now)
            (live-Groups a event now flushed_at v).1)
        ∙ buffered-held

  in_batch-mark : (s : Bool) (o : Option LogBatch) → in_batch p (mark s o) ≡ in_batch p o
  in_batch-mark s none = refl
  in_batch-mark s (some b) = refl

  groups-count_replayed :
      (a : Aggregator) (event : LogEvent) → (count_replayed a event).groups ≡ a.groups
  unfolding count_replayed
  groups-count_replayed a event = ground arith

  -- Add hands an alert to the store or buffers it: every alert, exactly once.
  pub admit-conserves :
      (a : Aggregator) (event : LogEvent) (now flushed_at : Time)
      → IsValid a
      → buffered p (admit a event now flushed_at).0.groups
          + in_batch p (admit a event now flushed_at).1
        ≡ buffered p a.groups + count p (event ∷ [])
  unfolding admit
  admit-conserves a event now flushed_at v =
      let same = ap (buffered p) (groups-count_replayed a event) in
      elim (Bool-cases (should_flush_individually a event)) [
        | inl alone ↦ rw alone (unfold batch_from_single_event in omega (arith, same))
        | inr grouped ↦ rw grouped (
            omega (
              arith,
              same,
              add-conserves (count_replayed a event) event now flushed_at
                  (count_replayed-IsValid a event v),
              in_batch-mark (is_backfilling a)
                  (add (count_replayed a event) event now flushed_at).1,
            ))
      ]
