-- ===== src/Aggregator/Backfill.antt =====
-- internal/aggregator/aggregator.go: the counters of a replay window under Add, EnterBackfill and
-- ExitBackfill.
use docker_monitor.Aggregator.{
  Aggregator, add, admit, count_replayed, enter_backfill, exit_backfill, is_backfilling, mark,
  should_flush_individually,
}
use docker_monitor.Model.{LogBatch, LogEvent, Time}
use docker_monitor.Prelude.{
  Bool, Bool-cases, List, Option, [], arith, count, false, if◌then◌else◌, inl, inr, ltb, none, some,
  ◌%◌, ◌+◌, ◌<◌, ◌^◌, ◌∷◌, ◌≡◌, ◌≤◌,
}

-- Add, for each event of a list; what is handed over is dropped here.
pub admit_all : Aggregator → List LogEvent → Time → Aggregator
admit_all a [] now = a
admit_all a (e ∷ es) now = admit_all (admit a e now now).0 es now

counters-admit :
    (a : Aggregator) (e : LogEvent) (now : Time)
    → a.active_backfills ≡ 1
    → ((admit a e now now).0.active_backfills ≡ 1)
      × ((admit a e now now).0.backfill_alerts
          ≡ (if e.alert_matched then (a.backfill_alerts + 1) % 2 ^ 64 else a.backfill_alerts))
unfolding admit count_replayed is_backfilling add
counters-admit a e now h = ground arith

counters-admit_all :
    (a : Aggregator) (es : List LogEvent) (now : Time)
    → a.active_backfills ≡ 1
    → a.backfill_alerts + count (λ (e : LogEvent). e.alert_matched) es < 2 ^ 64
    → ((admit_all a es now).active_backfills ≡ 1)
      × ((admit_all a es now).backfill_alerts
          ≡ a.backfill_alerts + count (λ (e : LogEvent). e.alert_matched) es)
unfolding admit_all
counters-admit_all a [] now h b = (h, omega arith)
counters-admit_all a (e ∷ es) now h b =
    let (one, alerts) = counters-admit a e now h in
    ground (arith, counters-admit_all (admit a e now now).0 es now, one, alerts)

-- From an aggregator outside any window: EnterBackfill, any events, ExitBackfill. The exit returns
-- the number of alerts among these events (where fewer than 2 ^ 64), and no window is open then.
pub exit_backfill-admit_all :
    (a : Aggregator) (es : List LogEvent) (now : Time)
    → a.active_backfills ≡ 0
    → count (λ (e : LogEvent). e.alert_matched) es < 2 ^ 64
    → ((exit_backfill (admit_all (enter_backfill a) es now)).0
        ≡ count (λ (e : LogEvent). e.alert_matched) es)
      × (is_backfilling (exit_backfill (admit_all (enter_backfill a) es now)).1 ≡ false)
unfolding exit_backfill enter_backfill is_backfilling
exit_backfill-admit_all a es now h b = ground (arith, counters-admit_all (enter_backfill a) es now)

-- A batch that Add hands over is marked to be kept from the alert sinks exactly if a replay of
-- history is going on when Add begins.
pub admit-suppress :
    (a : Aggregator) (event : LogEvent) (now flushed_at : Time) {b : LogBatch}
    → (admit a event now flushed_at).1 ≡ some b
    → b.suppress_alert_sinks ≡ is_backfilling a
unfolding admit
admit-suppress a event now flushed_at {b} h =
    elim (Bool-cases (should_flush_individually a event)) [
      | inl alone ↦ unfold admit in ground arith
      | inr grouped ↦ mark-suppress (is_backfilling a) _ (rw grouped at h)
    ]
  where
    mark-suppress :
        (s : Bool) (o : Option LogBatch) → mark s o ≡ some b → b.suppress_alert_sinks ≡ s
    mark-suppress s none e = cc
    mark-suppress s (some x) e = ground arith

-- How the calls move the counter of open windows, for those who keep it at one at most.
pub admit-counter :
    (a : Aggregator) (e : LogEvent) (now flushed_at : Time)
    → (admit a e now flushed_at).0.active_backfills ≡ a.active_backfills
unfolding admit count_replayed is_backfilling add
admit-counter a e now flushed_at = ground arith

pub enter_backfill-counter :
    (a : Aggregator) → a.active_backfills ≡ 0 → (enter_backfill a).active_backfills ≡ 1
unfolding enter_backfill
enter_backfill-counter a h = ground arith

pub exit_backfill-counter :
    (a : Aggregator) → a.active_backfills ≡ 1 → (exit_backfill a).1.active_backfills ≡ 0
unfolding exit_backfill
exit_backfill-counter a h = ground arith

pub is_backfilling-counter :
    (a : Aggregator) → a.active_backfills ≤ 1 → is_backfilling a ≡ ltb 0 a.active_backfills
unfolding is_backfilling
is_backfilling-counter a h = ground arith
