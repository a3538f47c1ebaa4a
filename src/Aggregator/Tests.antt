-- ===== src/Aggregator/Tests.antt =====
-- Runs of the aggregator on small inputs, and the theorems at such inputs.
use docker_monitor.Aggregator.{
  Aggregator, add, admit, batch_from_single_event, count_replayed, enter_backfill, flush_all,
  is_backfilling, max_buffered_events, new, settle, should_flush_individually, touch,
}
use docker_monitor.Aggregator.Conservation.{buffered}
use docker_monitor.Aggregator.Delivery.{
  Call, alerts_accounted, alerts_delivered, enter_window, leave_window, log_event, run,
}
use docker_monitor.Aggregator.Drain.{delivered}
use docker_monitor.Aggregator.Evict.{GroupBuffer, evict_groups}
use docker_monitor.Aggregator.Evict.Size.{AllAlert, evict_groups-size}
use docker_monitor.Aggregator.Invariant.{IsValid}
use docker_monitor.Aggregator.Spans.{BatchSpanned, IsSpanned, add-Spanned}
use docker_monitor.Model.{LogBatch, LogEvent, Sink, Time, recorded, sample_event}
use docker_monitor.Prelude.{
  Bool, List, Option, [], arith, false, length, map, none, refl, some, true, ◌+◌, ◌∷◌, ◌≡◌, ◌≤◌,
  ◌⊎◌,
}
use docker_monitor.Prelude.Assoc.{Assoc, Distinct, Values}
use docker_monitor.Prelude.Bytes.{str_eq, str_ne, text}
use docker_monitor.Prelude.Int.{pos}

abbrev quiet_sink : Sink (Unit {0})
quiet_sink b s = ([], s)

abbrev alert_at : Time → LogEvent
alert_at = sample_event (text "a") true

abbrev plain_at : Time → LogEvent
plain_at = sample_event (text "b") false

abbrev calls : List Call
calls =
    log_event (alert_at 5) 100 100
    ∷ log_event (plain_at 6) 101 101
    ∷ enter_window
    ∷ log_event (alert_at 7) 102 102
    ∷ leave_window
    ∷ log_event (sample_event (text "unknown") true 8) 103 103
    ∷ []

abbrev is_alert : LogEvent → Bool
is_alert e = e.alert_matched

abbrev small : Aggregator
small = record {
  flush_size = pos 2;
  unknown_log_id = text "unknown";
  max_group_size = 20;
  max_groups = 1;
  group_ttl = 50;
  groups = [];
  active_backfills = 0;
  backfill_alerts = 0;
}

small-IsValid : IsValid small
unfolding max_buffered_events
small-IsValid = record { sized = refl; distinct = tt; buffers = tt }

new-small : new (pos 2) (text "unknown") (pos 1) (pos 50) ≡ small
unfolding new
new-small = refl

abbrev times : Option LogBatch → List Time
times none = []
times (some b) = map (λ (e : LogEvent). e.timestamp) b.events

-- The second alert fills the group, which goes to the store in the order of the times.
second_alert :
    times (admit (admit small (alert_at 9) 100 100).0 (alert_at 5) 101 101).1 ≡ 5 ∷ 9 ∷ []
unfolding admit add is_backfilling should_flush_individually count_replayed touch settle str_eq
second_alert = refl

alerts_delivered_example :
    delivered is_alert
      (flush_all
        (recorded quiet_sink)
        200
        (λ _. 201)
        (run
          (recorded quiet_sink)
          calls
          (new (pos 2) (text "unknown") (pos 1) (pos 50), (tt, [])))).1.1.1
    ≡ 3
alerts_delivered_example =
    alerts_delivered is_alert (λ e h. h) quiet_sink (pos 2) (pos 1) (pos 50) (text "unknown") calls
      200 (λ _. 201) tt

alerts_accounted_example :
    IsValid
      (run (recorded quiet_sink) calls (new (pos 2) (text "unknown") (pos 1) (pos 50), (tt, []))).0
    × (delivered is_alert
            (run
              (recorded quiet_sink)
              calls
              (new (pos 2) (text "unknown") (pos 1) (pos 50), (tt, []))).1.1
          + buffered is_alert
              (run
                (recorded quiet_sink)
                calls
                (new (pos 2) (text "unknown") (pos 1) (pos 50), (tt, []))).0.groups
        ≡ 3)
alerts_accounted_example =
    alerts_accounted is_alert (λ e h. h) quiet_sink (pos 2) (pos 1) (pos 50) (text "unknown") calls
      tt

abbrev group_at : Time → GroupBuffer
group_at at = record {
  first_seen = at;
  last_seen = at;
  last_touched = at;
  containers = [];
  has_alert = false;
  events = plain_at at ∷ [];
}

abbrev two_groups : Assoc GroupBuffer
two_groups = (text "x", group_at 3) ∷ (text "y", group_at 4) ∷ []

two_groups-Distinct : Distinct two_groups
unfolding str_eq
two_groups-Distinct = ((str_ne (text "y") (text "x") refl, tt), (tt, tt))

evict_groups-size_example :
    (length (evict_groups 50 1 10 two_groups) ≤ 1) ⊎ AllAlert (evict_groups 50 1 10 two_groups)
evict_groups-size_example = evict_groups-size 50 1 10 two_groups (omega arith) two_groups-Distinct

-- The group that was touched first goes.
evict_oldest : evict_groups 50 1 10 two_groups ≡ (text "y", group_at 4) ∷ []
unfolding evict_groups str_eq
evict_oldest = refl

add-Spanned_example :
    Values IsSpanned (add small (alert_at 5) 100 100).0.groups
    × BatchSpanned (add small (alert_at 5) 100 100).1
add-Spanned_example = add-Spanned small (alert_at 5) 100 100 small-IsValid (omega arith) tt

abbrev lone : LogEvent
lone = sample_event (text "unknown") true 8

abbrev lone_batch : LogBatch
lone_batch = record {
  log_id = text "unknown";
  first_seen = 8;
  last_seen = 8;
  count = 1;
  containers = [] ∷ [];
  events = lone ∷ [];
  flushed_at = 100;
  suppress_alert_sinks = true;
}

lone_replayed : (admit (enter_backfill small) lone 100 100).1 ≡ some lone_batch
unfolding admit should_flush_individually is_backfilling count_replayed enter_backfill
    batch_from_single_event str_eq
lone_replayed = refl
