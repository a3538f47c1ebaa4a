-- ===== src/Docker/Watcher/Replay/Tests.antt =====
-- Two streams open a window, one of them closes it twice.
use docker_monitor.Aggregator.{Aggregator, is_backfilling}
use docker_monitor.Docker.Watcher.Replay.{
  aggregator_control, begin_stream_backfill, end_stream_backfill, no_replay,
}
use docker_monitor.Docker.Watcher.Replay.Count.{
  Reach, Reach-backfilling, System, begun, closed, further, here, open_slots,
}
use docker_monitor.Prelude.{[], ltb, refl, ◌≡◌}
use docker_monitor.Prelude.Bytes.{text}
use docker_monitor.Prelude.Int.{pos}

abbrev idle : Aggregator
idle = record {
  flush_size = pos 2;
  unknown_log_id = text "unknown";
  max_group_size = 20;
  max_groups = 1;
  group_ttl = 50;
  groups = [];
  active_backfills = 0;
  backfill_alerts = 0;
}

abbrev both_open : System
both_open =
    begin_stream_backfill aggregator_control 8 11
      (begin_stream_backfill aggregator_control 5 10 (no_replay, idle))

abbrev one_closed : System
one_closed =
    (end_stream_backfill aggregator_control 0
      (end_stream_backfill aggregator_control 0 both_open).1).1

reached : Reach (no_replay, idle) one_closed
reached =
    further (further (further (further here (begun 5 10 refl)) (begun 8 11 refl)) (closed 0 refl))
      (closed 0 refl)

Reach-backfilling_example :
    (one_closed.0.active_stream_backfills ≡ open_slots one_closed.0.slots)
    × (is_backfilling one_closed.1 ≡ ltb 0 (open_slots one_closed.0.slots))
Reach-backfilling_example = Reach-backfilling refl reached
