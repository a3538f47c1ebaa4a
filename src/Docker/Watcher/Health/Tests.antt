-- ===== src/Docker/Watcher/Health/Tests.antt =====
-- A report of three failures, and the summary of a replay.
use docker_monitor.Docker.Watcher.Health.{
  HealthFormats, health_batch, report_backfill_summary, report_batch, report_health_event,
}
use docker_monitor.Docker.Watcher.Loop.{degraded, event_stream}
use docker_monitor.Docker.Watcher.Replay.{Summary}
use docker_monitor.Model.{LogBatch}
use docker_monitor.Prelude.{refl, true, ◌≡◌}
use docker_monitor.Prelude.Bytes.{has_prefix, text}
use docker_monitor.Prelude.Bytes.Space.{trim_space}
use docker_monitor.Store.DingTalk.Text.{health_component, is_health_batch}

abbrev plain_formats : HealthFormats
plain_formats = record {
  to_upper = λ s. s;
  decimal = λ n. text "3";
  rfc3339 = λ t. text "now";
  rounded = λ n. text "1m0s";
}

abbrev summary : Summary
summary = record { max_disconnect = 60; started_at = 5; alert_count = 3 }

abbrev degraded_batch : LogBatch
degraded_batch =
    report_batch plain_formats (text "h/monitor") (text "EOF") (degraded event_stream 3) 9

abbrev summary_batch : LogBatch
summary_batch = report_backfill_summary plain_formats (text "h/monitor") summary (text "done") 9

degraded_as_health :
    (is_health_batch degraded_batch ≡ true)
    × (health_component degraded_batch.log_id ≡ text "docker.event_stream")
unfolding report_batch report_health_event health_batch is_health_batch health_component has_prefix
    trim_space
degraded_as_health = (refl, refl)

summary_as_health :
    (is_health_batch summary_batch ≡ true)
    × (health_component summary_batch.log_id ≡ text "docker.log_backfill")
unfolding report_backfill_summary health_batch is_health_batch health_component has_prefix
    trim_space
summary_as_health = (refl, refl)
