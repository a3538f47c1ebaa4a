-- ===== src/Docker/Watcher/Health.antt =====
-- internal/docker/watcher.go: reportHealthEvent and reportBackfillSummary, the batches that the watcher
-- itself hands to the stores.
mod Tests
use docker_monitor.Docker.OwnContainer.{container}
use docker_monitor.Docker.Watcher.Loop.{
  Component, Report, container_sync, degraded, event_stream, message, recovered,
}
use docker_monitor.Docker.Watcher.Replay.{Summary}
use docker_monitor.Model.{LogBatch, Time}
use docker_monitor.Prelude.{
  Option, [], count, false, if◌then◌else◌, ltb, none, some, true, ℕ, ◌++◌, ◌==◌, ◌∷◌,
}
use docker_monitor.Prelude.Bytes.{Bytes, text}
use docker_monitor.Prelude.Bytes.Space.{trim_space}

-- What the texts take from the Go library: strings.ToUpper, the digits of %d, a time in RFC 3339, and a
-- duration that is rounded to seconds.
pub record HealthFormats : Type 0 where
  pub to_upper : Bytes → Bytes
  pub decimal : ℕ → Bytes
  pub rfc3339 : Time → Bytes
  pub rounded : ℕ → Bytes

abbrev pub component_name : Component → Bytes
component_name container_sync = text "docker.container_sync"
component_name event_stream = text "docker.event_stream"

-- A batch of one event.
unfoldable pub health_batch : Bytes → Bytes → Bytes → Bytes → Bytes → Time → Time → LogBatch
health_batch health_container level component msg raw first_seen now =
    let log_id = text "monitor.health." ++ component in
    record {
      log_id = log_id;
      first_seen = first_seen;
      last_seen = now;
      count = 1;
      containers = health_container ∷ [];
      events =
          record {
            timestamp = now;
            container = record { id = []; name = health_container };
            stream = text "system";
            level = level;
            log_id = log_id;
            alert_matched = true;
            message = msg;
            raw = raw;
            parsed_from_json = false;
          }
          ∷ [];
      flushed_at = now;
      suppress_alert_sinks = false;
    }

abbrev pub add_cause : Option Bytes → Bytes
add_cause none = []
add_cause (some e) = text ": " ++ e

module _ (go : HealthFormats) (health_container : Bytes) where
  -- reportHealthEvent
  unfoldable pub report_health_event : Bytes → Bytes → Bytes → Option Bytes → ℕ → Time → LogBatch
  unfolding health_batch trim_space
  report_health_event component level msg cause failures now =
      health_batch health_container (trim_space (go.to_upper level)) component msg
        (msg
          ++ add_cause cause
          ++ (if ltb 0 failures then text "\nconsecutive_failures=" ++ go.decimal failures else []))
        now now

  -- The calls of reportHealthEvent in Run; `cause` is the error of the failure.
  unfoldable pub report_batch : Bytes → Report → Time → LogBatch
  unfolding report_health_event
  report_batch cause (degraded container_sync n) now =
      report_health_event (component_name container_sync) (text "ERROR")
        (text "docker container sync entered degraded state") (some cause) n now
  report_batch cause (degraded event_stream n) now =
      report_health_event (component_name event_stream) (text "ERROR")
        (text "docker event stream entered degraded state") (some cause) n now
  report_batch cause (recovered container_sync n) now =
      report_health_event (component_name container_sync) (text "INFO")
        (text "docker container sync recovered") none n now
  report_batch cause (recovered event_stream n) now =
      report_health_event (component_name event_stream) (text "INFO")
        (text "docker event stream recovered") none n now

  abbrev pub summary_message : Summary → Bytes
  summary_message s =
      text "docker log backfill completed: previously offline for "
      ++ go.rounded s.max_disconnect
      ++ text ", replayed "
      ++ go.decimal s.alert_count
      ++ text " matching events (see persisted log file)"

  -- reportBackfillSummary
  unfoldable pub report_backfill_summary : Summary → Bytes → Time → LogBatch
  unfolding health_batch
  report_backfill_summary s reason now =
      health_batch health_container (text "WARN") (text "docker.log_backfill") (summary_message s)
        (summary_message s
          ++ text "\nbackfill_started_at="
          ++ go.rfc3339 s.started_at
          ++ text "\nbackfill_ended_at="
          ++ go.rfc3339 now
          ++ text "\noffline_duration="
          ++ go.rounded s.max_disconnect
          ++ text "\nreplayed_alert_count="
          ++ go.decimal s.alert_count
          ++ text "\nend_reason="
          ++ reason)
        (if s.started_at == 0 then now else s.started_at) now
