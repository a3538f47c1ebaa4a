-- ===== src/Docker/Watcher/Loop/Tests.antt =====
-- Runs of the watcher with failures.
use docker_monitor.Docker.Watcher.Loop.{
  Failures, Round, degraded, event_round, event_stream, lost_round, recovered, run_round,
  run_rounds, sync_done, sync_failed,
}
use docker_monitor.Docker.Watcher.Loop.Reports.{alternates, run_rounds-alternates, signs}
use docker_monitor.Prelude.{Bool, List, [], false, refl, true, ◌∷◌, ◌≡◌}
use docker_monitor.Prelude.Int.{pos}

abbrev failing : Bool → Round
failing seen = record { sync = sync_done; seen_event = seen; lost = true; goes_on = true }

abbrev unsynced : Round
unsynced = record { sync = sync_failed; seen_event = false; lost = false; goes_on = true }

abbrev no_failures : Failures
no_failures = record { sync_failures = 0; event_failures = 0 }

-- The event stream is lost three times, then it delivers an event again; one failed
-- synchronization is not reported.
abbrev outage : List Round
outage = failing true ∷ failing false ∷ failing false ∷ unsynced ∷ failing true ∷ []

outage_reports :
    run_rounds (pos 3_000_000_000) outage no_failures
    ≡ degraded event_stream 3 ∷ recovered event_stream 3 ∷ []
unfolding run_rounds run_round event_round lost_round
outage_reports = refl

run_rounds-alternates_example :
    alternates false (signs event_stream (run_rounds (pos 3_000_000_000) outage no_failures)) ≡ true
run_rounds-alternates_example =
    run_rounds-alternates event_stream (pos 3_000_000_000) outage no_failures
