-- ===== src/Docker/Watcher/Loop.antt =====
-- internal/docker/watcher.go: Run with its counts of failures, and runEventLoop.
pub mod Reports
mod Tests
use docker_monitor.Docker.Watcher.Backoff.{next_retry_delay}
use docker_monitor.Docker.Watcher.Events.{EventMessage, Scope, handle_event}
use docker_monitor.Docker.Watcher.Streams.{Streams}
use docker_monitor.Prelude.{
  Bool, List, Option, [], count, false, if◌then◌else◌, leb, none, not, some, true, ℕ, ◌&&◌, ◌++◌,
  ◌+◌, ◌==◌, ◌∷◌,
}
use docker_monitor.Prelude.Int.{ℤ}

-- degradedFailureThreshold
abbrev pub degraded_failure_threshold : ℕ
degraded_failure_threshold = 3

pub data Component : Type 0 where
  container_sync : Component
  event_stream : Component

-- What reportHealthEvent is told, with the number of failures.
pub data Report : Type 0 where
  degraded : Component → ℕ → Report
  recovered : Component → ℕ → Report

-- What a channel of Events delivers. An error is told apart by whether it counts: nil and
-- context.Canceled do not.
pub data Received : Type 0 where
  context_done : Received
  message : EventMessage → Received
  messages_closed : Received
  error_sent : Bool → Received
  errors_closed : Received

pub data LoopEnd : Type 0 where
  returned_nil : LoopEnd
  end_of_file : LoopEnd
  failed : LoopEnd
  waiting : LoopEnd

-- The channels that are still open, whether an event was seen, and the tables.
pub record EventLoop : Type 0 where
  pub messages_open : Bool
  pub errors_open : Bool
  pub seen_event : Bool
  pub streams : Streams

module _ (w : Scope) where
  -- runEventLoop; what a closed channel would deliver is never received.
  unfoldable pub run_event_loop : List Received → EventLoop → LoopEnd × EventLoop
  unfolding handle_event
  run_event_loop [] l = (waiting, l)
  run_event_loop (context_done ∷ rest) l = (returned_nil, l)
  run_event_loop (message msg ∷ rest) l =
      if l.messages_open
      then run_event_loop rest
          (record l { seen_event = true; streams = (handle_event w msg l.streams).0 })
      else run_event_loop rest l
  run_event_loop (messages_closed ∷ rest) l =
      let l' = record l { messages_open = false } in
      let later = run_event_loop rest l' in if not l.errors_open then (end_of_file, l') else later
  run_event_loop (error_sent counts ∷ rest) l =
      let later = run_event_loop rest l in if l.errors_open && counts then (failed, l) else later
  run_event_loop (errors_closed ∷ rest) l =
      let l' = record l { errors_open = false } in
      let later = run_event_loop rest l' in if not l.messages_open then (end_of_file, l') else later

pub data SyncOutcome : Type 0 where
  sync_done : SyncOutcome
  sync_failed : SyncOutcome
  sync_canceled : SyncOutcome

-- One round of the loop of Run: what syncContainers answers, whether runEventLoop saw an event,
-- whether it ended with an error that is not context.Canceled, and whether waitForRetry says to go on.
pub record Round : Type 0 where
  pub sync : SyncOutcome
  pub seen_event : Bool
  pub lost : Bool
  pub goes_on : Bool

pub record Failures : Type 0 where
  pub sync_failures : ℕ
  pub event_failures : ℕ

-- The reports of a round, the delay for which it waits, and the counts, none where Run returns.
pub record RoundEnd : Type 0 where
  pub reports : List Report
  pub delay : ℕ
  pub after : Option Failures

-- The report on a failure that makes the count n, and on a recovery from n failures.
abbrev pub on_failure : Component → ℕ → List Report
on_failure c n = if n == degraded_failure_threshold then degraded c n ∷ [] else []

abbrev pub on_recovery : Component → ℕ → List Report
on_recovery c n = if leb degraded_failure_threshold n then recovered c n ∷ [] else []

abbrev pub go_on : Bool → Failures → Option Failures
go_on goes_on f = if goes_on then some f else none

-- What follows the end of runEventLoop, with an error that is not context.Canceled or without.
unfoldable pub lost_round : ℤ → Round → Failures → RoundEnd
lost_round retry_delay r f =
    let count = f.event_failures + 1 in
    if r.lost
    then record {
      reports = on_failure event_stream count;
      delay = next_retry_delay retry_delay count;
      after = go_on r.goes_on (record f { event_failures = count });
    }
    else record { reports = []; delay = 0; after = none }

-- The part of a round after syncContainers has succeeded; `f` has the counts then.
unfoldable pub event_round : ℤ → Round → Failures → RoundEnd
unfolding lost_round
event_round retry_delay r f =
    if r.seen_event
    then (let e = lost_round retry_delay r (record f { event_failures = 0 }) in
        record e { reports = on_recovery event_stream f.event_failures ++ e.reports })
    else lost_round retry_delay r f

abbrev pub sync_round : ℤ → Round → SyncOutcome → Failures → RoundEnd
sync_round retry_delay r sync_canceled f = record { reports = []; delay = 0; after = none }
sync_round retry_delay r sync_failed f = record {
  reports = on_failure container_sync (f.sync_failures + 1);
  delay = next_retry_delay retry_delay (f.sync_failures + 1);
  after = go_on r.goes_on (record f { sync_failures = f.sync_failures + 1 });
}
sync_round retry_delay r sync_done f =
    let e = event_round retry_delay r (record f { sync_failures = 0 }) in
    record e { reports = on_recovery container_sync f.sync_failures ++ e.reports }

unfoldable pub run_round : ℤ → Round → Failures → RoundEnd
unfolding event_round
run_round retry_delay r f = sync_round retry_delay r r.sync f

-- The loop of Run: all reports, in their order.
unfoldable pub run_rounds : ℤ → List Round → Failures → List Report
unfolding run_round
run_rounds retry_delay [] f = []
run_rounds retry_delay (r ∷ rs) f =
    let e = run_round retry_delay r f in
    e.reports ++ elim e.after [ none ↦ [] | some f' ↦ run_rounds retry_delay rs f' ]
