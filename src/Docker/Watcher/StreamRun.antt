-- ===== src/Docker/Watcher/StreamRun.antt =====
-- internal/docker/watcher.go: runStream, the life of one container's log stream, with lookupReplacement
-- and handleEndedLogStream. Safety timers and other streams, which may close windows meanwhile, are
-- not here: Docker.Watcher.Replay has their steps.
pub mod Lines
pub mod Resume
pub mod Quiet
mod Tests
use docker_monitor.Docker.Watcher.Cursors.{record_log_timestamp}
use docker_monitor.Docker.Watcher.Discovery.{ContainerState}
use docker_monitor.Docker.Watcher.Events.{Scope, maybe_start}
use docker_monitor.Docker.Watcher.Replay.{
  Controller, Replay, StreamBackfill, Summary, begin_stream_backfill, end_stream_backfill,
  should_exit,
}
use docker_monitor.Docker.Watcher.Streams.{Streams, remove_active}
use docker_monitor.Model.{ContainerInfo, RawLog, Time}
use docker_monitor.Prelude.{
  Bool, List, Option, [], false, if◌then◌else◌, leb, length, ltb, none, not, some, true, ℕ, ◌&&◌,
  ◌++◌, ◌-◌, ◌==◌, ◌||◌, ◌∷◌,
}
use docker_monitor.Prelude.Assoc.{Assoc}
use docker_monitor.Prelude.Int.{clamp_zero, is_nonpositive, ℤ}

-- What inspectContainer answers: nothing, that there is no such container, or its state.
pub data Inspected : Type 0 where
  not_inspected : Inspected
  not_found : Inspected
  found : ContainerState → Inspected

-- handleEndedLogStream
unfoldable pub handle_ended_log_stream : Inspected → Bool
handle_ended_log_stream not_inspected = true
handle_ended_log_stream not_found = false
handle_ended_log_stream (found state) = state.running

-- lookupReplacement; `before` and `later` are what findReplacementContainer finds at once and after the
-- grace period, `waited` what waitForRetry answers.
unfoldable pub lookup_replacement :
    Bool → ℤ → Bool → Option ContainerInfo → Option ContainerInfo → Option ContainerInfo
lookup_replacement graceful_eof grace_period waited (some info) later = some info
lookup_replacement graceful_eof grace_period waited none later =
    if not graceful_eof || is_nonpositive grace_period
    then none
    else if not waited
    then none
    else later

-- How LogReader.Stream ends: with context.Canceled, with another error, or without one.
pub data Outcome : Type 0 where
  canceled : Outcome
  broke : Outcome
  ended : Outcome

-- One round of the loop: the time at its head (one reading of the clock), the lines that Stream hands
-- over and its end, the answers to the calls that follow, the time at which the failure is noted,
-- and whether the wait ends without ctx.Done.
pub record Attempt : Type 0 where
  pub started_at : Time
  pub lines : List RawLog
  pub outcome : Outcome
  pub found_before : Option ContainerInfo
  pub found_later : Option ContainerInfo
  pub waited : Bool
  pub inspected : Inspected
  pub failed_at : Time
  pub goes_on : Bool

-- The variables of runStream. An open window is known by its place in the slots.
pub record LogStream : Type 0 where
  pub last_seen : Time
  pub disconnected_since : Time
  pub backfill : Option (ℕ × StreamBackfill)

-- What runStream works on: the fields of the watcher, the state of the controller, the lines that w.handler
-- was called with, and the calls of reportBackfillSummary.
pub record World (C : Type 0) : Type 0 where
  pub replay : Replay
  pub control : C
  pub cursors : Assoc Time
  pub streams : Streams
  pub handled : List RawLog
  pub summaries : List Summary

pub data StreamEnd : Type 0 where
  stopped : StreamEnd
  replaced : ContainerInfo → StreamEnd
  gone : StreamEnd
  running_on : StreamEnd

-- What a round comes to: the stream ends, or it is tried again after a failure or after an end of the log.
pub data Verdict : Type 0 where
  leave : StreamEnd → Verdict
  retry_failed : Verdict
  retry_ended : Verdict

-- A threshold that is not positive stands for a watcher without a controller too.
-- shouldEnterBackfill
unfoldable pub should_enter_backfill : ℤ → Time → Time → Bool
should_enter_backfill threshold disconnected_since now =
    not (is_nonpositive threshold) && leb (clamp_zero threshold) (now - disconnected_since)

abbrev pub unless_replaced : Option ContainerInfo → Verdict → Verdict
unless_replaced none v = v
unless_replaced (some info) v = leave (replaced info)

-- The wait of reconnectDelay.
abbrev pub after_wait : Bool → Verdict → Verdict
after_wait goes_on v = if goes_on then v else leave stopped

unfoldable pub verdict : ℤ → Attempt → Outcome → Verdict
unfolding lookup_replacement handle_ended_log_stream
verdict grace_period a canceled = leave stopped
verdict grace_period a broke =
    unless_replaced (lookup_replacement false grace_period a.waited a.found_before a.found_later)
      (after_wait a.goes_on retry_failed)
verdict grace_period a ended =
    unless_replaced (lookup_replacement true grace_period a.waited a.found_before a.found_later)
      (if handle_ended_log_stream a.inspected then after_wait a.goes_on retry_ended else leave gone)

-- The watcher and the container of the stream.
pub record Setup (C : Type 0) : Type 0 where
  pub info : ContainerInfo
  pub threshold : ℤ
  pub grace_period : ℤ
  pub controller : Controller C
  pub scope : Scope

module _ {C : Type 0} (u : Setup C) where
  abbrev pub State : Type 0
  State = LogStream × World C

  -- endStreamBackfill, with the summary that it reports.
  unfoldable pub end_window : ℕ → World C → World C
  unfolding end_stream_backfill
  end_window i w =
      let (summary, (r, c)) = end_stream_backfill u.controller i (w.replay, w.control) in
      record w {
        replay = r;
        control = c;
        summaries = w.summaries ++ elim summary [ none ↦ [] | some x ↦ x ∷ [] ];
      }

  abbrev pub leave_window : Option (ℕ × StreamBackfill) → RawLog → State → State
  leave_window none raw sw = sw
  leave_window (some (i, b)) raw (s, w) =
      if should_exit b raw.timestamp then (record s { backfill = none }, end_window i w) else (s, w)

  abbrev pub see : RawLog → State → State
  see raw (s, w) =
      if not (raw.timestamp == 0) && ltb s.last_seen raw.timestamp
      then (
        record s { last_seen = raw.timestamp },
        record w { cursors = record_log_timestamp u.info raw.timestamp w.cursors },
      )
      else (s, w)

  -- streamHandler
  unfoldable pub stream_handler : RawLog → State → State
  unfolding end_window
  stream_handler raw (s, w) =
      let (s', w') = see raw (leave_window s.backfill raw (s, w)) in
      (s', record w' { handled = w'.handled ++ raw ∷ [] })

  unfoldable pub stream_lines : List RawLog → State → State
  unfolding stream_handler
  stream_lines [] sw = sw
  stream_lines (raw ∷ lines) sw = stream_lines lines (stream_handler raw sw)

  -- The head of the loop.
  unfoldable pub enter_backfill_window : Time → State → State
  unfolding should_enter_backfill begin_stream_backfill
  enter_backfill_window now (s, w) =
      let s' = record s { disconnected_since = 0 } in
      let outage = now - s.disconnected_since in
      let (r, c) = begin_stream_backfill u.controller outage now (w.replay, w.control) in
      let window : StreamBackfill = record {
        disconnected_for = outage;
        reconnect_at = now;
        ended = false;
      } in
      if not (s.disconnected_since == 0)
        && should_enter_backfill u.threshold s.disconnected_since now
      then (
        record s' { backfill = some (length w.replay.slots, window) },
        record w { replay = r; control = c },
      )
      else (s', w)

  abbrev pub note_failure : Verdict → Time → LogStream → LogStream
  note_failure retry_failed now s = record s {
    disconnected_since = if s.disconnected_since == 0 then now else s.disconnected_since;
  }
  note_failure v now s = s

  -- The deferred calls, endStreamBackfill before removeActive.
  unfoldable pub end_open : Option (ℕ × StreamBackfill) → World C → World C
  unfolding end_window
  end_open none w = w
  end_open (some (i, b)) w = end_window i w

  unfoldable pub finish : State → World C
  unfolding end_open remove_active
  finish (s, w) =
      let w' = end_open s.backfill w in
      record w' { streams = remove_active u.info.name u.info.id w'.streams }

  -- maybeStart for a replacement.
  unfoldable pub switch : StreamEnd → World C → World C
  unfolding maybe_start
  switch (replaced info) w = record w {
    streams = (maybe_start u.scope (record { id = info.id; names = info.name ∷ [] }) w.streams).0;
  }
  switch other w = w

  -- The returns of the loop; `rest` is what its next rounds give.
  unfoldable pub conclude : Verdict → State → StreamEnd × World C → StreamEnd × World C
  unfolding finish switch
  conclude (leave e) (s, w) rest = (e, finish (s, switch e w))
  conclude again sw rest = rest

  unfoldable pub run_attempts : List Attempt → State → StreamEnd × World C
  unfolding stream_lines enter_backfill_window conclude verdict
  run_attempts [] (s, w) = (running_on, w)
  run_attempts (a ∷ attempts) sw =
      let (s, w) = stream_lines a.lines (enter_backfill_window a.started_at sw) in
      let v = verdict u.grace_period a a.outcome in
      let rest = run_attempts attempts (note_failure v a.failed_at s, w) in conclude v (s, w) rest

  -- runStream; `since` is what initialLogSince answers.
  unfoldable pub run_stream : Time → List Attempt → World C → StreamEnd × World C
  unfolding run_attempts
  run_stream since attempts w =
      run_attempts attempts
        (record { last_seen = since; disconnected_since = 0; backfill = none }, w)
