-- ===== src/Docker/Watcher/Replay.antt =====
-- internal/docker/watcher.go: the windows in which the streams of a host replay history, counted
-- together; the first to open and the last to close tell the controller. A step is a whole call: the
-- call of EnterBackfill or ExitBackfill, which the code makes right after it has unlocked backfillMu,
-- is part of it, so another stream that runs in between is not told apart.
pub mod Count
mod Tests
use docker_monitor.Aggregator.{Aggregator, enter_backfill, exit_backfill}
use docker_monitor.Model.{Time}
use docker_monitor.Prelude.{
  Bool, List, Option, [], false, if◌then◌else◌, leb, ltb, none, some, suc, true, zero, ℕ, ◌++◌, ◌+◌,
  ◌-◌, ◌==◌, ◌||◌, ◌∷◌,
}

-- BackfillController, with state C.
pub record Controller (C : Type 0) : Type 0 where
  pub enter : C → C
  pub exit : C → ℕ × C

-- streamBackfillState; `ended` is whether its sync.Once is used up.
pub record StreamBackfill : Type 0 where
  pub disconnected_for : ℕ
  pub reconnect_at : Time
  pub ended : Bool

-- The fields of the watcher; `slots` has the states handed to the streams, each known by its place.
pub record Replay : Type 0 where
  pub active_stream_backfills : ℕ
  pub backfill_started_at : Time
  pub backfill_max_disconnect : ℕ
  pub slots : List StreamBackfill

-- What reportBackfillSummary is told.
pub record Summary : Type 0 where
  pub max_disconnect : ℕ
  pub started_at : Time
  pub alert_count : ℕ

-- backfillRealtimeSlack
abbrev pub backfill_realtime_slack : ℕ
backfill_realtime_slack = 30_000_000_000

unfoldable pub should_exit : StreamBackfill → Time → Bool
should_exit s timestamp =
    if timestamp == 0 then false else leb (s.reconnect_at - backfill_realtime_slack) timestamp

-- once.Do for the state at a place: none where it is used up already.
unfoldable pub use_once : ℕ → List StreamBackfill → Option (List StreamBackfill)
use_once i [] = none
use_once zero (s ∷ slots) = if s.ended then none else some (record s { ended = true } ∷ slots)
use_once (suc i) (s ∷ slots) = elim (use_once i slots) [ none ↦ none | some rest ↦ some (s ∷ rest) ]

module _ {C : Type 0} (controller : Controller C) where
  unfoldable pub begin_stream_backfill : ℕ → Time → Replay × C → Replay × C
  begin_stream_backfill disconnect_duration now (r, c) =
      let slot : StreamBackfill = record {
        disconnected_for = disconnect_duration;
        reconnect_at = now;
        ended = false;
      } in
      let active = r.active_stream_backfills + 1 in
      let is_first = active == 1 in
      (
        record {
          active_stream_backfills = active;
          backfill_started_at = if is_first then now else r.backfill_started_at;
          backfill_max_disconnect =
              if is_first || ltb r.backfill_max_disconnect disconnect_duration
              then disconnect_duration
              else r.backfill_max_disconnect;
          slots = r.slots ++ slot ∷ [];
        },
        if is_first then controller.enter c else c,
      )

  -- The body of once.Do, with the states after it.
  unfoldable pub release : List StreamBackfill → Replay × C → Option Summary × (Replay × C)
  release slots (r, c) =
      let active = r.active_stream_backfills - 1 in
      let (alert_count, c') = controller.exit c in
      let summary : Summary = record {
        max_disconnect = r.backfill_max_disconnect;
        started_at = r.backfill_started_at;
        alert_count = alert_count;
      } in
      if active == 0
      then (
        some summary,
        (
          record {
            active_stream_backfills = 0;
            backfill_started_at = 0;
            backfill_max_disconnect = 0;
            slots = slots;
          },
          c',
        ),
      )
      else (none, (record r { active_stream_backfills = active; slots = slots }, c))

  -- endStreamBackfill for the state at a place.
  unfoldable pub end_stream_backfill : ℕ → Replay × C → Option Summary × (Replay × C)
  unfolding use_once release
  end_stream_backfill i (r, c) = elim (use_once i r.slots) [
    | none ↦ (none, (r, c))
    | some slots ↦ release slots (r, c)
  ]

abbrev pub no_replay : Replay
no_replay = record {
  active_stream_backfills = 0;
  backfill_started_at = 0;
  backfill_max_disconnect = 0;
  slots = [];
}

-- The aggregator as the controller.
abbrev pub aggregator_control : Controller Aggregator
aggregator_control = record { enter = enter_backfill; exit = exit_backfill }
