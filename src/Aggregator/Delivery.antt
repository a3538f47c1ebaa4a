-- ===== src/Aggregator/Delivery.antt =====
-- Whole runs of the aggregator: the calls that the log streams, the ticker and the watcher make, in
-- the order in which the mutex and the atomics let them happen.
use docker_monitor.Aggregator.{Aggregator, add_event, enter_backfill, exit_backfill, flush_all, new}
use docker_monitor.Aggregator.Conservation.{OnlyAlerts, buffered}
use docker_monitor.Aggregator.Drain.{add_event-delivers, delivered, flush_all-delivers}
use docker_monitor.Aggregator.Invariant.{IsValid}
use docker_monitor.Aggregator.Preserve.{
  drain_all-IsValid, enter_backfill-IsValid, exit_backfill-IsValid, new-IsValid,
}
use docker_monitor.Model.{LogBatch, LogEvent, Sink, Time, recorded}
use docker_monitor.Prelude.{Bool, List, [], ap, arith, count, ℕ, ◌+◌, ◌∙◌, ◌∷◌, ◌≡◌}
use docker_monitor.Prelude.Bytes.{Bytes}
use docker_monitor.Prelude.Int.{ℤ}

pub data Call : Type 0 where
  log_event : LogEvent → Time → Time → Call
  flush_tick : Time → (Bytes → Time) → Call
  enter_window : Call
  leave_window : Call

-- One call, the error that it returns dropped as the callers do.
unfoldable pub step : {S : Type 0} → Sink S → Call → Aggregator × S → Aggregator × S
step sink (log_event e now flushed_at) s = (add_event sink e now flushed_at s).1
step sink (flush_tick now flushed_at) s = (flush_all sink now flushed_at s).1
step sink enter_window (a, s) = (enter_backfill a, s)
step sink leave_window (a, s) = ((exit_backfill a).1, s)

unfoldable pub run : {S : Type 0} → Sink S → List Call → Aggregator × S → Aggregator × S
run sink [] s = s
run sink (c ∷ cs) s = run sink cs (step sink c s)

-- How many of the events of the calls pass the test.
abbrev pub received : (LogEvent → Bool) → List Call → ℕ
received p [] = 0
received p (log_event e now flushed_at ∷ cs) = count p (e ∷ []) + received p cs
received p (flush_tick now flushed_at ∷ cs) = received p cs
received p (enter_window ∷ cs) = received p cs
received p (leave_window ∷ cs) = received p cs

module _ (p : LogEvent → Bool) (only : OnlyAlerts p) {S : Type 0} (sink : Sink S) where
  abbrev Account : ℕ → Aggregator × (S × List LogBatch) → Type 0
  Account n (a, (s, log)) = IsValid a × (delivered p log + buffered p a.groups ≡ n)

  groups-exit_backfill : (a : Aggregator) → (exit_backfill a).1.groups ≡ a.groups
  unfolding exit_backfill
  groups-exit_backfill a = ground arith

  step-Account :
      (c : Call) (n : ℕ) (a : Aggregator) (s : S) (log : List LogBatch)
      → Account n (a, (s, log))
      → Account (n + received p (c ∷ [])) (step (recorded sink) c (a, (s, log)))
  unfolding step
  step-Account (log_event e now flushed_at) n a s log h =
      let (out, v) = add_event-delivers p only sink a e now flushed_at s log h.0 in
      (v, omega (arith, out, h.1))
  step-Account (flush_tick now flushed_at) n a s log h =
      let (out, none_left) = flush_all-delivers p only sink a now flushed_at s log h.0 in
      (
        unfold flush_all in drain_all-IsValid a now flushed_at h.0,
        omega (arith, out, none_left, h.1),
      )
  step-Account enter_window n a s log h =
      (enter_backfill-IsValid a h.0, unfold enter_backfill in omega (arith, h.1))
  step-Account leave_window n a s log h =
      (exit_backfill-IsValid a h.0, omega (arith, h.1, ap (buffered p) (groups-exit_backfill a)))

  run-Account :
      (cs : List Call) (n : ℕ) (a : Aggregator) (s : S) (log : List LogBatch)
      → Account n (a, (s, log))
      → Account (n + received p cs) (run (recorded sink) cs (a, (s, log)))
  unfolding run
  run-Account [] n a s log h = (h.0, omega (arith, h.1))
  run-Account (c ∷ cs) n a s log h =
      let (a', (s', log')) = step (recorded sink) c (a, (s, log)) in
      let rest = run-Account cs (n + received p (c ∷ [])) a' s' log' (step-Account c n a s log h) in
      (rest.0, rest.1 ∙ received-cons c)
    where
      received-cons : (c : Call) → n + received p (c ∷ []) + received p cs ≡ n + received p (c ∷ cs)
      received-cons (log_event e now flushed_at) = omega arith
      received-cons (flush_tick now flushed_at) = omega arith
      received-cons enter_window = omega arith
      received-cons leave_window = omega arith

-- From a new aggregator, whatever calls are made and whatever errors the store returns, after one
-- more FlushAll (the one that main makes when it stops) the batches handed to the store hold every
-- alert that the calls brought, as often as it was brought, and nothing else that counts as one.
-- Here `p` is any test that only alerts pass.
pub alerts_delivered :
    (p : LogEvent → Bool)
    → OnlyAlerts p
    → {S : Type 0} (sink : Sink S) (flush_size max_groups group_ttl : ℤ) (unknown_log_id : Bytes)
      (calls : List Call) (now : Time) (flushed_at : Bytes → Time) (s : S)
    → delivered p
        (flush_all (recorded sink) now flushed_at (
          run
            (recorded sink)
            calls
            (new flush_size unknown_log_id max_groups group_ttl, (s, [])))).1.1.1
      ≡ received p calls
alerts_delivered p only sink flush_size max_groups group_ttl unknown_log_id calls now flushed_at s =
    let (a, (s', log)) =
      run (recorded sink) calls (new flush_size unknown_log_id max_groups group_ttl, (s, [])) in
    let account =
      run-Account p only sink calls 0 (new flush_size unknown_log_id max_groups group_ttl) s []
        (new-IsValid flush_size max_groups group_ttl unknown_log_id, unfold new in omega arith) in
    omega (arith, account.1, (flush_all-delivers p only sink a now flushed_at s' log account.0).0)

-- In between, what has been handed over and what is still buffered make up what was brought: the
-- invariant of the aggregator holds, and no alert is lost or doubled.
pub alerts_accounted :
    (p : LogEvent → Bool)
    → OnlyAlerts p
    → {S : Type 0} (sink : Sink S) (flush_size max_groups group_ttl : ℤ) (unknown_log_id : Bytes)
      (calls : List Call) (s : S)
    → IsValid
        (run (recorded sink) calls (new flush_size unknown_log_id max_groups group_ttl, (s, []))).0
      × (delivered p
              (run
                (recorded sink)
                calls
                (new flush_size unknown_log_id max_groups group_ttl, (s, []))).1.1
            + buffered p
                (run
                  (recorded sink)
                  calls
                  (new flush_size unknown_log_id max_groups group_ttl, (s, []))).0.groups
          ≡ received p calls)
alerts_accounted p only sink flush_size max_groups group_ttl unknown_log_id calls s =
    let account =
      run-Account p only sink calls 0 (new flush_size unknown_log_id max_groups group_ttl) s []
        (new-IsValid flush_size max_groups group_ttl unknown_log_id, unfold new in omega arith) in
    (account.0, omega (arith, account.1))
