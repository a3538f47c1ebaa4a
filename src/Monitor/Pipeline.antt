-- ===== src/Monitor/Pipeline.antt =====
-- cmd/monitor/main.go: from the lines of a host to what its store is handed.
use docker_monitor.Aggregator.{Aggregator, enter_backfill, exit_backfill, flush_all, new}
use docker_monitor.Aggregator.Conservation.{OnlyAlerts}
use docker_monitor.Aggregator.Delivery.{
  Call, alerts_delivered, enter_window, flush_tick, leave_window, log_event, received, run, step,
}
use docker_monitor.Aggregator.Drain.{delivered}
use docker_monitor.Model.{LogBatch, LogEvent, RawLog, Sink, Time, recorded}
use docker_monitor.Monitor.{Moment, State, add_parsed, handle_line, relabel}
use docker_monitor.Parser.ChainBlocker.{ChainBlocker}
use docker_monitor.Parser.Parse.{Parser, parse}
use docker_monitor.Parser.Runtime.{Runtime}
use docker_monitor.Prelude.{
  Bool, List, Option, [], ap, arith, count, count-append, none, refl, some, ◌++◌, ◌+◌, ◌∙◌, ◌∷◌,
  ◌≡◌,
}
use docker_monitor.Prelude.Bytes.{Bytes}
use docker_monitor.Prelude.Int.{ℤ}

-- What happens to a host while it runs: a line that the watcher hands over, a tick of the aggregator, and a
-- replay window that opens or closes.
pub data Input : Type 0 where
  line_read : RawLog → Moment → Input
  ticked : Time → (Bytes → Time) → Input
  window_opened : Input
  window_closed : Input

module _ (go : Runtime) (p : Parser go) (multi_host : Bool) (label : Bytes) where
  module _ {S : Type 0} (sink : Sink S) where
    pub take_input : Input → State go p multi_host label sink → State go p multi_host label sink
    take_input (line_read raw t) s = (handle_line go p multi_host label sink raw t s).1
    take_input (ticked now clock) (b, s) = (b, (flush_all sink now clock s).1)
    take_input window_opened (b, (a, s)) = (b, (enter_backfill a, s))
    take_input window_closed (b, (a, s)) = (b, ((exit_backfill a).1, s))

    pub take_inputs :
        List Input → State go p multi_host label sink → State go p multi_host label sink
    take_inputs [] s = s
    take_inputs (i ∷ inputs) s = take_inputs inputs (take_input i s)

  abbrev one : Option LogEvent → List LogEvent
  one none = []
  one (some e) = e ∷ []

  -- The events that Parse makes of the lines, with the label, one after the other.
  pub parsed_events : List Input → Option ChainBlocker → List LogEvent
  parsed_events [] b = []
  parsed_events (line_read raw t ∷ inputs) b =
      let (event, b') = parse go p (relabel multi_host label raw) t.parsed_at b in
      one event ++ parsed_events inputs b'
  parsed_events (ticked now clock ∷ inputs) b = parsed_events inputs b
  parsed_events (window_opened ∷ inputs) b = parsed_events inputs b
  parsed_events (window_closed ∷ inputs) b = parsed_events inputs b

  -- The calls of the aggregator.
  abbrev call_of : Option LogEvent → Moment → List Call
  call_of none t = []
  call_of (some e) t = log_event e t.added_at t.flushed_at ∷ []

  calls : List Input → Option ChainBlocker → List Call
  calls [] b = []
  calls (line_read raw t ∷ inputs) b =
      let (event, b') = parse go p (relabel multi_host label raw) t.parsed_at b in
      call_of event t ++ calls inputs b'
  calls (ticked now clock ∷ inputs) b = flush_tick now clock ∷ calls inputs b
  calls (window_opened ∷ inputs) b = enter_window ∷ calls inputs b
  calls (window_closed ∷ inputs) b = leave_window ∷ calls inputs b

  add_parsed-run :
      {S : Type 0} (sink : Sink S) (event : Option LogEvent) (t : Moment) (s : Aggregator × S)
      (more : List Call)
      → run sink more (add_parsed go p multi_host label sink event t s).1
        ≡ run sink (call_of event t ++ more) s
  unfolding run step
  add_parsed-run sink none t s more = refl
  add_parsed-run sink (some e) t s more = refl

  take_inputs-run :
      {S : Type 0} (sink : Sink S) (inputs : List Input) (b : Option ChainBlocker)
      (s : Aggregator × S)
      → (take_inputs sink inputs (b, s)).1 ≡ run sink (calls inputs b) s
  unfolding take_inputs take_input handle_line calls run step
  take_inputs-run sink [] b s = refl
  take_inputs-run sink (line_read raw t ∷ inputs) b s =
      let (event, b') = parse go p (relabel multi_host label raw) t.parsed_at b in
      take_inputs-run sink inputs b' (add_parsed go p multi_host label sink event t s).1
      ∙ add_parsed-run sink event t s (calls inputs b')
  take_inputs-run sink (ticked now clock ∷ inputs) b s =
      take_inputs-run sink inputs b (flush_all sink now clock s).1
  take_inputs-run sink (window_opened ∷ inputs) b (a, s) =
      take_inputs-run sink inputs b (enter_backfill a, s)
  take_inputs-run sink (window_closed ∷ inputs) b (a, s) =
      take_inputs-run sink inputs b ((exit_backfill a).1, s)

  received-call_of :
      (q : LogEvent → Bool) (event : Option LogEvent) (t : Moment) (more : List Call)
      → received q (call_of event t ++ more) ≡ count q (one event) + received q more
  received-call_of q none t more = omega arith
  received-call_of q (some e) t more = omega arith

  received-calls :
      (q : LogEvent → Bool) (inputs : List Input) (b : Option ChainBlocker)
      → received q (calls inputs b) ≡ count q (parsed_events inputs b)
  unfolding calls parsed_events
  received-calls q [] b = refl
  received-calls q (line_read raw t ∷ inputs) b =
      let (event, b') = parse go p (relabel multi_host label raw) t.parsed_at b in
      omega (
        arith,
        received-call_of q event t (calls inputs b'),
        received-calls q inputs b',
        count-append q (one event) (parsed_events inputs b'),
      )
  received-calls q (ticked now clock ∷ inputs) b = received-calls q inputs b
  received-calls q (window_opened ∷ inputs) b = received-calls q inputs b
  received-calls q (window_closed ∷ inputs) b = received-calls q inputs b

  -- From a new aggregator, whatever lines the watcher hands over, with ticks and replay windows between
  -- them, after the last FlushAll the store has been handed exactly the alerts that Parse made of the
  -- lines, each as often as it was made. Here `q` is any test that only alerts pass.
  pub take_inputs-delivered :
      (q : LogEvent → Bool)
      → OnlyAlerts q
      → {S : Type 0} (sink : Sink S) (flush_size max_groups group_ttl : ℤ) (inputs : List Input)
        (b : Option ChainBlocker) (now : Time) (clock : Bytes → Time) (s : S)
      → delivered q
          (flush_all
            (recorded sink)
            now
            clock
            (take_inputs
              (recorded sink)
              inputs
              (b, (new flush_size p.unknown_log_id max_groups group_ttl, (s, [])))).1).1.1.1
        ≡ count q (parsed_events inputs b)
  take_inputs-delivered q only {S} sink flush_size max_groups group_ttl inputs b now clock s =
      let start_state : Aggregator × (S × List LogBatch) =
        (new flush_size p.unknown_log_id max_groups group_ttl, (s, [])) in
      ap (λ x. delivered q (flush_all (recorded sink) now clock x).1.1.1)
        (take_inputs-run (recorded sink) inputs b start_state)
      ∙ alerts_delivered q only sink flush_size max_groups group_ttl p.unknown_log_id
          (calls inputs b) now clock s
      ∙ received-calls q inputs b
