-- ===== src/Monitor/Tests.antt =====
-- One host of several, with the example parser.
use docker_monitor.Aggregator.{flush_all, new}
use docker_monitor.Aggregator.Drain.{delivered}
use docker_monitor.Model.{Errors, LogEvent, Sink, recorded}
use docker_monitor.Monitor.{Instance, Moment, docker_host_label, stop_run}
use docker_monitor.Monitor.Pipeline.{
  Input, line_read, parsed_events, take_inputs, take_inputs-delivered, ticked, window_closed,
  window_opened,
}
use docker_monitor.Monitor.Stop.{EndsWell, ended, stop_run-ended}
use docker_monitor.Parser.Example.{parser_of_x, raw_line, toy}
use docker_monitor.Prelude.{All, Bool, List, [], count, map, none, refl, some, true, ◌↔◌, ◌∷◌, ◌≡◌}
use docker_monitor.Prelude.Bytes.{has_prefix, is_empty, text}
use docker_monitor.Prelude.Bytes.Index.{index_byte}
use docker_monitor.Prelude.Bytes.Space.{trim_space}
use docker_monitor.Prelude.Int.{pos}

-- The store takes every batch without an error.
abbrev quiet : Sink (Unit {0})
quiet b s = ([], s)

abbrev moment : Moment
moment = record { parsed_at = 1; added_at = 2; flushed_at = 3 }

abbrev is_alert : LogEvent → Bool
is_alert e = e.alert_matched

-- A line that alerts, one that is dropped, a tick, and a line in a replay window.
abbrev inputs : List Input
inputs =
    line_read (raw_line (text "x 1")) moment
    ∷ line_read (raw_line (text "y")) moment
    ∷ ticked 4 (λ k. 4)
    ∷ window_opened
    ∷ line_read (raw_line (text "x 2")) moment
    ∷ window_closed
    ∷ []

take_inputs-delivered_example :
    delivered is_alert
      (flush_all
        (recorded quiet)
        9
        (λ k. 9)
        (take_inputs toy parser_of_x true
          (text "h")
          (recorded quiet)
          inputs
          (none, (new (pos 10) (text "?") (pos 5) (pos 0), (tt, [])))).1).1.1.1
    ≡ count is_alert (parsed_events toy parser_of_x true (text "h") inputs none)
take_inputs-delivered_example =
    take_inputs-delivered toy parser_of_x true (text "h") is_alert (λ e h. h) quiet (pos 10) (pos 5)
      (pos 0) inputs none 9 (λ k. 9) tt

labels :
    map docker_host_label (text "" ∷ text "ssh://me@box/x" ∷ text "tcp://10.0.0.1:2375" ∷ [])
    ≡ text "local" ∷ text "me@box" ∷ text "10.0.0.1:2375" ∷ []
unfolding docker_host_label trim_space is_empty has_prefix index_byte
labels = refl

-- The store of the second host fails to close; the first one is for debugging.
abbrev instances : List (Instance (Unit {0}))
instances =
    record { label = text "a"; output = none }
    ∷ record {
      label = text "b";
      output = some (record { aggregator = new (pos 10) (text "?") (pos 5) (pos 0); store = tt });
    }
    ∷ []

abbrev no_errors : Errors
no_errors = []

abbrev failing_close : Unit {0} → Errors × Unit {0}
failing_close s = (text "disk full" ∷ [], s)

stop_run-ended_example :
    ((stop_run quiet failing_close 9 (λ k. 9) no_errors instances).1
      ≡ map (ended quiet failing_close 9 (λ k. 9)) instances)
    × (((stop_run quiet failing_close 9 (λ k. 9) no_errors instances).0 ≡ [])
        ↔ ((no_errors ≡ []) × All (EndsWell quiet failing_close 9 (λ k. 9)) instances))
stop_run-ended_example = stop_run-ended quiet failing_close 9 (λ k. 9) no_errors instances
