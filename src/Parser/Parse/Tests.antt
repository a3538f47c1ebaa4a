-- ===== src/Parser/Parse/Tests.antt =====
-- Lines on the example parser.
use docker_monitor.Model.{LogEvent}
use docker_monitor.Parser.ChainBlocker.{block, blocked}
use docker_monitor.Parser.ChainBlocker.History.{blocker}
use docker_monitor.Parser.Example.{parser_of_x, raw_line, toy}
use docker_monitor.Parser.Parse.{parse}
use docker_monitor.Parser.Parse.Chain.{Line, parse-expected, parse_expected, parse_lines}
use docker_monitor.Parser.Parse.Decision.{WellRead, parse-WellRead}
use docker_monitor.Prelude.{List, [], arith, false, none, refl, some, true, ◌∷◌, ◌≡◌, ◌≢◌, ◌⊎◌}
use docker_monitor.Prelude.Assoc.{insert, lookup}
use docker_monitor.Prelude.Bytes.{has_prefix, is_empty, str_eq, text}
use docker_monitor.Prelude.Bytes.Space.{trim_space}

abbrev history : List (Line toy parser_of_x)
history = (raw_line (text "x!"), 5) ∷ []

silenced :
    (parse toy parser_of_x
      (raw_line (text "x ok"))
      9
      (parse_lines toy parser_of_x (some (blocker 10 4 [])) history)).0
    ≡ none
unfolding parse trim_space is_empty has_prefix str_eq lookup insert block blocked
silenced = refl

parse-expected_example :
    (parse toy parser_of_x
      (raw_line (text "x ok"))
      9
      (parse_lines toy parser_of_x (some (blocker 10 4 [])) history)).0
    ≡ parse_expected toy parser_of_x 10 history (raw_line (text "x ok")) 9
parse-expected_example =
    parse-expected toy parser_of_x 10 4 history (raw_line (text "x ok")) 9 (omega arith)
      (omega arith, tt)

abbrev returned : LogEvent
returned = record {
  timestamp = 0;
  container = record { id = []; name = [] };
  stream = [];
  level = text "x";
  log_id = text "x";
  alert_matched = true;
  message = text "x ok";
  raw = text "x ok";
  parsed_from_json = false;
}

returned_lem : (parse toy parser_of_x (raw_line (text "x ok")) 9 none).0 ≡ some returned
unfolding parse trim_space is_empty has_prefix str_eq blocked
returned_lem = refl

parse-WellRead_example :
    WellRead toy parser_of_x (raw_line (text "x ok")) (trim_space (text "x ok")) returned
    × ((true ≡ true) ⊎ (text "x" ≢ text "?"))
parse-WellRead_example =
    parse-WellRead toy parser_of_x (raw_line (text "x ok")) 9 none returned (λ s h. h) returned_lem
