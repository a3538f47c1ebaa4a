-- ===== src/Parser/Example.antt =====
-- A run time whose regexps are prefixes and which reads no JSON, and a parser on it, for tests.
use docker_monitor.Model.{RawLog}
use docker_monitor.Parser.Parse.{Parser}
use docker_monitor.Parser.Runtime.{Runtime}
use docker_monitor.Prelude.{List, [], if◌then◌else◌, none, some, ◌∷◌}
use docker_monitor.Prelude.Bytes.{Bytes, has_prefix, str_eq, text}
use docker_monitor.Prelude.Int.{pos}

abbrev pub prefix_match : Bytes → Bytes → List Bytes
prefix_match re s = if has_prefix s re then re ∷ re ∷ [] else []

abbrev pub toy : Runtime
toy = record {
  Regexp = Bytes;
  find_submatch = prefix_match;
  match_string = λ re s. has_prefix s re;
  unmarshal = λ s. none;
  sprint = λ v. [];
  equal_fold = str_eq;
  to_upper = λ s. s;
  to_lower = λ s. s;
  parse_rfc3339_nano = λ s. none;
  parse_rfc3339 = λ s. none;
  parse_seconds = λ s. none;
  parse_millis = λ s. none;
  parse_unix = λ s. none;
  unix_float = λ f. f;
  compile = λ s. some s;
  warn_word = text "WARN";
  quote_meta = λ s. s;
  parse_duration = λ s. some (pos 10);
}

-- Every line that begins with x has the log id x and is an alert; x! is excluded.
abbrev pub parser_of_x : Parser toy
parser_of_x = record {
  warn_fields = [];
  message_fields = [];
  time_fields = [];
  warn_regexps = text "x" ∷ [];
  exclude_regexps = text "x!" ∷ [];
  log_id_keys = [];
  log_id_regexps = text "x" ∷ [];
  unknown_log_id = text "?";
  chain_blocker = none;
}

abbrev pub raw_line : Bytes → RawLog
raw_line s = record {
  timestamp = 0;
  container = record { id = []; name = [] };
  stream = [];
  line = s;
}
