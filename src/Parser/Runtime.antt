-- ===== src/Parser/Runtime.antt =====
-- internal/parser/parser.go: what the parser uses of Go's standard library, encoding/json, regexp,
-- fmt, time and the case mappings of package strings. A float64 is its bit pattern.
use docker_monitor.Model.{Time}
use docker_monitor.Prelude.{Bool, List, Option, ℕ}
use docker_monitor.Prelude.Bytes.{Bytes}
use docker_monitor.Prelude.Int.{ℤ}

mutual
  pub data Json : Type 0 where
    null : Json
    boolean : Bool → Json
    number : ℕ → Json
    str : Bytes → Json
    array : Members → Json
    object : Members → Json

  -- The members of an object, or the elements of an array, whose keys are empty.
  pub data Members : Type 0 where
    nil : Members
    member : Bytes → Json → Members → Members

pub record Runtime : Type 1 where
  pub Regexp : Type 0
  -- FindStringSubmatch, whose nil is the empty list, and MatchString
  pub find_submatch : Regexp → Bytes → List Bytes
  pub match_string : Regexp → Bytes → Bool
  -- json.Unmarshal into a map, none on an error
  pub unmarshal : Bytes → Option Members
  -- fmt.Sprint of a value
  pub sprint : Json → Bytes
  pub equal_fold : Bytes → Bytes → Bool
  pub to_upper : Bytes → Bytes
  pub to_lower : Bytes → Bytes
  -- the four calls of time.Parse and time.ParseInLocation, and strconv.ParseInt with time.Unix
  pub parse_rfc3339_nano : Bytes → Option Time
  pub parse_rfc3339 : Bytes → Option Time
  pub parse_seconds : Bytes → Option Time
  pub parse_millis : Bytes → Option Time
  pub parse_unix : Bytes → Option Time
  -- time.Unix(int64(f), 0)
  pub unix_float : ℕ → Time
  -- regexp.Compile, none on an error, the regexp `(?i)\bWARN\b`, and regexp.QuoteMeta
  pub compile : Bytes → Option Regexp
  pub warn_word : Regexp
  pub quote_meta : Bytes → Bytes
  -- time.ParseDuration, none on an error
  pub parse_duration : Bytes → Option ℤ
