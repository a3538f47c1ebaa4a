-- ===== src/Parser/Parse.antt =====
-- internal/parser/parser.go: New and Parse.
pub mod Decision
pub mod Chain
pub mod Tests
use docker_monitor.Config.{FilterConfig}
use docker_monitor.Docker.OwnContainer.{container}
use docker_monitor.Model.{LogEvent, RawLog, Time}
use docker_monitor.Parser.ChainBlocker.{
  ChainBlocker, block, blocked, chain_blocker_max_entries, new_chain_blocker,
}
use docker_monitor.Parser.Extract.{
  coalesce_string, extract_log_id_from_json, extract_log_id_from_text, extract_warn_level, first,
  has_any_regexp, match_warn_regexp, non_blank, normalize_keys, parse_timestamp,
  payload_has_any_regexp,
}
use docker_monitor.Parser.Runtime.{Members, Runtime, object}
use docker_monitor.Prelude.{
  Bool, List, Option, [], false, if◌then◌else◌, none, not, some, true, ◌&&◌, ◌++◌, ◌||◌, ◌∷◌,
}
use docker_monitor.Prelude.Bytes.{Bytes, is_empty, str_eq, text}
use docker_monitor.Prelude.Bytes.Space.{trim_space}
use docker_monitor.Prelude.Int.{is_negative, pos, ℤ}

module _ (go : Runtime) where
  pub record Parser : Type 0 where
    pub warn_fields : List Bytes
    pub message_fields : List Bytes
    pub time_fields : List Bytes
    pub warn_regexps : List go.Regexp
    pub exclude_regexps : List go.Regexp
    pub log_id_keys : List Bytes
    pub log_id_regexps : List go.Regexp
    pub unknown_log_id : Bytes
    pub chain_blocker : Option ChainBlocker

  -- A loop of New over expressions: none on the first that does not compile.
  abbrev pub compile_all : List Bytes → Option (List go.Regexp)
  compile_all [] = some []
  compile_all (expr ∷ exprs) =
      let rest = compile_all exprs in
      elim (go.compile expr) [
        | none ↦ none
        | some re ↦ elim rest [ none ↦ none | some res ↦ some (re ∷ res) ]
      ]

  abbrev pub quoted_ips : List Bytes → List Bytes
  quoted_ips [] = []
  quoted_ips (ip ∷ ips) =
      let out = quoted_ips ips in
      elim (non_blank ip) [ none ↦ out | some t ↦ go.quote_meta t ∷ out ]

  -- strings.Join(quoted, "|")
  abbrev pub join_alternatives : List Bytes → Bytes
  join_alternatives [] = []
  join_alternatives (s ∷ []) = s
  join_alternatives (s ∷ t ∷ rest) = s ++ text "|" ++ join_alternatives (t ∷ rest)

  -- buildExcludeIPRegexp: the list of the regexp, empty where there are no addresses; none on an error.
  abbrev pub build_exclude_ip_regexp : List Bytes → Option (List go.Regexp)
  build_exclude_ip_regexp ips = elim (quoted_ips ips) [
    | [] ↦ some []
    | q ∷ qs ↦ compile_all ((text "\\b(?:" ++ join_alternatives (q ∷ qs) ++ text ")\\b") ∷ [])
  ]

  abbrev pub parse_chain_ttl : Bytes → Option ℤ
  parse_chain_ttl raw = elim (non_blank raw) [
    | none ↦ some (pos 0)
    | some value ↦ elim (go.parse_duration value) [
      | none ↦ none
      | some d ↦ if is_negative d then none else some d
    ]
  ]

  abbrev pub or_default {ℓ} : {A : Type ℓ} → List A → List A → List A
  or_default [] fallback = fallback
  or_default (x ∷ xs) fallback = x ∷ xs

  abbrev pub assemble :
      FilterConfig → Bytes → List go.Regexp → List go.Regexp → List go.Regexp → ℤ → Parser
  assemble cfg unknown_log_id warn log_id exclude ttl = record {
    warn_fields = normalize_keys go cfg.warn_match.json_fields;
    message_fields =
        or_default (normalize_keys go cfg.warn_match.message_fields)
          (text "message" ∷ text "msg" ∷ text "log" ∷ []);
    time_fields =
        or_default (normalize_keys go cfg.warn_match.time_fields)
          (text "time" ∷ text "timestamp" ∷ text "@timestamp" ∷ text "ts" ∷ []);
    warn_regexps = or_default warn (go.warn_word ∷ []);
    exclude_regexps = exclude;
    log_id_keys = normalize_keys go cfg.log_id_extract.json_keys;
    log_id_regexps = log_id;
    unknown_log_id = unknown_log_id;
    chain_blocker = new_chain_blocker ttl (pos chain_blocker_max_entries);
  }

  -- New; none stands for every error.
  pub new : FilterConfig → Bytes → Option Parser
  new cfg unknown_log_id = elim (compile_all cfg.warn_match.regexps) [
    | none ↦ none
    | some warn ↦ elim (compile_all cfg.log_id_extract.regexps) [
      | none ↦ none
      | some log_id ↦ elim (compile_all cfg.warn_match.exclude_regexps) [
        | none ↦ none
        | some exclude ↦ elim (build_exclude_ip_regexp cfg.warn_match.exclude_ips) [
          | none ↦ none
          | some ip ↦ elim (parse_chain_ttl cfg.warn_match.exclude_chain_ttl) [
            | none ↦ none
            | some ttl ↦ some (assemble cfg unknown_log_id warn log_id (exclude ++ ip) ttl)
          ]
        ]
      ]
    ]
  ]

  module _ (p : Parser) where
    abbrev pub start_event : RawLog → Bytes → LogEvent
    start_event raw line = record {
      timestamp = raw.timestamp;
      container = raw.container;
      stream = raw.stream;
      level = [];
      log_id = p.unknown_log_id;
      alert_matched = false;
      message = line;
      raw = line;
      parsed_from_json = false;
    }

    abbrev pub set_level : Option Bytes → LogEvent → LogEvent
    set_level none event = event
    set_level (some level) event = record event { level = level; alert_matched = true }

    abbrev pub set_log_id : Option Bytes → LogEvent → LogEvent
    set_log_id none event = event
    set_log_id (some log_id) event = record event { log_id = log_id }

    abbrev pub set_timestamp : Option Time → LogEvent → LogEvent
    set_timestamp none event = event
    set_timestamp (some ts) event = record event { timestamp = ts }

    -- `if err := json.Unmarshal(…); err == nil { … }`
    abbrev pub read_json : Bytes → Option Members → LogEvent → LogEvent
    read_json line none event = event
    read_json line (some payload) event =
        set_log_id (extract_log_id_from_json go payload p.log_id_keys) (
          set_level (extract_warn_level go payload p.warn_fields p.warn_regexps) (
            set_timestamp (parse_timestamp go payload p.time_fields) (record event {
              parsed_from_json = true;
              message = coalesce_string go payload p.message_fields line;
            })))

    -- `if event.Level == "" { … }`
    abbrev pub read_level : Bytes → LogEvent → LogEvent
    read_level line event =
        if is_empty event.level
        then set_level (match_warn_regexp go line p.warn_regexps) event
        else event

    -- `if event.LogID == p.unknownLogID { … }`
    abbrev pub read_log_id : Bytes → LogEvent → LogEvent
    read_log_id line event =
        if str_eq event.log_id p.unknown_log_id
        then set_log_id
            (first (extract_log_id_from_text go event.message p.log_id_regexps)
              (extract_log_id_from_text go line p.log_id_regexps))
            event
        else event

    -- The event that Parse has made before it asks whether to keep it.
    pub event_of : RawLog → Bytes → LogEvent
    event_of raw line =
        read_log_id line
          (read_level line (read_json line (go.unmarshal line) (start_event raw line)))

    abbrev pub payload_excluded : Option Members → Bool
    payload_excluded none = false
    payload_excluded (some payload) = payload_has_any_regexp go (object payload) p.exclude_regexps

    pub is_excluded : Bytes → LogEvent → Bool
    is_excluded line event =
        has_any_regexp go event.message p.exclude_regexps
        || has_any_regexp go line p.exclude_regexps
        || payload_excluded (go.unmarshal line)

    -- `if !event.AlertMatched && event.LogID == p.unknownLogID { … }`
    abbrev pub keep : LogEvent → Option LogEvent
    keep event =
        if not event.alert_matched && str_eq event.log_id p.unknown_log_id then none else some event

    -- The rest of Parse, on the event, whether it is excluded, and the blocker.
    pub decide :
        Bool → LogEvent → Time → Option ChainBlocker → Option LogEvent × Option ChainBlocker
    unfolding block blocked
    decide true event now b =
        (none, if str_eq event.log_id p.unknown_log_id then b else block event.log_id now b)
    decide false event now b =
        let (silent, b') = blocked event.log_id now b in
        if str_eq event.log_id p.unknown_log_id
        then (keep event, b)
        else (if silent then none else keep event, b')

    -- Parse, from the state of the blocker to the event, if any, and that state.
    pub parse : RawLog → Time → Option ChainBlocker → Option LogEvent × Option ChainBlocker
    unfolding event_of is_excluded decide trim_space is_empty
    parse raw now b =
        let line = trim_space raw.line in
        let event = event_of raw line in
        if is_empty line then (none, b) else decide (is_excluded line event) event now b
