-- ===== src/Parser/Extract.antt =====
-- internal/parser/parser.go: what is read out of a line, from its JSON members or its text.
use docker_monitor.Aggregator.{keys}
use docker_monitor.Model.{Time}
use docker_monitor.Parser.Runtime.{
  Json, Members, Runtime, array, boolean, member, nil, null, number, object, str,
}
use docker_monitor.Prelude.{
  Bool, List, Option, [], false, if◌then◌else◌, none, not, some, ◌&&◌, ◌||◌, ◌∷◌,
}
use docker_monitor.Prelude.Bytes.{Bytes, is_empty}
use docker_monitor.Prelude.Bytes.Space.{trim_space}

abbrev pub first {ℓ} : {A : Type ℓ} → Option A → Option A → Option A
first none y = y
first (some x) y = some x

abbrev pub non_blank : Bytes → Option Bytes
non_blank s = let t = trim_space s in if is_empty t then none else some t

module _ (go : Runtime) where
  -- normalizeKeys
  unfoldable pub normalize_keys : List Bytes → List Bytes
  unfolding trim_space is_empty
  normalize_keys [] = []
  normalize_keys (value ∷ values) =
      let out = normalize_keys values in
      elim (non_blank (go.to_lower value)) [ none ↦ out | some t ↦ t ∷ out ]

  -- The two loops that four functions share: for each key, over the members whose name equals it but
  -- for case, until `read` returns a result.
  abbrev pub search_fields : {A : Type 0} → (Json → Option A) → Bytes → Members → Option A
  search_fields read key nil = none
  search_fields read key (member field value rest) =
      let later = search_fields read key rest in
      if go.equal_fold field key then first (read value) later else later

  abbrev pub search_keys : {A : Type 0} → (Json → Option A) → List Bytes → Members → Option A
  search_keys read [] payload = none
  search_keys read (key ∷ keys) payload =
      first (search_fields read key payload) (search_keys read keys payload)

  abbrev pub message_text : Json → Option Bytes
  message_text (str s) = if is_empty s then none else some s
  message_text value = non_blank (go.sprint value)

  abbrev pub coalesce_string : Members → List Bytes → Bytes → Bytes
  coalesce_string payload keys fallback = elim (search_keys message_text keys payload) [
    | none ↦ fallback
    | some t ↦ t
  ]

  abbrev pub parse_timestamp_string : Bytes → Option Time
  parse_timestamp_string value = first (go.parse_rfc3339_nano value) (
      first (go.parse_rfc3339 value)
        (first (go.parse_seconds value) (first (go.parse_millis value) (go.parse_unix value))))

  abbrev pub read_timestamp : Json → Option Time
  read_timestamp (str s) = parse_timestamp_string s
  read_timestamp (number f) = some (go.unix_float f)
  read_timestamp value = none

  abbrev pub parse_timestamp : Members → List Bytes → Option Time
  parse_timestamp payload keys = search_keys read_timestamp keys payload

  -- The first group that is not blank, else the whole match unless it is blank.
  abbrev pub first_text : List Bytes → Option Bytes
  first_text [] = none
  first_text (s ∷ rest) = first (non_blank s) (first_text rest)

  abbrev pub matched_text : List Bytes → Option Bytes
  matched_text [] = none
  matched_text (whole ∷ groups) = first (first_text groups) (non_blank whole)

  abbrev pub upper : Option Bytes → Option Bytes
  upper none = none
  upper (some s) = some (go.to_upper s)

  -- matchWarnRegexp, which is extractWarnLevelFromText too
  abbrev pub match_warn_regexp : Bytes → List go.Regexp → Option Bytes
  match_warn_regexp s [] = none
  match_warn_regexp s (re ∷ regexps) =
      first (upper (matched_text (go.find_submatch re s))) (match_warn_regexp s regexps)

  abbrev pub extract_warn_level : Members → List Bytes → List go.Regexp → Option Bytes
  extract_warn_level payload fields regexps =
      search_keys (λ value. match_warn_regexp (trim_space (go.sprint value)) regexps) fields payload

  abbrev pub extract_log_id_from_json : Members → List Bytes → Option Bytes
  extract_log_id_from_json payload keys =
      search_keys (λ value. non_blank (go.sprint value)) keys payload

  abbrev pub second_text : List Bytes → Option Bytes
  second_text (whole ∷ group ∷ groups) = non_blank group
  second_text _ = none

  abbrev pub extract_log_id_from_text : Bytes → List go.Regexp → Option Bytes
  extract_log_id_from_text line [] = none
  extract_log_id_from_text line (re ∷ regexps) =
      first (second_text (go.find_submatch re line)) (extract_log_id_from_text line regexps)

  abbrev pub has_any_regexp : Bytes → List go.Regexp → Bool
  has_any_regexp s [] = false
  has_any_regexp s (re ∷ regexps) = go.match_string re s || has_any_regexp s regexps

  -- A scalar other than a string and nil.
  abbrev pub scalar_has : List go.Regexp → Json → Bool
  scalar_has regexps value =
      let t = trim_space (go.sprint value) in not (is_empty t) && has_any_regexp t regexps

  mutual
    pub payload_has_any_regexp : Json → List go.Regexp → Bool
    payload_has_any_regexp (object items) regexps = items_have_any_regexp items regexps
    payload_has_any_regexp (array items) regexps = items_have_any_regexp items regexps
    payload_has_any_regexp (str s) regexps = has_any_regexp s regexps
    payload_has_any_regexp null regexps = false
    payload_has_any_regexp (boolean b) regexps = scalar_has regexps (boolean b)
    payload_has_any_regexp (number f) regexps = scalar_has regexps (number f)

    pub items_have_any_regexp : Members → List go.Regexp → Bool
    items_have_any_regexp nil regexps = false
    items_have_any_regexp (member key item items) regexps =
        payload_has_any_regexp item regexps || items_have_any_regexp items regexps
