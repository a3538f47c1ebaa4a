-- ===== src/Parser/Parse/Decision.antt =====
-- internal/parser/parser.go: the events that Parse reads and returns.
use mathlib.Core.Path.{subst}
use docker_monitor.Aggregator.{keys}
use docker_monitor.Model.{LogEvent, RawLog, Time}
use docker_monitor.Parser.ChainBlocker.{ChainBlocker}
use docker_monitor.Parser.Extract.{
  extract_log_id_from_json, extract_log_id_from_text, extract_warn_level, first, first_text,
  match_warn_regexp, matched_text, non_blank, parse_timestamp, search_fields, search_keys,
  second_text, upper,
}
use docker_monitor.Parser.Parse.{
  Parser, event_of, keep, parse, read_json, read_level, read_log_id, set_level, set_log_id,
  set_timestamp,
}
use docker_monitor.Parser.Parse.Chain.{parse-answer}
use docker_monitor.Parser.Runtime.{Json, Members, Runtime, member, nil}
use docker_monitor.Prelude.{
  Bool, Bool-cases, List, Option, [], arith, false, if◌then◌else◌, inl, inr, none, not, refl, some,
  sym, true, ◌∙◌, ◌∷◌, ◌≡◌, ◌≢◌, ◌⊎◌,
}
use docker_monitor.Prelude.Bytes.{Bytes, is_empty, str_eq, str_eq_iff}
use docker_monitor.Prelude.Bytes.Space.{trim_space}

module _ (go : Runtime) where
  -- strings.ToUpper leaves no text empty that is not.
  abbrev pub KeepsText : Type 0
  KeepsText = (s : Bytes) → is_empty s ≡ false → is_empty (go.to_upper s) ≡ false

  -- A result, if there is one, is not empty.
  abbrev pub NonEmpty : Option Bytes → Type 0
  NonEmpty none = Unit
  NonEmpty (some s) = is_empty s ≡ false

  non_blank-NonEmpty : (s : Bytes) → NonEmpty (non_blank s)
  non_blank-NonEmpty s = elim (Bool-cases (is_empty (trim_space s))) [
    | inl blank ↦ rw blank tt
    | inr written ↦ rw written written
  ]

  first-NonEmpty : (x y : Option Bytes) → NonEmpty x → NonEmpty y → NonEmpty (first x y)
  first-NonEmpty none y hx hy = hy
  first-NonEmpty (some s) y hx hy = hx

  upper-NonEmpty : KeepsText → (x : Option Bytes) → NonEmpty x → NonEmpty (upper go x)
  upper-NonEmpty keeps none h = tt
  upper-NonEmpty keeps (some s) h = keeps s h

  first_text-NonEmpty : (groups : List Bytes) → NonEmpty (first_text go groups)
  first_text-NonEmpty [] = tt
  first_text-NonEmpty (s ∷ rest) =
      first-NonEmpty (non_blank s) (first_text go rest) (non_blank-NonEmpty s)
        (first_text-NonEmpty rest)

  matched_text-NonEmpty : (groups : List Bytes) → NonEmpty (matched_text go groups)
  matched_text-NonEmpty [] = tt
  matched_text-NonEmpty (whole ∷ groups) =
      first-NonEmpty (first_text go groups) (non_blank whole) (first_text-NonEmpty groups)
        (non_blank-NonEmpty whole)

  match_warn_regexp-NonEmpty :
      KeepsText → (s : Bytes) (regexps : List go.Regexp) → NonEmpty (match_warn_regexp go s regexps)
  match_warn_regexp-NonEmpty keeps s [] = tt
  match_warn_regexp-NonEmpty keeps s (re ∷ regexps) =
      first-NonEmpty (upper go (matched_text go (go.find_submatch re s)))
        (match_warn_regexp go s regexps)
        (upper-NonEmpty keeps (matched_text go (go.find_submatch re s))
          (matched_text-NonEmpty (go.find_submatch re s)))
        (match_warn_regexp-NonEmpty keeps s regexps)

  module _ (read : Json → Option Bytes) (h : (v : Json) → NonEmpty (read v)) where
    search_fields-NonEmpty :
        (key : Bytes) (payload : Members) → NonEmpty (search_fields go read key payload)
    search_fields-NonEmpty key nil = tt
    search_fields-NonEmpty key (member field value rest) =
        elim (Bool-cases (go.equal_fold field key)) [
          | inl same ↦ rw same (
              first-NonEmpty (read value) (search_fields go read key rest) (h value)
                (search_fields-NonEmpty key rest))
          | inr other ↦ rw other (search_fields-NonEmpty key rest)
        ]

    search_keys-NonEmpty :
        (keys : List Bytes) (payload : Members) → NonEmpty (search_keys go read keys payload)
    search_keys-NonEmpty [] payload = tt
    search_keys-NonEmpty (key ∷ keys) payload =
        first-NonEmpty (search_fields go read key payload) (search_keys go read keys payload)
          (search_fields-NonEmpty key payload) (search_keys-NonEmpty keys payload)

  extract_log_id_from_text-NonEmpty :
      (line : Bytes) (regexps : List go.Regexp)
      → NonEmpty (extract_log_id_from_text go line regexps)
  extract_log_id_from_text-NonEmpty line [] = tt
  extract_log_id_from_text-NonEmpty line (re ∷ regexps) =
      first-NonEmpty (second_text go (go.find_submatch re line))
        (extract_log_id_from_text go line regexps) (second (go.find_submatch re line))
        (extract_log_id_from_text-NonEmpty line regexps)
    where
      second : (groups : List Bytes) → NonEmpty (second_text go groups)
      second [] = tt
      second (whole ∷ []) = tt
      second (whole ∷ group ∷ groups) = non_blank-NonEmpty group

  module _ (p : Parser go) (raw : RawLog) (line : Bytes) where
    -- What holds of the event at each stage of its making.
    abbrev pub WellRead : LogEvent → Type 0
    WellRead e =
        (e.alert_matched ≡ not (is_empty e.level))
        × ((is_empty e.log_id ≡ false) ⊎ (e.log_id ≡ p.unknown_log_id))
        × (e.raw ≡ line)
        × (e.container ≡ raw.container)
        × (e.stream ≡ raw.stream)

    set_level-WellRead :
        (level : Option Bytes) (e : LogEvent)
        → NonEmpty level
        → WellRead e
        → WellRead (set_level go p level e)
    set_level-WellRead none e h w = w
    set_level-WellRead (some s) e h w = (rw h refl, w.1, w.2, w.3, w.4)

    set_log_id-WellRead :
        (id : Option Bytes) (e : LogEvent)
        → NonEmpty id
        → WellRead e
        → WellRead (set_log_id go p id e)
    set_log_id-WellRead none e h w = w
    set_log_id-WellRead (some s) e h w = (w.0, inl h, w.2, w.3, w.4)

    set_timestamp-WellRead :
        (ts : Option Time) (e : LogEvent) → WellRead e → WellRead (set_timestamp go p ts e)
    set_timestamp-WellRead none e w = w
    set_timestamp-WellRead (some ts) e w = w

    read_json-WellRead :
        KeepsText
        → (payload : Option Members) (e : LogEvent) → WellRead e
        → WellRead (read_json go p line payload e)
    read_json-WellRead keeps none e w = w
    read_json-WellRead keeps (some payload) e w =
        set_log_id-WellRead (extract_log_id_from_json go payload p.log_id_keys) _
          (search_keys-NonEmpty (λ v. non_blank (go.sprint v))
            (λ v. non_blank-NonEmpty (go.sprint v)) p.log_id_keys payload)
          (set_level-WellRead (extract_warn_level go payload p.warn_fields p.warn_regexps) _
            (search_keys-NonEmpty _
              (λ v. match_warn_regexp-NonEmpty keeps (trim_space (go.sprint v)) p.warn_regexps)
              p.warn_fields payload)
            (set_timestamp-WellRead (parse_timestamp go payload p.time_fields) _ w))

    read_level-WellRead :
        KeepsText → (e : LogEvent) → WellRead e → WellRead (read_level go p line e)
    read_level-WellRead keeps e w = elim (Bool-cases (is_empty e.level)) [
      | inl empty ↦ rw empty (
          set_level-WellRead (match_warn_regexp go line p.warn_regexps) e
            (match_warn_regexp-NonEmpty keeps line p.warn_regexps) w)
      | inr filled ↦ rw filled w
    ]

    read_log_id-WellRead : (e : LogEvent) → WellRead e → WellRead (read_log_id go p line e)
    read_log_id-WellRead e w = elim (Bool-cases (str_eq e.log_id p.unknown_log_id)) [
      | inl unknown ↦ rw unknown (
          set_log_id-WellRead _ e
            (first-NonEmpty (extract_log_id_from_text go e.message p.log_id_regexps)
              (extract_log_id_from_text go line p.log_id_regexps)
              (extract_log_id_from_text-NonEmpty e.message p.log_id_regexps)
              (extract_log_id_from_text-NonEmpty line p.log_id_regexps))
            w)
      | inr known ↦ rw known w
    ]

    event_of-WellRead : KeepsText → WellRead (event_of go p raw line)
    unfolding event_of is_empty
    event_of-WellRead keeps = read_log_id-WellRead _ (
        read_level-WellRead keeps _
          (read_json-WellRead keeps (go.unmarshal line) _ (refl, inr refl, refl, refl, refl)))

  keep-some :
      (p : Parser go) (e e' : LogEvent)
      → keep go p e ≡ some e'
      → (e ≡ e') × ((e.alert_matched ≡ true) ⊎ (e.log_id ≢ p.unknown_log_id))
  keep-some p e e' h = (ground (arith, h), ground (arith, h, str_eq_iff e.log_id p.unknown_log_id))

  returned-kept :
      (p : Parser go) (raw : RawLog) (now : Time) (b : Option ChainBlocker) (e : LogEvent)
      → (parse go p raw now b).0 ≡ some e
      → keep go p (event_of go p raw (trim_space raw.line)) ≡ some e
  returned-kept p raw now b e h = from_answer _ _ _ (sym (parse-answer go p raw now b) ∙ h)
    where
      from_answer :
          (blank silent : Bool) (x : Option LogEvent)
          → (if blank then none else if silent then none else x) ≡ some e
          → x ≡ some e
      from_answer blank silent x h = ground (arith, h)

  -- Where strings.ToUpper keeps text, an event that Parse returns, from any state of the blocker, is
  -- an alert exactly if it has a level, has a log id that is the unknown one or not empty, is an
  -- alert unless its log id is known, and has the trimmed line, the container and the stream of the
  -- log line.
  pub parse-WellRead :
      (p : Parser go) (raw : RawLog) (now : Time) (b : Option ChainBlocker) (e : LogEvent)
      → KeepsText
      → (parse go p raw now b).0 ≡ some e
      → WellRead p raw (trim_space raw.line) e
        × ((e.alert_matched ≡ true) ⊎ (e.log_id ≢ p.unknown_log_id))
  parse-WellRead p raw now b e keeps h =
      let (same, alert) = keep-some p _ e (returned-kept p raw now b e h) in
      subst
        (λ x.
          WellRead p raw (trim_space raw.line) x
          × ((x.alert_matched ≡ true) ⊎ (x.log_id ≢ p.unknown_log_id)))
        same (event_of-WellRead p raw (trim_space raw.line) keeps, alert)
