-- ===== src/Config/Validate.antt =====
-- internal/config/config.go: the parsers of durations, validateWebhookURL and validateResolved.
pub mod Accepted
use docker_monitor.Config.{Config}
use docker_monitor.Config.Memory.{parse_memory_limit}
use docker_monitor.Config.Platform.{Platform}
use docker_monitor.Prelude.{
  Bool, List, Option, [], false, if◌then◌else◌, length, none, not, some, true, ◌&&◌, ◌==◌, ◌||◌,
  ◌∷◌,
}
use docker_monitor.Prelude.Bytes.{Bytes, is_empty, str_eq, text}
use docker_monitor.Prelude.Bytes.Space.{trim_space}
use docker_monitor.Prelude.Int.{is_negative, is_nonpositive, pos, ℤ}

-- The errors, by the check that fails. An error that wraps another package's drops its text.
pub data Problem : Type 0 where
  no_patterns : Problem
  no_output_dir : Problem
  bad_flush_size : Problem
  bad_since : Problem
  bad_flush_interval : Problem
  bad_backfill_threshold : Problem
  bad_backfill_max_duration : Problem
  bad_group_ttl : Problem
  bad_max_groups : Problem
  bad_exclude_chain_ttl : Problem
  no_unknown_log_id : Problem
  secret_without_url : Problem
  bad_webhook_url : Problem
  bad_max_events : Problem
  bad_memory_limit : Problem

-- A check: none where it passes.
abbrev pub Check : Type 0
Check = Option Problem

abbrev pub refuse : Bool → Problem → Check
refuse true problem = some problem
refuse false problem = none

-- `if _, err := …; err != nil { return err }`
abbrev pub parsed {ℓ} : {A : Type ℓ} → Option A → Problem → Check
parsed none problem = some problem
parsed (some a) problem = none

-- One check after the other, up to the first that fails.
abbrev pub run_checks : List Check → Check
run_checks [] = none
run_checks (none ∷ checks) = run_checks checks
run_checks (some problem ∷ checks) = some problem

module _ (go : Platform) where
  -- The four parsers of a duration that may be empty and must not be negative.
  pub optional_duration : Bytes → Option ℤ
  unfolding trim_space is_empty
  optional_duration raw =
      let value = trim_space raw in
      if is_empty value then some (pos 0) else elim (go.parse_duration value) [
        | none ↦ none
        | some d ↦ if is_negative d then none else some d
      ]

  abbrev pub since_duration : Config → Option ℤ
  since_duration c = go.parse_duration c.docker.since

  abbrev pub flush_interval_duration : Config → Option ℤ
  flush_interval_duration c = go.parse_duration c.aggregation.flush_interval

  abbrev pub group_ttl_duration : Config → Option ℤ
  group_ttl_duration c = optional_duration c.aggregation.group_ttl

  abbrev pub backfill_threshold_duration : Config → Option ℤ
  backfill_threshold_duration c = optional_duration c.aggregation.backfill_threshold

  abbrev pub backfill_max_duration_duration : Config → Option ℤ
  backfill_max_duration_duration c = optional_duration c.aggregation.backfill_max_duration

  abbrev pub exclude_chain_ttl_duration : Config → Option ℤ
  exclude_chain_ttl_duration c = optional_duration c.filters.warn_match.exclude_chain_ttl

  -- validateWebhookURL: whether it returns an error.
  pub webhook_url_invalid : Bytes → Bool
  unfolding trim_space is_empty str_eq
  webhook_url_invalid raw =
      let url = trim_space raw in
      if is_empty url then false else elim (go.parse_url url) [
        | none ↦ true
        | some (scheme, host) ↦
            not (str_eq scheme (text "http") || str_eq scheme (text "https"))
            || is_empty (trim_space host)
      ]

  -- The checks of validateResolved.
  abbrev pub checks : Config → List Check
  checks c =
      refuse (length c.docker.include_patterns == 0) no_patterns
      ∷ refuse (is_empty c.output_dir) no_output_dir
      ∷ refuse (is_nonpositive c.aggregation.flush_size) bad_flush_size
      ∷ parsed (since_duration c) bad_since
      ∷ parsed (flush_interval_duration c) bad_flush_interval
      ∷ parsed (backfill_threshold_duration c) bad_backfill_threshold
      ∷ parsed (backfill_max_duration_duration c) bad_backfill_max_duration
      ∷ parsed (group_ttl_duration c) bad_group_ttl
      ∷ refuse (is_negative c.aggregation.max_groups) bad_max_groups
      ∷ parsed (exclude_chain_ttl_duration c) bad_exclude_chain_ttl
      ∷ refuse (is_empty c.aggregation.unknown_log_id) no_unknown_log_id
      ∷ refuse
          (not (is_empty (trim_space c.ding_talk.secret))
            && is_empty (trim_space c.ding_talk.webhook_url))
          secret_without_url
      ∷ refuse (webhook_url_invalid c.ding_talk.webhook_url) bad_webhook_url
      ∷ refuse (is_nonpositive c.ding_talk.max_events) bad_max_events
      ∷ parsed (parse_memory_limit go c.memory_limit) bad_memory_limit
      ∷ []

  unfoldable pub validate_resolved : Config → Check
  unfolding webhook_url_invalid optional_duration parse_memory_limit trim_space is_empty
  validate_resolved c = run_checks (checks c)
