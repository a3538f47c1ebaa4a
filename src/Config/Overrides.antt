-- ===== src/Config/Overrides.antt =====
-- internal/config/config.go: the functions that apply the overrides of a host.
pub mod Twice
use docker_monitor.Config.{
  AggregationConfig, AggregationOverride, Config, DingTalkConfig, DingTalkOverride,
  DockerHostConfig, FilterConfig, FilterOverride, LogIdExtractConfig, LogIdExtractOverride,
  WarnMatchConfig, WarnMatchOverride,
}
use docker_monitor.Prelude.{Option, none, some}
use docker_monitor.Prelude.Bytes.{Bytes}

-- `if override.X != nil { dst.X = *override.X }`
abbrev pub or_keep {ℓ} : {A : Type ℓ} → Option A → A → A
or_keep none old = old
or_keep (some new) old = new

pub apply_warn_match_overrides : WarnMatchOverride → WarnMatchConfig → WarnMatchConfig
apply_warn_match_overrides override dst = record {
  regexps = or_keep override.regexps dst.regexps;
  exclude_regexps = or_keep override.exclude_regexps dst.exclude_regexps;
  exclude_ips = or_keep override.exclude_ips dst.exclude_ips;
  exclude_chain_ttl = or_keep override.exclude_chain_ttl dst.exclude_chain_ttl;
  json_fields = or_keep override.json_fields dst.json_fields;
  message_fields = or_keep override.message_fields dst.message_fields;
  time_fields = or_keep override.time_fields dst.time_fields;
}

pub apply_log_id_extract_overrides : LogIdExtractOverride → LogIdExtractConfig → LogIdExtractConfig
apply_log_id_extract_overrides override dst = record {
  json_keys = or_keep override.json_keys dst.json_keys;
  regexps = or_keep override.regexps dst.regexps;
}

-- `if override != nil { apply(&dst, override) }`
abbrev pub apply_some {ℓ κ} : {O : Type ℓ} {A : Type κ} → (O → A → A) → Option O → A → A
apply_some apply none dst = dst
apply_some apply (some o) dst = apply o dst

pub apply_filter_overrides : FilterOverride → FilterConfig → FilterConfig
unfolding apply_warn_match_overrides apply_log_id_extract_overrides
apply_filter_overrides override dst = record {
  warn_match = apply_some apply_warn_match_overrides override.warn_match dst.warn_match;
  log_id_extract =
      apply_some apply_log_id_extract_overrides override.log_id_extract dst.log_id_extract;
}

pub apply_aggregation_overrides : AggregationOverride → AggregationConfig → AggregationConfig
apply_aggregation_overrides override dst = record {
  flush_size = or_keep override.flush_size dst.flush_size;
  flush_interval = or_keep override.flush_interval dst.flush_interval;
  unknown_log_id = or_keep override.unknown_log_id dst.unknown_log_id;
  max_groups = or_keep override.max_groups dst.max_groups;
  group_ttl = or_keep override.group_ttl dst.group_ttl;
  backfill_threshold = or_keep override.backfill_threshold dst.backfill_threshold;
  backfill_max_duration = or_keep override.backfill_max_duration dst.backfill_max_duration;
}

pub apply_ding_talk_overrides : DingTalkOverride → DingTalkConfig → DingTalkConfig
apply_ding_talk_overrides override dst = record {
  webhook_url = or_keep override.webhook_url dst.webhook_url;
  secret = or_keep override.secret dst.secret;
  at_all = or_keep override.at_all dst.at_all;
  at_mobiles = or_keep override.at_mobiles dst.at_mobiles;
  mention_levels = or_keep override.mention_levels dst.mention_levels;
  max_events = or_keep override.max_events dst.max_events;
}

-- applyStorageOverrides
abbrev pub apply_storage_overrides : Option Bytes → Bytes → Bytes
apply_storage_overrides = or_keep

unfoldable pub apply_docker_host_overrides : DockerHostConfig → Config → Config
unfolding apply_filter_overrides apply_aggregation_overrides apply_ding_talk_overrides
apply_docker_host_overrides host_cfg cfg = record cfg {
  docker = record cfg.docker {
    include_patterns = or_keep host_cfg.include_patterns cfg.docker.include_patterns;
    since = or_keep host_cfg.since cfg.docker.since;
  };
  filters = apply_some apply_filter_overrides host_cfg.filters cfg.filters;
  aggregation = apply_some apply_aggregation_overrides host_cfg.aggregation cfg.aggregation;
  ding_talk = apply_some apply_ding_talk_overrides host_cfg.ding_talk cfg.ding_talk;
  output_dir = apply_some apply_storage_overrides host_cfg.storage cfg.output_dir;
}
