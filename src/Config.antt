-- ===== src/Config.antt =====
-- internal/config/config.go: the configuration, and the overrides that a Docker host may carry. A nil
-- pointer or slice is none.
pub mod Platform
pub mod Memory
pub mod Overrides
pub mod Validate
pub mod Hosts
mod Tests
use docker_monitor.Prelude.{Bool, List, Option}
use docker_monitor.Prelude.Bytes.{Bytes}
use docker_monitor.Prelude.Int.{ℤ}

pub record WarnMatchConfig : Type 0 where
  pub regexps : List Bytes
  pub exclude_regexps : List Bytes
  pub exclude_ips : List Bytes
  pub exclude_chain_ttl : Bytes
  pub json_fields : List Bytes
  pub message_fields : List Bytes
  pub time_fields : List Bytes

pub record LogIdExtractConfig : Type 0 where
  pub json_keys : List Bytes
  pub regexps : List Bytes

pub record FilterConfig : Type 0 where
  pub warn_match : WarnMatchConfig
  pub log_id_extract : LogIdExtractConfig

pub record AggregationConfig : Type 0 where
  pub flush_size : ℤ
  pub flush_interval : Bytes
  pub unknown_log_id : Bytes
  pub max_groups : ℤ
  pub group_ttl : Bytes
  pub backfill_threshold : Bytes
  pub backfill_max_duration : Bytes

pub record DingTalkConfig : Type 0 where
  pub webhook_url : Bytes
  pub secret : Bytes
  pub at_all : Bool
  pub at_mobiles : List Bytes
  pub mention_levels : List Bytes
  pub max_events : ℤ

pub record WarnMatchOverride : Type 0 where
  pub regexps : Option (List Bytes)
  pub exclude_regexps : Option (List Bytes)
  pub exclude_ips : Option (List Bytes)
  pub exclude_chain_ttl : Option Bytes
  pub json_fields : Option (List Bytes)
  pub message_fields : Option (List Bytes)
  pub time_fields : Option (List Bytes)

pub record LogIdExtractOverride : Type 0 where
  pub json_keys : Option (List Bytes)
  pub regexps : Option (List Bytes)

pub record FilterOverride : Type 0 where
  pub warn_match : Option WarnMatchOverride
  pub log_id_extract : Option LogIdExtractOverride

pub record AggregationOverride : Type 0 where
  pub flush_size : Option ℤ
  pub flush_interval : Option Bytes
  pub unknown_log_id : Option Bytes
  pub max_groups : Option ℤ
  pub group_ttl : Option Bytes
  pub backfill_threshold : Option Bytes
  pub backfill_max_duration : Option Bytes

pub record DingTalkOverride : Type 0 where
  pub webhook_url : Option Bytes
  pub secret : Option Bytes
  pub at_all : Option Bool
  pub at_mobiles : Option (List Bytes)
  pub mention_levels : Option (List Bytes)
  pub max_events : Option ℤ

-- `output_dir` is all of StorageOverrideConfig.
pub record DockerHostConfig : Type 0 where
  pub host : Bytes
  pub include_patterns : Option (List Bytes)
  pub since : Option Bytes
  pub filters : Option FilterOverride
  pub aggregation : Option AggregationOverride
  pub ding_talk : Option DingTalkOverride
  pub storage : Option (Option Bytes)
  pub debug : Bool

pub record DockerConfig : Type 0 where
  pub hosts : List DockerHostConfig
  pub host : Bytes
  pub include_patterns : List Bytes
  pub since : Bytes

-- `output_dir` is all of StorageConfig, `memory_limit` all of RuntimeConfig.
pub record Config : Type 0 where
  pub docker : DockerConfig
  pub filters : FilterConfig
  pub aggregation : AggregationConfig
  pub ding_talk : DingTalkConfig
  pub output_dir : Bytes
  pub memory_limit : Bytes

pub record ResolvedHostConfig : Type 0 where
  pub host : Bytes
  pub config : Config
  pub debug : Bool
