-- ===== src/Config/Tests.antt =====
-- A small configuration, and a platform whose durations are the lengths of texts.
use docker_monitor.Config.{Config, DockerHostConfig, ResolvedHostConfig}
use docker_monitor.Config.Hosts.{
  duplicate_host, host_configs_or_default, plain_host, refused, resolve_hosts, resolved,
}
use docker_monitor.Config.Hosts.Resolved.{
  IsAccepted, Once, host_of, listed, resolve_hosts_iff, resolved_of,
}
use docker_monitor.Config.Platform.{Platform}
use docker_monitor.Config.Validate.{validate_resolved}
use docker_monitor.Config.Validate.Accepted.{validate_resolved-flush_interval}
use docker_monitor.Prelude.{
  All, List, [], false, length, map, none, refl, some, ℕ, ◌*◌, ◌↔◌, ◌∷◌, ◌≡◌,
}
use docker_monitor.Prelude.Bytes.{Bytes, text}
use docker_monitor.Prelude.Int.{pos}

abbrev pub toy_platform : Platform
toy_platform = record {
  parse_duration = λ s. some (pos (length s));
  parse_url = λ s. some (text "https", s);
  to_upper = λ s. s;
  parse_int = λ s. some (pos (length s));
  Float = ℕ;
  parse_float = λ s. some (length s);
  float_negative = λ x. false;
  float_scaled = λ x n. pos (x * n);
}

abbrev pub toy_config : Config
toy_config = record {
  docker = record { hosts = []; host = []; include_patterns = text "*" ∷ []; since = text "0s" };
  filters = record {
    warn_match = record {
      regexps = [];
      exclude_regexps = [];
      exclude_ips = [];
      exclude_chain_ttl = text "10m";
      json_fields = [];
      message_fields = [];
      time_fields = [];
    };
    log_id_extract = record { json_keys = []; regexps = [] };
  };
  aggregation = record {
    flush_size = pos 20;
    flush_interval = text "10s";
    unknown_log_id = text "unknown";
    max_groups = pos 10000;
    group_ttl = text "30m";
    backfill_threshold = text "5m";
    backfill_max_duration = text "30m";
  };
  ding_talk = record {
    webhook_url = [];
    secret = [];
    at_all = false;
    at_mobiles = [];
    mention_levels = text "ERROR" ∷ [];
    max_events = pos 5;
  };
  output_dir = text "data";
  memory_limit = text "512MiB";
}

abbrev pub web_host : DockerHostConfig
web_host = record (plain_host (text "ssh://web")) { include_patterns = some (text "web*" ∷ []) }

abbrev pub two_hosts : Config
two_hosts = record toy_config {
  docker = record toy_config.docker { hosts = web_host ∷ plain_host (text "ssh://db ") ∷ [] };
}

pub toy-IsValid : validate_resolved toy_platform toy_config ≡ none
unfolding validate_resolved
toy-IsValid = refl

abbrev resolved_two : List ResolvedHostConfig
resolved_two = map (resolved_of toy_platform two_hosts) (host_configs_or_default two_hosts.docker)

two_resolved : resolve_hosts toy_platform two_hosts ≡ resolved resolved_two
unfolding resolve_hosts
two_resolved = refl

duplicate_refused :
    resolve_hosts toy_platform (record toy_config {
      docker = record toy_config.docker {
        hosts = plain_host (text " a") ∷ plain_host (text "a") ∷ [];
      };
    })
    ≡ refused (duplicate_host (text "a"))
unfolding resolve_hosts
duplicate_refused = refl

resolve_hosts_iff_example : (resolve_hosts toy_platform two_hosts ≡ resolved resolved_two) ↔ (
    (resolved_two ≡ map (resolved_of toy_platform two_hosts) (listed toy_platform two_hosts))
    × All (IsAccepted toy_platform two_hosts) (listed toy_platform two_hosts)
    × Once (map host_of (listed toy_platform two_hosts)))
resolve_hosts_iff_example = resolve_hosts_iff toy_platform two_hosts resolved_two

-- The text of length 0 is a flush interval of zero here.
abbrev never : Bytes
never = []

validate_resolved-flush_interval_example :
    validate_resolved toy_platform
      (record toy_config { aggregation = record toy_config.aggregation { flush_interval = never } })
    ≡ none
validate_resolved-flush_interval_example =
    validate_resolved-flush_interval toy_platform toy_config never (pos 0) toy-IsValid refl
