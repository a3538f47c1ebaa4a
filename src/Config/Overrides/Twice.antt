-- ===== src/Config/Overrides/Twice.antt =====
-- internal/config/config.go: the overrides of a host, applied again.
use docker_monitor.Config.{
  AggregationConfig, AggregationOverride, Config, DingTalkConfig, DingTalkOverride,
  DockerHostConfig, FilterConfig, FilterOverride, LogIdExtractConfig, LogIdExtractOverride,
  WarnMatchConfig, WarnMatchOverride,
}
use docker_monitor.Config.Overrides.{
  apply_aggregation_overrides, apply_ding_talk_overrides, apply_docker_host_overrides,
  apply_filter_overrides, apply_log_id_extract_overrides, apply_some, apply_storage_overrides,
  apply_warn_match_overrides, or_keep,
}
use docker_monitor.Prelude.{Option, none, refl, some, ◌≡◌}
use docker_monitor.Prelude.Bytes.{Bytes}

or_keep_twice {ℓ} : {A : Type ℓ} (o : Option A) (x : A) → or_keep o (or_keep o x) ≡ or_keep o x
or_keep_twice none x = refl
or_keep_twice (some y) x = refl

warn_match_twice :
    (o : WarnMatchOverride) (c : WarnMatchConfig)
    → apply_warn_match_overrides o (apply_warn_match_overrides o c) ≡ apply_warn_match_overrides o c
unfolding apply_warn_match_overrides
warn_match_twice o c = simp or_keep_twice

log_id_extract_twice :
    (o : LogIdExtractOverride) (c : LogIdExtractConfig)
    → apply_log_id_extract_overrides o (apply_log_id_extract_overrides o c)
      ≡ apply_log_id_extract_overrides o c
unfolding apply_log_id_extract_overrides
log_id_extract_twice o c = simp or_keep_twice

aggregation_twice :
    (o : AggregationOverride) (c : AggregationConfig)
    → apply_aggregation_overrides o (apply_aggregation_overrides o c)
      ≡ apply_aggregation_overrides o c
unfolding apply_aggregation_overrides
aggregation_twice o c = simp or_keep_twice

ding_talk_twice :
    (o : DingTalkOverride) (c : DingTalkConfig)
    → apply_ding_talk_overrides o (apply_ding_talk_overrides o c) ≡ apply_ding_talk_overrides o c
unfolding apply_ding_talk_overrides
ding_talk_twice o c = simp or_keep_twice

apply_some_twice {ℓ κ} :
    {O : Type ℓ} {A : Type κ} (apply : O → A → A)
    → ((o : O) (a : A) → apply o (apply o a) ≡ apply o a)
    → (o : Option O) (a : A) → apply_some apply o (apply_some apply o a) ≡ apply_some apply o a
apply_some_twice apply once none a = refl
apply_some_twice apply once (some o) a = once o a

filter_twice :
    (o : FilterOverride) (c : FilterConfig)
    → apply_filter_overrides o (apply_filter_overrides o c) ≡ apply_filter_overrides o c
unfolding apply_filter_overrides
filter_twice o c = simp (
  apply_some_twice apply_warn_match_overrides warn_match_twice,
  apply_some_twice apply_log_id_extract_overrides log_id_extract_twice,
)

-- Overrides that are applied once more change nothing, and they leave the hosts of the configuration
-- and its memory limit as they are.
pub overrides_twice :
    (host_cfg : DockerHostConfig) (c : Config)
    → (apply_docker_host_overrides host_cfg (apply_docker_host_overrides host_cfg c)
        ≡ apply_docker_host_overrides host_cfg c)
      × ((apply_docker_host_overrides host_cfg c).docker.hosts ≡ c.docker.hosts)
      × ((apply_docker_host_overrides host_cfg c).docker.host ≡ c.docker.host)
      × ((apply_docker_host_overrides host_cfg c).memory_limit ≡ c.memory_limit)
unfolding apply_docker_host_overrides
overrides_twice host_cfg c = (
  simp (
    or_keep_twice,
    apply_some_twice apply_filter_overrides filter_twice,
    apply_some_twice apply_aggregation_overrides aggregation_twice,
    apply_some_twice apply_ding_talk_overrides ding_talk_twice,
    apply_some_twice apply_storage_overrides (or_keep_twice {A = Bytes}),
  ),
  refl,
  refl,
  refl,
)
