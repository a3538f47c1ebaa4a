-- ===== src/Config/Hosts.antt =====
-- internal/config/config.go: the hosts of a configuration, and ResolveHosts.
pub mod Resolved
use docker_monitor.Config.{Config, DockerConfig, DockerHostConfig, ResolvedHostConfig}
use docker_monitor.Config.Overrides.{apply_docker_host_overrides}
use docker_monitor.Config.Platform.{Platform}
use docker_monitor.Config.Validate.{Problem, validate_resolved}
use docker_monitor.Prelude.{List, [], any, false, if◌then◌else◌, map, none, some, ◌++◌, ◌||◌, ◌∷◌}
use docker_monitor.Prelude.Bytes.{Bytes, is_empty, str_eq, text}
use docker_monitor.Prelude.Bytes.Space.{trim_space}

-- hostDisplayName
pub host_display_name : Bytes → Bytes
unfolding trim_space is_empty
host_display_name host = if is_empty (trim_space host) then text "local" else host

-- A host entry that has a host only.
abbrev pub plain_host : Bytes → DockerHostConfig
plain_host host = record {
  host = host;
  include_patterns = none;
  since = none;
  filters = none;
  aggregation = none;
  ding_talk = none;
  storage = none;
  debug = false;
}

abbrev pub trim_host : DockerHostConfig → DockerHostConfig
trim_host entry = record entry { host = trim_space entry.host }

abbrev pub or_default_host : List DockerHostConfig → List DockerHostConfig
or_default_host [] = plain_host [] ∷ []
or_default_host (h ∷ hs) = h ∷ hs

-- HostConfigsOrDefault
unfoldable pub host_configs_or_default : DockerConfig → List DockerHostConfig
unfolding is_empty trim_space
host_configs_or_default c =
    let listed = map trim_host c.hosts in
    or_default_host (if is_empty c.host then listed else plain_host (trim_space c.host) ∷ listed)

-- The closure appendHost of HostsOrDefault, over the entries.
abbrev pub append_hosts : List DockerHostConfig → List Bytes → List Bytes
append_hosts [] hosts = hosts
append_hosts (entry ∷ entries) hosts =
    let host = trim_space entry.host in
    append_hosts entries
      (if is_empty host || any (λ h. str_eq h host) hosts then hosts else hosts ++ host ∷ [])

-- HostsOrDefault
unfoldable pub hosts_or_default : DockerConfig → List Bytes
unfolding host_configs_or_default trim_space is_empty str_eq
hosts_or_default c = elim (append_hosts (host_configs_or_default c) []) [
  | [] ↦ [] ∷ []
  | h ∷ hs ↦ h ∷ hs
]

-- The errors of ResolveHosts, with the name that is displayed.
pub data ResolveError : Type 0 where
  duplicate_host : Bytes → ResolveError
  invalid_host : Bytes → Problem → ResolveError

pub data Resolution : Type 0 where
  resolved : List ResolvedHostConfig → Resolution
  refused : ResolveError → Resolution

abbrev pub add_resolved : ResolvedHostConfig → Resolution → Resolution
add_resolved r (resolved rs) = resolved (r ∷ rs)
add_resolved r (refused e) = refused e

module _ (go : Platform) where
  -- The configuration of one host.
  unfoldable pub config_for : Config → DockerHostConfig → Config
  unfolding trim_space apply_docker_host_overrides
  config_for c entry =
      apply_docker_host_overrides entry
        (record c { docker = record c.docker { host = trim_space entry.host; hosts = [] } })

  -- The loop over the entries; `seen` has the hosts before.
  unfoldable pub resolve_each : Config → List Bytes → List DockerHostConfig → Resolution
  unfolding config_for validate_resolved host_display_name str_eq trim_space
  resolve_each c seen [] = resolved []
  resolve_each c seen (entry ∷ entries) =
      let host = trim_space entry.host in
      let rest = resolve_each c (host ∷ seen) entries in
      if any (λ h. str_eq h host) seen
      then refused (duplicate_host (host_display_name host))
      else elim (validate_resolved go (config_for c entry)) [
        | some problem ↦ refused (invalid_host (host_display_name host) problem)
        | none ↦
            add_resolved (record { host = host; config = config_for c entry; debug = entry.debug })
              rest
      ]

  -- ResolveHosts
  unfoldable pub resolve_hosts : Config → Resolution
  unfolding resolve_each host_configs_or_default
  resolve_hosts c = resolve_each c [] (host_configs_or_default c.docker)
