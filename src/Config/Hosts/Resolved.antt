-- ===== src/Config/Hosts/Resolved.antt =====
-- internal/config/config.go: ResolveHosts as a whole.
use mathlib.Core.Path.{subst}
use docker_monitor.Config.{Config, DockerHostConfig, ResolvedHostConfig}
use docker_monitor.Config.Hosts.{
  Resolution, ResolveError, add_resolved, config_for, host_configs_or_default, refused,
  resolve_each, resolve_hosts, resolved,
}
use docker_monitor.Config.Platform.{Platform}
use docker_monitor.Config.Validate.{validate_resolved}
use docker_monitor.Prelude.{
  All, Bool-cases, List, Option-cases, [], any, ap, arith, count, false, if◌then◌else◌, inl, inr,
  map, none, refl, sym, true, ◌+◌, ◌↔◌, ◌∙◌, ◌∷◌, ◌≡◌, ◌≤◌,
}
use docker_monitor.Prelude.Bytes.{Bytes, str_eq, str_eq_iff, str_eq_refl}
use docker_monitor.Prelude.Bytes.Space.{trim_space}

-- No text occurs twice.
abbrev pub Once : List Bytes → Type 0
Once hosts = (x : Bytes) → count (λ h. str_eq h x) hosts ≤ 1

abbrev pub host_of : DockerHostConfig → Bytes
host_of entry = trim_space entry.host

module _ (go : Platform) (c : Config) where
  abbrev pub IsAccepted : DockerHostConfig → Type 0
  IsAccepted entry = validate_resolved go (config_for go c entry) ≡ none

  abbrev pub resolved_of : DockerHostConfig → ResolvedHostConfig
  resolved_of entry = record {
    host = host_of entry;
    config = config_for go c entry;
    debug = entry.debug;
  }

  -- The same with the hosts that have been seen already.
  abbrev OnceWith : List Bytes → List DockerHostConfig → Type 0
  OnceWith seen entries =
      (x : Bytes)
      → count (λ h. str_eq h x) (map host_of entries)
          + (if any (λ h. str_eq h x) seen then 1 else 0)
        ≤ 1

  add_resolved-eq :
      (r : ResolvedHostConfig) (x : Resolution) (rs : List ResolvedHostConfig)
      → add_resolved r x ≡ resolved rs
      → (qs : List ResolvedHostConfig) × (x ≡ resolved qs) × (rs ≡ r ∷ qs)
  add_resolved-eq r (resolved qs) rs h = (qs, refl, ground (arith, h))
  add_resolved-eq r (refused e) rs h = cc

  any_self : (seen : List Bytes) (h : Bytes) → any (λ k. str_eq k h) (h ∷ seen) ≡ true
  any_self seen h = ground (arith, str_eq_refl h)

  OnceWith-cons :
      (seen : List Bytes) (entry : DockerHostConfig) (entries : List DockerHostConfig)
      → any (λ h. str_eq h (host_of entry)) seen ≡ false
      → OnceWith (host_of entry ∷ seen) entries
      → OnceWith seen (entry ∷ entries)
  OnceWith-cons seen entry entries new_host once x = elim (Bool-cases (str_eq (host_of entry) x)) [
    | inl same ↦
        let unseen : any (λ h. str_eq h x) seen ≡ false =
          subst (λ y. any (λ h. str_eq h y) seen ≡ false) ((str_eq_iff (host_of entry) x).0 same)
            new_host in
        ground (arith, same, unseen, once x)
    | inr other ↦ ground (arith, other, once x)
  ]

  OnceWith-uncons :
      (seen : List Bytes) (entry : DockerHostConfig) (entries : List DockerHostConfig)
      → OnceWith seen (entry ∷ entries)
      → (any (λ h. str_eq h (host_of entry)) seen ≡ false) × OnceWith (host_of entry ∷ seen) entries
  OnceWith-uncons seen entry entries once = (
    ground (arith, once (host_of entry), str_eq_refl (host_of entry)),
    λ x. elim (Bool-cases (str_eq (host_of entry) x)) [
      | inl same ↦ ground (arith, same, once x)
      | inr other ↦ ground (arith, other, once x)
    ],
  )

  resolve_each-ok :
      (seen : List Bytes) (entries : List DockerHostConfig) (rs : List ResolvedHostConfig)
      → resolve_each go c seen entries ≡ resolved rs
      → (rs ≡ map resolved_of entries) × All IsAccepted entries × OnceWith seen entries
  unfolding resolve_each
  resolve_each-ok seen [] rs h = (ground (arith, h), tt, λ x. ground arith)
  resolve_each-ok seen (entry ∷ entries) rs h =
      elim (Bool-cases (any (λ k. str_eq k (host_of entry)) seen)) [
        | inl known ↦ absurd (refused-ne (rw (resolve_each, known) at h))
        | inr new_host ↦ elim (Option-cases (validate_resolved go (config_for go c entry))) [
          | inr (problem, bad) ↦ absurd (refused-ne (rw (resolve_each, new_host, bad) at h))
          | inl good ↦
              let (qs, e, same) =
                add_resolved-eq (resolved_of entry)
                  (resolve_each go c (host_of entry ∷ seen) entries) rs
                  (rw (resolve_each, new_host, good) at h) in
              let (tail, valid, once) = resolve_each-ok (host_of entry ∷ seen) entries qs e in
              (
                same ∙ ap (λ x. resolved_of entry ∷ x) tail,
                (good, valid),
                OnceWith-cons seen entry entries new_host once,
              )
        ]
      ]
    where
      refused-ne : {e : ResolveError} → refused e ≡ resolved rs → ⊥
      refused-ne p = cc

  resolve_each-All :
      (seen : List Bytes) (entries : List DockerHostConfig)
      → All IsAccepted entries
      → OnceWith seen entries
      → resolve_each go c seen entries ≡ resolved (map resolved_of entries)
  unfolding resolve_each
  resolve_each-All seen [] valid once = refl
  resolve_each-All seen (entry ∷ entries) valid once =
      let (new_host, rest) = OnceWith-uncons seen entry entries once in
      rw (resolve_each, new_host, valid.0)
        (ap (add_resolved (resolved_of entry))
          (resolve_each-All (host_of entry ∷ seen) entries valid.1 rest))

  abbrev pub listed : List DockerHostConfig
  listed = host_configs_or_default c.docker

  -- ResolveHosts returns the list `rs` exactly if `rs` is the configuration of every listed host, with
  -- its overrides and in the order of the list, the configuration of each is valid, and no host is
  -- listed twice; so it fails, and returns no shorter list, where one is invalid or listed twice.
  pub resolve_hosts_iff :
      (rs : List ResolvedHostConfig)
      → (resolve_hosts go c ≡ resolved rs)
        ↔ ((rs ≡ map resolved_of listed) × All IsAccepted listed × Once (map host_of listed))
  unfolding resolve_hosts
  resolve_hosts_iff rs = (
    λ h.
        let (same, valid, once) = resolve_each-ok [] listed rs h in
        (same, valid, λ x. ground (arith, once x)),
    λ h. resolve_each-All [] listed h.1 (λ x. ground (arith, h.2 x)) ∙ ap resolved (sym h.0),
  )

  -- Where ResolveHosts succeeds, every host's configuration is valid and no host occurs twice.
  pub resolve_hosts-valid :
      (rs : List ResolvedHostConfig)
      → resolve_hosts go c ≡ resolved rs
      → All (λ (r : ResolvedHostConfig). validate_resolved go r.config ≡ none) rs
        × Once (map (λ (r : ResolvedHostConfig). r.host) rs)
  unfolding resolve_hosts
  resolve_hosts-valid rs h =
      let (same, valid, once) = resolve_each-ok [] listed rs h in
      rw same (from_entries listed valid, λ x. ground (arith, once x, hosts_same listed))
    where
      from_entries :
          (es : List DockerHostConfig)
          → All IsAccepted es
          → All
              (λ (r : ResolvedHostConfig). validate_resolved go r.config ≡ none)
              (map resolved_of es)
      from_entries [] v = tt
      from_entries (e ∷ es) v = (v.0, from_entries es v.1)

      hosts_same :
          (es : List DockerHostConfig)
          → map (λ (r : ResolvedHostConfig). r.host) (map resolved_of es) ≡ map host_of es
      hosts_same [] = refl
      hosts_same (e ∷ es) = ap (λ x. host_of e ∷ x) (hosts_same es)
