-- ===== src/Store/DingTalk/Text/Hosts.antt =====
-- internal/store/dingtalk_store.go: the hosts of a batch.
use mathlib.Core.Path.{subst}
use docker_monitor.Model.{LogBatch}
use docker_monitor.Prelude.{
  Bool, Bool-cases, List, Option, [], any, arith, count, count-append, false, if◌then◌else◌, inl,
  inr, none, refl, some, true, ◌++◌, ◌||◌, ◌∷◌, ◌≡◌,
}
use docker_monitor.Prelude.Bytes.{Bytes, str_eq, str_eq_iff}
use docker_monitor.Store.DingTalk.Text.{
  add_host, extract_docker_hosts, host_of_container, hosts_from,
}

abbrev pub is_host : Bytes → Option Bytes → Bool
is_host host none = false
is_host host (some h) = str_eq h host

abbrev has_host : Bytes → List Bytes → Bool
has_host host = any (λ h. str_eq h host)

-- Each host is in the list once, or not at all.
abbrev AllOnce : List Bytes → Type 0
AllOnce hosts =
    (host : Bytes) → count (λ h. str_eq h host) hosts ≡ (if has_host host hosts then 1 else 0)

has_host-append :
    (hosts : List Bytes) (h host : Bytes)
    → has_host host (hosts ++ h ∷ []) ≡ (has_host host hosts || str_eq h host)
has_host-append [] h host = ground arith
has_host-append (k ∷ hosts) h host = ground (arith, has_host-append hosts h host)

has_host-add_host :
    (o : Option Bytes) (hosts : List Bytes) (host : Bytes)
    → has_host host (add_host o hosts) ≡ (has_host host hosts || is_host host o)
has_host-add_host none hosts host = ground arith
has_host-add_host (some h) hosts host = elim (Bool-cases (has_host h hosts)) [
  | inl known ↦ rw known (elim (Bool-cases (str_eq h host)) [
    | inl same ↦
        let seen : has_host host hosts ≡ true =
          subst (λ y. has_host y hosts ≡ true) ((str_eq_iff h host).0 same) known in
        ground (arith, same, seen)
    | inr other ↦ ground (arith, other)
  ])
  | inr new_host ↦ rw new_host (has_host-append hosts h host)
]

add_host-AllOnce :
    (o : Option Bytes) (hosts : List Bytes) → AllOnce hosts → AllOnce (add_host o hosts)
add_host-AllOnce none hosts once host = once host
add_host-AllOnce (some h) hosts once host = elim (Bool-cases (has_host h hosts)) [
  | inl known ↦ rw known (once host)
  | inr new_host ↦
      let split = count-append (λ k. str_eq k host) hosts (h ∷ []) in
      rw new_host (elim (Bool-cases (str_eq h host)) [
        | inl same ↦
            let unseen : has_host host hosts ≡ false =
              subst (λ y. has_host y hosts ≡ false) ((str_eq_iff h host).0 same) new_host in
            ground (arith, same, unseen, once host, split, has_host-append hosts h host)
        | inr other ↦ ground (arith, other, once host, split, has_host-append hosts h host)
      ])
]

hosts_from-count :
    (names hosts : List Bytes) (host : Bytes)
    → AllOnce hosts
    → count (λ h. str_eq h host) (hosts_from hosts names) ≡ (
        if has_host host hosts || any (λ name. is_host host (host_of_container name)) names
        then 1
        else 0)
unfolding hosts_from
hosts_from-count [] hosts host once = ground (arith, once host)
hosts_from-count (name ∷ names) hosts host once = ground (
  arith,
  hosts_from-count names (add_host (host_of_container name) hosts) host
      (add_host-AllOnce (host_of_container name) hosts once),
  has_host-add_host (host_of_container name) hosts host,
)

-- A host stands among the hosts of a batch exactly once where a container of the batch names it before
-- its first slash, and not at all where none does.
pub extract_docker_hosts-count :
    (batch : LogBatch) (host : Bytes)
    → count (λ h. str_eq h host) (extract_docker_hosts batch)
      ≡ (if any (λ name. is_host host (host_of_container name)) batch.containers then 1 else 0)
unfolding extract_docker_hosts
extract_docker_hosts-count batch host = hosts_from-count batch.containers [] host (λ y. refl)
