-- ===== src/Docker/Watcher/Streams/Tests.antt =====
-- Two containers, and the rename that gives one of them two streams.
use mathlib.Core.Path.{subst}
use docker_monitor.Docker.Watcher.Streams.{Streams, activate, no_streams, stop}
use docker_monitor.Docker.Watcher.Streams.Consistent.{NoTakeover}
use docker_monitor.Docker.Watcher.Streams.Laws.{IsValid, holder}
use docker_monitor.Docker.Watcher.Streams.Rename.{activate_takeover}
use docker_monitor.Docker.Watcher.Streams.Runs.{Reach, Reach-IsConsistent, activated, next, start}
use docker_monitor.Model.{ContainerInfo}
use docker_monitor.Prelude.{[], refl, some, ◌∷◌, ◌≡◌}
use docker_monitor.Prelude.Assoc.{lookup}
use docker_monitor.Prelude.Bytes.{str_eq, str_ne, text}

abbrev web : ContainerInfo
web = record { id = text "1"; name = text "web" }

abbrev job : ContainerInfo
job = record { id = text "2"; name = text "job" }

-- Container 2 under the name of container 1.
abbrev job_as_web : ContainerInfo
job_as_web = record { id = text "2"; name = text "web" }

abbrev both : Streams
both = record {
  active =
      (text "web", record { id = text "1"; cancel = 0 })
      ∷ (text "job", record { id = text "2"; cancel = 1 })
      ∷ [];
  ids = (text "1", text "web") ∷ (text "2", text "job") ∷ [];
  fresh = 2;
}

both_started : (activate job (activate web no_streams).0).0 ≡ both
unfolding activate str_eq
both_started = refl

abbrev one : Streams
one = (activate web no_streams).0

one-Reach : Reach one
one-Reach = next start (activated web (λ x h ne. unfold lookup in refl) refl)

new_name : NoTakeover job one
new_name x h ne = unfold activate str_eq in refl

both-Reach : Reach (activate job one).0
both-Reach = next one-Reach (activated job new_name refl)

both-IsValid : IsValid both
both-IsValid = subst IsValid both_started (Reach-IsConsistent both-Reach).valid

activate_takeover_example :
    (holder (text "web") (activate job_as_web both).0 ≡ some (text "2"))
    × (holder (text "job") (activate job_as_web both).0 ≡ some (text "2"))
    × (holder (text "job") (stop (text "2") (activate job_as_web both).0).0 ≡ some (text "2"))
unfolding lookup str_eq
activate_takeover_example =
    activate_takeover job_as_web both (text "1") (text "job") both-IsValid refl
      (str_ne (text "1") (text "2") refl) refl (str_ne (text "job") (text "web") refl)
