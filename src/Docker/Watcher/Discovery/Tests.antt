-- ===== src/Docker/Watcher/Discovery/Tests.antt =====
-- A container that is replaced: of the others of its name, one has exited and the next is created.
use docker_monitor.Docker.Watcher.Discovery.{
  ContainerState, ContainerSummary, find_replacement_container,
}
use docker_monitor.Docker.Watcher.Discovery.Replaced.{CanReplace, IsFirst, find_replacement-IsFirst}
use docker_monitor.Model.{ContainerInfo}
use docker_monitor.Prelude.{
  All, List, Option, [], false, if◌then◌else◌, none, refl, some, ◌↔◌, ◌∷◌, ◌≡◌,
}
use docker_monitor.Prelude.Bytes.{Bytes, str_eq, text}

abbrev listing : List ContainerSummary
listing =
    record { id = text "1"; names = text "/web" ∷ [] }
    ∷ record { id = text "2"; names = text "/web" ∷ [] }
    ∷ record { id = text "3"; names = text "/db" ∷ text "/web" ∷ [] }
    ∷ []

abbrev ask_state : Bytes → Option ContainerState
ask_state id =
    if str_eq id (text "2")
    then some (record { status = text "exited"; running = false; restarting = false })
    else some (record { status = text " created"; running = false; restarting = false })

abbrev replaced : Option ContainerInfo
replaced = find_replacement_container (λ s. s) (some ask_state) listing (text "web") (text "1")

third_replaces : replaced ≡ some (record { id = text "3"; name = text "web" })
unfolding find_replacement_container
third_replaces = refl

find_replacement-IsFirst_example :
    ((i : ContainerInfo)
      → (replaced ≡ some i) ↔ IsFirst (λ s. s) (some ask_state) (text "web") (text "1") listing i)
    × ((replaced ≡ none)
        ↔ All (λ c. ¬ CanReplace (λ s. s) (some ask_state) (text "web") (text "1") c) listing)
find_replacement-IsFirst_example =
    find_replacement-IsFirst (λ s. s) (some ask_state) (text "web") (text "1") listing
