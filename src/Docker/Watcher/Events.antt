-- ===== src/Docker/Watcher/Events.antt =====
-- internal/docker/watcher.go: handleEvent, maybeStart and syncContainers on the stream tables.
pub mod Watched
mod Started
mod Tests
use docker_monitor.Docker.Watcher.Discovery.{
  ContainerSummary, match_any, select_container, trim_slash,
}
use docker_monitor.Docker.Watcher.Streams.{Effect, Streams, activate, stop}
use docker_monitor.Model.{ContainerInfo}
use docker_monitor.Prelude.{
  Bool, List, Option, [], any, if◌then◌else◌, none, not, some, ◌&&◌, ◌++◌, ◌||◌, ◌∷◌,
}
use docker_monitor.Prelude.Bytes.{Bytes, is_empty, str_eq, text}
use docker_monitor.Prelude.Bytes.Space.{trim_space}

-- An event, as far as it is read; `name` is the attribute, empty where there is none.
pub record EventMessage : Type 0 where
  pub id : Bytes
  pub actor_id : Bytes
  pub name : Bytes
  pub action : Bytes

-- eventContainerID
unfoldable pub event_container_id : EventMessage → Bytes
unfolding trim_space is_empty
event_container_id msg = if is_empty (trim_space msg.id) then trim_space msg.actor_id else msg.id

abbrev pub is_one_of : Bytes → List Bytes → Bool
is_one_of s = any (str_eq s)

-- The actions on which a container is watched from now on, and those on which it no longer is.
abbrev pub starting : List Bytes
starting = text "start" ∷ text "restart" ∷ text "unpause" ∷ text "rename" ∷ []

abbrev pub stopping : List Bytes
stopping = text "die" ∷ text "stop" ∷ text "destroy" ∷ []

-- The fields of the watcher that say what is watched; `match_path` is filepath.Match.
pub record Scope : Type 0 where
  pub match_path : Bytes → Bytes → Option Bool
  pub include_patterns : List Bytes
  pub ignored_id : Bytes

module _ (w : Scope) where
  -- shouldIgnore
  unfoldable pub should_ignore : Bytes → Bool
  unfolding trim_space is_empty str_eq
  should_ignore container_id =
      not (is_empty (trim_space container_id)) && str_eq (trim_space container_id) w.ignored_id

  abbrev pub start_selected : Option ContainerInfo → Streams → Streams × List Effect
  start_selected none s = (s, [])
  start_selected (some info) s =
      if is_empty (trim_space info.id) || should_ignore info.id then (s, []) else activate info s

  -- maybeStart
  unfoldable pub maybe_start : ContainerSummary → Streams → Streams × List Effect
  unfolding select_container should_ignore activate trim_space is_empty
  maybe_start summary s =
      start_selected (select_container w.match_path summary w.include_patterns) s

  -- syncContainers, on the containers that ContainerList returns.
  unfoldable pub sync_containers : List ContainerSummary → Streams → Streams × List Effect
  unfolding maybe_start
  sync_containers [] s = (s, [])
  sync_containers (c ∷ cs) s =
      let (s', out) = maybe_start c s in
      let (s'', more) = sync_containers cs s' in (s'', out ++ more)

  -- handleEvent
  unfoldable pub handle_event : EventMessage → Streams → Streams × List Effect
  unfolding event_container_id should_ignore maybe_start stop match_any str_eq is_empty
  handle_event msg s =
      let name = trim_slash msg.name in
      let id = event_container_id msg in
      if should_ignore id
      then (s, [])
      else if is_empty name || not (match_any w.match_path name w.include_patterns)
      then (if is_one_of msg.action (text "rename" ∷ stopping) then stop id s else (s, []))
      else if is_one_of msg.action starting
      then maybe_start (record { id = id; names = name ∷ [] }) s
      else if is_one_of msg.action stopping
      then stop id s
      else (s, [])
