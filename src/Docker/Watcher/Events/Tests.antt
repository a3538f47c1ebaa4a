-- ===== src/Docker/Watcher/Events/Tests.antt =====
-- A watcher of the container web, which runs as container 9 itself.
use docker_monitor.Docker.Watcher.Events.{EventMessage, Scope, handle_event}
use docker_monitor.Docker.Watcher.Events.Watched.{
  AllWatched, Reached, Reached-AllWatched, and_then, first_state, handled,
}
use docker_monitor.Docker.Watcher.Streams.{no_streams}
use docker_monitor.Prelude.{[], refl, some, ◌∷◌, ◌≡◌}
use docker_monitor.Prelude.Bytes.{str_eq, text}

abbrev web_only : Scope
web_only = record {
  match_path = λ p name. some (str_eq p name);
  include_patterns = text "web" ∷ [];
  ignored_id = text "9";
}

abbrev started_event : EventMessage
started_event = record { id = text "1"; actor_id = []; name = text "web"; action = text "start" }

abbrev own_event : EventMessage
own_event = record { id = text "9"; actor_id = []; name = text "web"; action = text "start" }

own_ignored : handle_event web_only own_event no_streams ≡ (no_streams, [])
unfolding handle_event
own_ignored = refl

after_events : Reached web_only (handle_event web_only started_event no_streams).0
after_events = and_then first_state (handled started_event refl)

Reached-AllWatched_example : AllWatched web_only (handle_event web_only started_event no_streams).0
Reached-AllWatched_example = Reached-AllWatched web_only after_events
