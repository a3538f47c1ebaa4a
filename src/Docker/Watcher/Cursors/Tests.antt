-- ===== src/Docker/Watcher/Cursors/Tests.antt =====
-- One container, with a cursor by its name from an earlier container.
use docker_monitor.Docker.Watcher.Cursors.{initial_log_since, record_log_timestamp}
use docker_monitor.Model.{ContainerInfo, Time}
use docker_monitor.Prelude.{[], refl, ◌∷◌, ◌≡◌}
use docker_monitor.Prelude.Assoc.{Assoc}
use docker_monitor.Prelude.Bytes.{str_eq, text}
use docker_monitor.Prelude.Int.{pos}

abbrev web : ContainerInfo
web = record { id = text "1"; name = text "web" }

abbrev earlier : Assoc Time
earlier = (text "name:web", 7) ∷ []

-- The cursor by the name is later than the start, and the time recorded later than both.
resumes_later : initial_log_since 5 (pos 2) web (record_log_timestamp web 9 earlier) ≡ 9
unfolding initial_log_since record_log_timestamp str_eq
resumes_later = refl
