-- ===== src/Docker/Watcher/Events/Started.antt =====
-- internal/docker/watcher.go: handleEvent on the start of a container.
use docker_monitor.Docker.Watcher.Streams.{Streams}
use docker_monitor.Prelude.Bytes.{Bytes}
