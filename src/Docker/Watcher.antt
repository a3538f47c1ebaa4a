-- ===== src/Docker/Watcher.antt =====
-- internal/docker/watcher.go: the log streams of the watched containers.
pub mod Streams
pub mod Backoff
pub mod Cursors
pub mod Replay
pub mod Discovery
pub mod Events
pub mod Loop
pub mod Health
pub mod StreamRun
