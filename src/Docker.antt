-- ===== src/Docker.antt =====
-- internal/docker: reading container logs, and watching containers come and go.
pub mod LineWriter
pub mod Demux
pub mod LogReader
pub mod Watcher
pub mod Ssh
pub mod OwnContainer
