-- ===== src/Docker/Watcher/Cursors.antt =====
-- internal/docker/watcher.go: the times up to which the logs of a container have been read, kept by
-- id and by name.
pub mod Resume
mod Tests
use docker_monitor.Aggregator.{keys}
use docker_monitor.Model.{ContainerInfo, Time}
use docker_monitor.Prelude.{List, [], if◌then◌else◌, ltb, none, some, ◌++◌, ◌-◌, ◌==◌, ◌||◌, ◌∷◌}
use docker_monitor.Prelude.Assoc.{Assoc, insert, lookup}
use docker_monitor.Prelude.Bytes.{Bytes, is_empty, text}
use docker_monitor.Prelude.Bytes.Space.{trim_space}
use docker_monitor.Prelude.Int.{clamp_zero, is_nonpositive, ℤ}

-- cursorKeys
abbrev pub key_of : Bytes → Bytes → List Bytes
key_of tag s = let t = trim_space s in if is_empty t then [] else (tag ++ t) ∷ []

unfoldable pub cursor_keys : ContainerInfo → List Bytes
unfolding trim_space is_empty
cursor_keys info = key_of (text "id:") info.id ++ key_of (text "name:") info.name

-- w.cursors[key], the zero time where there is none
abbrev pub cursor : Bytes → Assoc Time → Time
cursor key cursors = elim (lookup key cursors) [ none ↦ 0 | some ts ↦ ts ]

abbrev pub latest : List Bytes → Assoc Time → Time → Time
latest [] cursors since = since
latest (key ∷ keys) cursors since =
    latest keys cursors (let ts = cursor key cursors in if ltb since ts then ts else since)

-- initialLogSince. A start before the zero time is read as the zero time.
pub initial_log_since : Time → ℤ → ContainerInfo → Assoc Time → Time
unfolding cursor_keys lookup
initial_log_since started_at initial_since info cursors =
    latest (cursor_keys info) cursors
      (if is_nonpositive initial_since then started_at else started_at - clamp_zero initial_since)

abbrev pub advance : List Bytes → Time → Assoc Time → Assoc Time
advance [] timestamp cursors = cursors
advance (key ∷ keys) timestamp cursors = advance keys timestamp (
    let previous = cursor key cursors in
    if previous == 0 || ltb previous timestamp then insert key timestamp cursors else cursors)

-- recordLogTimestamp
unfoldable pub record_log_timestamp : ContainerInfo → Time → Assoc Time → Assoc Time
unfolding cursor_keys lookup insert
record_log_timestamp info timestamp cursors =
    if timestamp == 0 then cursors else advance (cursor_keys info) timestamp cursors
