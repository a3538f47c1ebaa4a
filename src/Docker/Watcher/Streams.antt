-- ===== src/Docker/Watcher/Streams.antt =====
-- The tables of running log streams of internal/docker/watcher.go: by container name, and the name
-- by container id. A stream's context is a number; its cancel function is the effect that names it.
pub mod Laws
pub mod Consistent
pub mod Rename
pub mod Runs
mod Tests
use docker_monitor.Model.{ContainerInfo}
use docker_monitor.Prelude.{List, Option, [], if◌then◌else◌, none, some, ℕ, ◌++◌, ◌+◌, ◌∷◌}
use docker_monitor.Prelude.Assoc.{Assoc, delete, insert, lookup}
use docker_monitor.Prelude.Bytes.{Bytes, str_eq}

pub record ActiveStream : Type 0 where
  pub id : Bytes
  pub cancel : ℕ

pub record Streams : Type 0 where
  pub active : Assoc ActiveStream
  pub ids : Assoc Bytes
  -- the next context that context.WithCancel makes
  pub fresh : ℕ

pub data Effect : Type 0 where
  cancel_stream : ℕ → Effect
  start_stream : ContainerInfo → ℕ → Effect

-- `if previous, exists := w.active[previousName]; exists && previous.id == info.ID`
abbrev pub leave_name : Bytes → Bytes → Option ActiveStream → Streams → Streams × List Effect
leave_name name id none s = (s, [])
leave_name name id (some previous) s =
    if str_eq previous.id id
    then (record s { active = delete name s.active }, cancel_stream previous.cancel ∷ [])
    else (s, [])

-- The branch for a container that is known under another name.
abbrev pub move_name : ContainerInfo → Option Bytes → Streams → Streams × List Effect
move_name info none s = (s, [])
move_name info (some previous) s =
    if str_eq previous info.name
    then (s, [])
    else (let (s', out) = leave_name previous info.id (lookup previous s.active) s in
        (record s' { ids = delete info.id s'.ids }, out))

-- The end of activate: a new context, entered in both tables.
abbrev pub enter_stream : ContainerInfo → Streams → Streams
enter_stream info s = record {
  active = insert info.name (record { id = info.id; cancel = s.fresh }) s.active;
  ids = insert info.id info.name s.ids;
  fresh = s.fresh + 1;
}

abbrev pub activate_found : ContainerInfo → Option ActiveStream → Streams → Streams × List Effect
activate_found info (some current) s = if str_eq current.id info.id then (s, []) else (
  enter_stream info (record s { ids = delete current.id s.ids }),
  cancel_stream current.cancel ∷ start_stream info s.fresh ∷ [],
)
activate_found info none s =
    let (s', out) = move_name info (lookup info.id s.ids) s in
    (enter_stream info s', out ++ start_stream info s.fresh ∷ [])

-- activate, with what maybeStart does with its results: the previous stream is cancelled, and a
-- goroutine for the new one is started.
unfoldable pub activate : ContainerInfo → Streams → Streams × List Effect
unfolding lookup insert delete
activate info s = activate_found info (lookup info.name s.active) s

abbrev pub stop_found : Bytes → Bytes → Option ActiveStream → Streams → Streams × List Effect
stop_found id name none s = (record s { ids = delete id s.ids }, [])
stop_found id name (some stream) s =
    if str_eq stream.id id
    then (
      record s { active = delete name s.active; ids = delete id s.ids },
      cancel_stream stream.cancel ∷ [],
    )
    else (record s { ids = delete id s.ids }, [])

abbrev pub stop_named : Bytes → Option Bytes → Streams → Streams × List Effect
stop_named id none s = (s, [])
stop_named id (some name) s = stop_found id name (lookup name s.active) s

-- stop
unfoldable pub stop : Bytes → Streams → Streams × List Effect
unfolding lookup delete
stop id s = stop_named id (lookup id s.ids) s

abbrev pub remove_found : Bytes → Bytes → Option ActiveStream → Streams → Streams
remove_found name id none s = s
remove_found name id (some stream) s =
    if str_eq stream.id id
    then record s { active = delete name s.active; ids = delete id s.ids }
    else s

-- removeActive
unfoldable pub remove_active : Bytes → Bytes → Streams → Streams
unfolding lookup delete
remove_active name id s = remove_found name id (lookup name s.active) s

-- The loop of stopAll.
unfoldable pub stop_each : Assoc ActiveStream → Streams → Streams × List Effect
stop_each [] s = (s, [])
stop_each ((name, stream) ∷ rest) s =
    let (s', out) =
      stop_each rest (record s { ids = delete stream.id s.ids; active = delete name s.active }) in
    (s', cancel_stream stream.cancel ∷ out)

unfoldable pub stop_all : Streams → Streams × List Effect
unfolding stop_each delete
stop_all s = stop_each s.active s

abbrev pub no_streams : Streams
no_streams = record { active = []; ids = []; fresh = 0 }
