-- ===== src/Docker/Watcher/Events/Watched.antt =====
-- internal/docker/watcher.go: which containers have streams.
use mathlib.Core.Path.{subst}
use docker_monitor.Docker.Watcher.Discovery.{
  ContainerSummary, match_any, select_container, select_name, trim_slash,
}
use docker_monitor.Docker.Watcher.Events.{
  EventMessage, Scope, event_container_id, handle_event, is_one_of, maybe_start, should_ignore,
  start_selected, starting, stopping, sync_containers,
}
use docker_monitor.Docker.Watcher.Streams.{
  ActiveStream, Effect, Streams, activate, activate_found, enter_stream, leave_name, move_name,
  no_streams, remove_active, remove_found, stop, stop_all, stop_each, stop_found, stop_named,
}
use docker_monitor.Model.{ContainerInfo}
use docker_monitor.Prelude.{
  All, Bool, Bool-cases, List, Option, [], arith, false, if◌then◌else◌, inl, inr, none, not, refl,
  some, sym, true, ◌||◌, ◌∷◌, ◌≡◌,
}
use docker_monitor.Prelude.Assoc.{Assoc, delete, lookup}
use docker_monitor.Prelude.Assoc.Entries.{All-delete, All-insert}
use docker_monitor.Prelude.Bytes.{Bytes, is_empty, str_eq, text}
use docker_monitor.Prelude.Bytes.Space.{trim_space}

module _ (w : Scope) where
  -- The name is matched by a pattern; the id is not blank, and not the monitor's own.
  abbrev pub IsWatched : Bytes × ActiveStream → Type 0
  IsWatched (name, stream) =
      (match_any w.match_path name w.include_patterns ≡ true)
      × (is_empty (trim_space stream.id) ≡ false)
      × (str_eq (trim_space stream.id) w.ignored_id ≡ false)

  abbrev pub AllWatched : Streams → Type 0
  AllWatched s = All IsWatched s.active

  abbrev pub InfoWatched : ContainerInfo → Type 0
  InfoWatched info =
      (match_any w.match_path info.name w.include_patterns ≡ true)
      × (is_empty (trim_space info.id) ≡ false)
      × (str_eq (trim_space info.id) w.ignored_id ≡ false)

  enter-AllWatched :
      (info : ContainerInfo) (s : Streams)
      → InfoWatched info
      → AllWatched s
      → AllWatched (enter_stream info s)
  enter-AllWatched info s i h = All-insert IsWatched info.name _ s.active i h

  leave-AllWatched :
      (name id : Bytes) (o : Option ActiveStream) (s : Streams)
      → AllWatched s
      → AllWatched (leave_name name id o s).0
  leave-AllWatched name id none s h = h
  leave-AllWatched name id (some previous) s h = elim (Bool-cases (str_eq previous.id id)) [
    | inl same ↦ rw same (All-delete IsWatched name s.active h)
    | inr other ↦ rw other h
  ]

  move-AllWatched :
      (info : ContainerInfo) (o : Option Bytes) (s : Streams)
      → AllWatched s
      → AllWatched (move_name info o s).0
  move-AllWatched info none s h = h
  move-AllWatched info (some previous) s h = elim (Bool-cases (str_eq previous info.name)) [
    | inl same ↦ rw same h
    | inr other ↦ rw other (leave-AllWatched previous info.id (lookup previous s.active) s h)
  ]

  activate_found-AllWatched :
      (info : ContainerInfo) (o : Option ActiveStream) (s : Streams)
      → InfoWatched info
      → AllWatched s
      → AllWatched (activate_found info o s).0
  activate_found-AllWatched info none s i h =
      enter-AllWatched info (move_name info (lookup info.id s.ids) s).0 i
        (move-AllWatched info (lookup info.id s.ids) s h)
  activate_found-AllWatched info (some current) s i h =
      elim (Bool-cases (str_eq current.id info.id)) [
        | inl same ↦ rw same h
        | inr other ↦
            rw other (enter-AllWatched info (record s { ids = delete current.id s.ids }) i h)
      ]

  stop_found-AllWatched :
      (id name : Bytes) (o : Option ActiveStream) (s : Streams)
      → AllWatched s
      → AllWatched (stop_found id name o s).0
  stop_found-AllWatched id name none s h = h
  stop_found-AllWatched id name (some stream) s h = elim (Bool-cases (str_eq stream.id id)) [
    | inl same ↦ rw same (All-delete IsWatched name s.active h)
    | inr other ↦ rw other h
  ]

  stop-AllWatched : (id : Bytes) (s : Streams) → AllWatched s → AllWatched (stop id s).0
  unfolding stop
  stop-AllWatched id s h = go (lookup id s.ids)
    where
      go : (o : Option Bytes) → AllWatched (stop_named id o s).0
      go none = h
      go (some name) = stop_found-AllWatched id name (lookup name s.active) s h

  remove-AllWatched :
      (name id : Bytes) (s : Streams) → AllWatched s → AllWatched (remove_active name id s)
  unfolding remove_active
  remove-AllWatched name id s h = go (lookup name s.active)
    where
      go : (o : Option ActiveStream) → AllWatched (remove_found name id o s)
      go none = h
      go (some stream) = elim (Bool-cases (str_eq stream.id id)) [
        | inl same ↦ rw same (All-delete IsWatched name s.active h)
        | inr other ↦ rw other h
      ]

  stop_each-AllWatched :
      (m : Assoc ActiveStream) (s : Streams) → AllWatched s → AllWatched (stop_each m s).0
  unfolding stop_each
  stop_each-AllWatched [] s h = h
  stop_each-AllWatched ((name, stream) ∷ rest) s h =
      stop_each-AllWatched rest
        (record s { ids = delete stream.id s.ids; active = delete name s.active })
        (All-delete IsWatched name s.active h)

  select-matches :
      (id : Bytes) (names : List Bytes) (info : ContainerInfo)
      → select_name w.match_path id names w.include_patterns ≡ some info
      → match_any w.match_path info.name w.include_patterns ≡ true
  select-matches id [] info h = cc
  select-matches id (n ∷ ns) info h =
      elim (Bool-cases (match_any w.match_path (trim_slash n) w.include_patterns)) [
        | inl yes_match ↦
            let same : (record { id = id; name = trim_slash n }) ≡ info =
              ground (arith, yes_match, h) in
            rw (← same) yes_match
        | inr no_match ↦ select-matches id ns info (rw no_match at h)
      ]

  maybe_start-AllWatched :
      (summary : ContainerSummary) (s : Streams)
      → AllWatched s
      → AllWatched (maybe_start w summary s).0
  unfolding maybe_start activate select_container should_ignore
  maybe_start-AllWatched summary s h =
      go (select_name w.match_path summary.id summary.names w.include_patterns) refl
    where
      go :
          (o : Option ContainerInfo)
          → select_name w.match_path summary.id summary.names w.include_patterns ≡ o
          → AllWatched (start_selected w o s).0
      go none e = h
      go (some info) e =
          elim (Bool-cases (is_empty (trim_space info.id) || should_ignore w info.id)) [
            | inl out ↦ rw out h
            | inr watched ↦ rw watched (
                activate_found-AllWatched info (lookup info.name s.active) s
                  (
                    select-matches summary.id summary.names info e,
                    ground (arith, watched),
                    ground (arith, watched),
                  )
                  h)
          ]

  sync-AllWatched :
      (cs : List ContainerSummary) (s : Streams)
      → AllWatched s
      → AllWatched (sync_containers w cs s).0
  unfolding sync_containers
  sync-AllWatched [] s h = h
  sync-AllWatched (c ∷ cs) s h =
      sync-AllWatched cs (maybe_start w c s).0 (maybe_start-AllWatched c s h)

  handle_event-AllWatched :
      (msg : EventMessage) (s : Streams) → AllWatched s → AllWatched (handle_event w msg s).0
  unfolding handle_event
  handle_event-AllWatched msg s h =
      let id = event_container_id msg in
      let name = trim_slash msg.name in
      let summary : ContainerSummary = record { id = id; names = name ∷ [] } in
      five_ways (stop id s) (maybe_start w summary s) (should_ignore w id)
        (is_empty name || not (match_any w.match_path name w.include_patterns))
        (is_one_of msg.action (text "rename" ∷ stopping)) (is_one_of msg.action starting)
        (is_one_of msg.action stopping) (stop-AllWatched id s h)
        (maybe_start-AllWatched summary s h)
    where
      five_ways :
          (stopped started : Streams × List Effect) (a b c d e : Bool)
          → AllWatched stopped.0
          → AllWatched started.0
          → AllWatched
              (if a
                then (s, [])
                else if b
                then (if c then stopped else (s, []))
                else if d
                then started
                else if e
                then stopped
                else (s, [])).0
      five_ways p q true b c d e hs ht = h
      five_ways p q false true true d e hs ht = hs
      five_ways p q false true false d e hs ht = h
      five_ways p q false false c true e hs ht = ht
      five_ways p q false false c false true hs ht = hs
      five_ways p q false false c false false hs ht = h

  -- What happens to the tables: a listing is synchronised, an event is handled, the container that
  -- replaces one whose stream has ended is started, a stream's goroutine ends, the watcher stops.
  pub data Happens (s : Streams) : Streams → Type 0 where
    synced :
        {t : Streams} (cs : List ContainerSummary) → t ≡ (sync_containers w cs s).0 → Happens s t
    handled : {t : Streams} (msg : EventMessage) → t ≡ (handle_event w msg s).0 → Happens s t
    replaced : {t : Streams} (c : ContainerSummary) → t ≡ (maybe_start w c s).0 → Happens s t
    left : {t : Streams} (name id : Bytes) → t ≡ remove_active name id s → Happens s t
    shut_down : {t : Streams} → t ≡ (stop_all s).0 → Happens s t

  pub data Reached : Streams → Type 0 where
    first_state : Reached no_streams
    and_then : {s t : Streams} → Reached s → Happens s t → Reached t

  Happens-AllWatched : {s t : Streams} → Happens s t → AllWatched s → AllWatched t
  Happens-AllWatched {s} (synced cs e) h = subst AllWatched (sym e) (sync-AllWatched cs s h)
  Happens-AllWatched {s} (handled msg e) h =
      subst AllWatched (sym e) (handle_event-AllWatched msg s h)
  Happens-AllWatched {s} (replaced c e) h = subst AllWatched (sym e) (maybe_start-AllWatched c s h)
  Happens-AllWatched {s} (left name id e) h =
      subst AllWatched (sym e) (remove-AllWatched name id s h)
  Happens-AllWatched {s} (shut_down e) h =
      subst AllWatched (sym e) (unfold stop_all in stop_each-AllWatched s.active s h)

  -- In every state that listings, events, replacements and ending streams lead to, a stream's
  -- container has a name that a pattern matches and an id that is neither blank nor the monitor's own.
  pub Reached-AllWatched : {s : Streams} → Reached s → AllWatched s
  Reached-AllWatched first_state = tt
  Reached-AllWatched (and_then r st) = Happens-AllWatched st (Reached-AllWatched r)
