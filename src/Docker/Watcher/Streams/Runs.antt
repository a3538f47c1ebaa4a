-- ===== src/Docker/Watcher/Streams/Runs.antt =====
-- internal/docker/watcher.go: sequences of operations on the tables.
use mathlib.Core.Path.{subst}
use docker_monitor.Docker.Watcher.Streams.{
  ActiveStream, Streams, activate, no_streams, remove_active, stop, stop_all, stop_each,
}
use docker_monitor.Docker.Watcher.Streams.Consistent.{
  IsConsistent, NoTakeover, activate-IsConsistent, remove_active-IsConsistent, stop-IsConsistent,
}
use docker_monitor.Docker.Watcher.Streams.Laws.{IsValid, drop_both-IsValid, holder, id_of}
use docker_monitor.Model.{ContainerInfo}
use docker_monitor.Prelude.{
  Option-cases, [], ap, arith, inl, inr, none, refl, some, sym, ◌∙◌, ◌∷◌, ◌≡◌,
}
use docker_monitor.Prelude.Assoc.{Assoc, delete, lookup}
use docker_monitor.Prelude.Bytes.{Bytes, str_eq_refl}

stop_each-active :
    (m : Assoc ActiveStream) (s : Streams) → s.active ≡ m → (stop_each m s).0.active ≡ []
unfolding stop_each delete
stop_each-active [] s e = e
stop_each-active ((name, stream) ∷ rest) s e =
    stop_each-active rest (record s { ids = delete stream.id s.ids; active = delete name s.active })
      (ap (delete name) e ∙ simp (str_eq_refl name))

stop_each-IsValid :
    (m : Assoc ActiveStream) (s : Streams) → s.active ≡ m → IsValid s → IsValid (stop_each m s).0
unfolding stop_each
stop_each-IsValid [] s e v = v
stop_each-IsValid ((name, stream) ∷ rest) s e v =
    let first : lookup name s.active ≡ some stream =
      ap (lookup name) e ∙ (unfold lookup in simp (str_eq_refl name)) in
    stop_each-IsValid rest
      (record s { ids = delete stream.id s.ids; active = delete name s.active })
      (ap (delete name) e ∙ (unfold delete in simp (str_eq_refl name)))
      (drop_both-IsValid s v name stream.id (ap id_of first))

-- One call of each of the operations. A container is activated that takes over no name.
pub data Step (s : Streams) : Streams → Type 0 where
  activated :
      {t : Streams} (info : ContainerInfo) → NoTakeover info s → t ≡ (activate info s).0 → Step s t
  stopped : {t : Streams} (id : Bytes) → t ≡ (stop id s).0 → Step s t
  removed : {t : Streams} (name id : Bytes) → t ≡ remove_active name id s → Step s t
  all_stopped : {t : Streams} → t ≡ (stop_all s).0 → Step s t

pub data Reach : Streams → Type 0 where
  start : Reach no_streams
  next : {s t : Streams} → Reach s → Step s t → Reach t

none_held : (s : Streams) → s.active ≡ [] → (name : Bytes) → holder name s ≡ none
unfolding lookup
none_held s e name = ap (λ m. id_of (lookup name m)) e

-- stopAll ends every stream, and empties both tables.
pub stop_all_complete :
    (s : Streams)
    → IsValid s
    → ((stop_all s).0.active ≡ [])
      × ((id : Bytes) → lookup id (stop_all s).0.ids ≡ none)
      × IsConsistent (stop_all s).0
unfolding stop_all
stop_all_complete s v =
    let empty = stop_each-active s.active s refl in
    let v' = stop_each-IsValid s.active s refl v in
    let t = (stop_each s.active s).0 in
    (
      empty,
      (λ id. elim (Option-cases (lookup id t.ids)) [
        | inl e ↦ e
        | inr (name, e) ↦ absurd (ground (arith, v'.tracked id name, none_held t empty name))
      ]),
      record { valid = v'; named = λ id name h. cc (h, none_held t empty name) },
    )

Step-IsConsistent : {s t : Streams} → Step s t → IsConsistent s → IsConsistent t
Step-IsConsistent {s} (activated info ok e) c =
    subst IsConsistent (sym e) (activate-IsConsistent info s c ok)
Step-IsConsistent {s} (stopped id e) c = subst IsConsistent (sym e) (stop-IsConsistent id s c)
Step-IsConsistent {s} (removed name id e) c =
    subst IsConsistent (sym e) (remove_active-IsConsistent name id s c)
Step-IsConsistent {s} (all_stopped e) c = subst IsConsistent (sym e) (stop_all_complete s c.valid).2

no_streams-IsConsistent : IsConsistent no_streams
unfolding lookup
no_streams-IsConsistent = record {
  valid = record { active_distinct = tt; ids_distinct = tt; tracked = λ id name h. cc };
  named = λ id name h. cc;
}

pub Reach-IsConsistent : {s : Streams} → Reach s → IsConsistent s
Reach-IsConsistent start = no_streams-IsConsistent
Reach-IsConsistent (next r st) = Step-IsConsistent st (Reach-IsConsistent r)
