-- ===== src/Docker/Watcher/Streams/Laws.antt =====
-- internal/docker/watcher.go: the agreement of the tables active and ids.
use docker_monitor.Docker.Watcher.Streams.{
  ActiveStream, Streams, activate, enter_stream, leave_name, move_name, remove_active, remove_found,
  stop, stop_named,
}
use docker_monitor.Model.{ContainerInfo}
use docker_monitor.Prelude.{
  Bool-cases, Option, Option-cases, ap, arith, inl, inr, none, refl, some, ◌≡◌,
}
use docker_monitor.Prelude.Assoc.{Distinct, delete, lookup}
use docker_monitor.Prelude.Assoc.Laws.{
  Distinct-delete, Distinct-insert, lookup-delete, lookup-insert,
}
use docker_monitor.Prelude.Bytes.{Bytes, str_eq, str_eq_iff}

abbrev pub id_of : Option ActiveStream → Option Bytes
id_of none = none
id_of (some stream) = some stream.id

-- The id of the container whose stream runs under a name.
abbrev pub holder : Bytes → Streams → Option Bytes
holder name s = id_of (lookup name s.active)

-- What holds between any two operations: an id leads to a stream of that id.
pub record IsValid (s : Streams) : Type 0 where
  pub active_distinct : Distinct s.active
  pub ids_distinct : Distinct s.ids
  pub tracked : (id name : Bytes) → lookup id s.ids ≡ some name → holder name s ≡ some id

-- The other direction: every stream is found by the id of its container.
abbrev pub Named : Streams → Type 0
Named s = (id name : Bytes) → holder name s ≡ some id → lookup id s.ids ≡ some name

module _ (s : Streams) (v : IsValid s) where
  pub drop_both-IsValid :
      (name id : Bytes)
      → holder name s ≡ some id
      → IsValid (record s { active = delete name s.active; ids = delete id s.ids })
  drop_both-IsValid name id held = record {
    active_distinct = Distinct-delete name s.active v.active_distinct;
    ids_distinct = Distinct-delete id s.ids v.ids_distinct;
    tracked = λ i n h. ground (
      arith,
      lookup-delete id i s.ids v.ids_distinct,
      lookup-delete name n s.active v.active_distinct,
      str_eq_iff id i,
      str_eq_iff name n,
      v.tracked i n,
      held,
      h,
    );
  }

  drop_id-IsValid : (id : Bytes) → IsValid (record s { ids = delete id s.ids })
  drop_id-IsValid id = record {
    active_distinct = v.active_distinct;
    ids_distinct = Distinct-delete id s.ids v.ids_distinct;
    tracked = λ i n h.
        ground (arith, lookup-delete id i s.ids v.ids_distinct, str_eq_iff id i, v.tracked i n, h);
  }

  -- A name may be taken by a new id, once no other id leads to it.
  enter-IsValid :
      (info : ContainerInfo)
      → ((i : Bytes) → lookup i s.ids ≡ some info.name → i ≡ info.id)
      → IsValid (enter_stream info s)
  enter-IsValid info free = record {
    active_distinct = Distinct-insert info.name _ s.active v.active_distinct;
    ids_distinct = Distinct-insert info.id info.name s.ids v.ids_distinct;
    tracked = λ i n h. ground (
      arith,
      lookup-insert info.id i info.name s.ids,
      lookup-insert info.name n (record { id = info.id; cancel = s.fresh }) s.active,
      str_eq_iff info.id i,
      str_eq_iff info.name n,
      v.tracked i n,
      free i,
      h,
    );
  }

pub stop-IsValid : (id : Bytes) (s : Streams) → IsValid s → IsValid (stop id s).0
unfolding stop
stop-IsValid id s v = elim (Option-cases (lookup id s.ids)) [
  | inl unknown ↦ rw (unknown, stop_named) v
  | inr (name, known) ↦ elim (Option-cases (lookup name s.active)) [
    | inl gone ↦ absurd (ground (arith, v.tracked id name))
    | inr (stream, found) ↦ elim (Bool-cases (str_eq stream.id id)) [
      | inl same ↦ rw (known, found, same) (drop_both-IsValid s v name id (v.tracked id name known))
      | inr other ↦ rw (known, found, other) (drop_id-IsValid s v id)
    ]
  ]
]

pub remove_active-IsValid :
    (name id : Bytes) (s : Streams) → IsValid s → IsValid (remove_active name id s)
unfolding remove_active
remove_active-IsValid name id s v = elim (Option-cases (lookup name s.active)) [
  | inl gone ↦ rw (gone, remove_found) v
  | inr (stream, found) ↦ elim (Bool-cases (str_eq stream.id id)) [
    | inl same ↦
        rw (found, same)
          (drop_both-IsValid s v name id (ground (arith, found, str_eq_iff stream.id id)))
    | inr other ↦ rw (found, other) v
  ]
]

module _ (info : ContainerInfo) (s : Streams) (v : IsValid s) where
  -- Another container's stream runs under the name: it is replaced.
  replace-IsValid :
      (current : Bytes)
      → holder info.name s ≡ some current
      → IsValid (enter_stream info (record s { ids = delete current s.ids }))
  replace-IsValid current held =
      enter-IsValid (record s { ids = delete current s.ids }) (drop_id-IsValid s v current) info
        λ i h. ground (
          arith,
          lookup-delete current i s.ids v.ids_distinct,
          str_eq_iff current i,
          v.tracked i info.name,
          h,
          held,
        )

  -- No stream runs under the name, whatever becomes of the stream under the old name.
  moved-IsValid :
      (o : Option Bytes)
      → lookup info.id s.ids ≡ o
      → holder info.name s ≡ none
      → IsValid (enter_stream info (move_name info o s).0)
  moved-IsValid none e free =
      enter-IsValid s v info λ i h. ground (arith, v.tracked i info.name, h, free)
  moved-IsValid (some previous) e free = elim (Bool-cases (str_eq previous info.name)) [
    | inl same ↦
        rw same (enter-IsValid s v info λ i h. ground (arith, v.tracked i info.name, h, free))
    | inr other ↦ rw other (left (lookup previous s.active) refl)
  ]
    where
      left :
          (x : Option ActiveStream)
          → lookup previous s.active ≡ x
          → IsValid (
              enter_stream info (record (leave_name previous info.id x s).0 {
                ids = delete info.id (leave_name previous info.id x s).0.ids;
              }))
      left none e' =
          enter-IsValid (record s { ids = delete info.id s.ids }) (drop_id-IsValid s v info.id) info
            λ i h.
              ground (
                arith,
                lookup-delete info.id i s.ids v.ids_distinct,
                v.tracked i info.name,
                h,
                free,
              )
      left (some stream) e' = elim (Bool-cases (str_eq stream.id info.id)) [
        | inl mine ↦ rw mine (
            enter-IsValid _ (drop_both-IsValid s v previous info.id (v.tracked info.id previous e))
              info
              λ i h. ground (
                arith,
                lookup-delete info.id i s.ids v.ids_distinct,
                v.tracked i info.name,
                h,
                free,
              ))
        | inr foreign ↦ rw foreign (
            enter-IsValid (record s { ids = delete info.id s.ids }) (drop_id-IsValid s v info.id)
              info
              λ i h. ground (
                arith,
                lookup-delete info.id i s.ids v.ids_distinct,
                v.tracked i info.name,
                h,
                free,
              ))
      ]

pub activate-IsValid :
    (info : ContainerInfo) (s : Streams) → IsValid s → IsValid (activate info s).0
unfolding activate
activate-IsValid info s v = elim (Option-cases (lookup info.name s.active)) [
  | inl free ↦ rw free (moved-IsValid info s v (lookup info.id s.ids) refl (ap id_of free))
  | inr (current, found) ↦ elim (Bool-cases (str_eq current.id info.id)) [
    | inl same ↦ rw (found, same) v
    | inr other ↦ rw (found, other) (replace-IsValid info s v current.id (ap id_of found))
  ]
]
