-- ===== src/Docker/Watcher/Streams/Rename.antt =====
-- internal/docker/watcher.go: activate and stop of a container that is renamed.
use docker_monitor.Docker.Watcher.Streams.{
  Streams, activate, activate_found, enter_stream, move_name, stop, stop_found, stop_named,
}
use docker_monitor.Docker.Watcher.Streams.Consistent.{
  IsConsistent, NoTakeover, activate-IsConsistent,
}
use docker_monitor.Docker.Watcher.Streams.Laws.{IsValid, holder, id_of}
use docker_monitor.Model.{ContainerInfo}
use docker_monitor.Prelude.{
  Bool-cases, Option-cases, ap, arith, false, inl, inr, some, sym, true, ◌↔◌, ◌∙◌, ◌≡◌, ◌≢◌,
}
use docker_monitor.Prelude.Assoc.{delete, insert, lookup}
use docker_monitor.Prelude.Assoc.Laws.{Distinct-insert, lookup-delete, lookup-insert}
use docker_monitor.Prelude.Bytes.{Bytes, str_eq, str_eq_iff, str_eq_ne, str_eq_refl}

holder-activate :
    (info : ContainerInfo) (s : Streams) → holder info.name (activate info s).0 ≡ some info.id
unfolding activate
holder-activate info s = elim (Option-cases (lookup info.name s.active)) [
  | inl free ↦ rw free (entered (move_name info (lookup info.id s.ids) s).0)
  | inr (current, found) ↦ elim (Bool-cases (str_eq current.id info.id)) [
    | inl same ↦
        rw (found, same) (ap id_of found ∙ ap some ((str_eq_iff current.id info.id).0 same))
    | inr other ↦ rw (found, other) (entered (record s { ids = delete current.id s.ids }))
  ]
]
  where
    entered : (t : Streams) → holder info.name (enter_stream info t) ≡ some info.id
    entered t =
        ap id_of (lookup-insert info.name info.name _ t.active) ∙ simp (str_eq_refl info.name)

-- From consistent tables, after activate without a takeover, the container has a stream under its
-- name, under no other name, and the tables are consistent.
pub activate_unique :
    (info : ContainerInfo) (s : Streams)
    → IsConsistent s
    → NoTakeover info s
    → ((name : Bytes) → (holder name (activate info s).0 ≡ some info.id) ↔ (name ≡ info.name))
      × IsConsistent (activate info s).0
activate_unique info s c ok =
    let after = activate-IsConsistent info s c ok in
    let here = holder-activate info s in
    (
      λ name. (
        (λ h. ground (arith, after.named info.id name h, after.named info.id info.name here)),
        λ e. ap (λ n. holder n (activate info s).0) e ∙ here,
      ),
      after,
    )

-- From consistent tables, after stop no stream of the container is left, and every other stream
-- is still there.
pub stop_complete :
    (id : Bytes) (s : Streams)
    → IsConsistent s
    → ((name : Bytes) → holder name (stop id s).0 ≢ some id)
      × ((name : Bytes) → holder name s ≢ some id → holder name (stop id s).0 ≡ holder name s)
stop_complete id s c = (gone, kept)
  where
    gone : (name : Bytes) → holder name (stop id s).0 ≢ some id
    gone name h = elim (Option-cases (lookup id s.ids)) [
      | inl unknown ↦
          let same : (stop id s).0 ≡ s = unfold stop in rw (unknown, stop_named) in
          absurd (ground (arith, c.named id name, ap (holder name) same, h))
      | inr (n, known) ↦ elim (Option-cases (lookup n s.active)) [
        | inl none_there ↦ absurd (ground (arith, c.valid.tracked id n))
        | inr (stream, found) ↦
            let mine : str_eq stream.id id ≡ true =
              ground (arith, c.valid.tracked id n, str_eq_iff stream.id id) in
            let same : (stop id s).0
                ≡ record s { active = delete n s.active; ids = delete id s.ids } =
              unfold stop in rw (known, found, mine) in
            absurd (
              ground (
                arith,
                c.named id name,
                ap (holder name) same,
                h,
                lookup-delete n name s.active c.valid.active_distinct,
                str_eq_iff n name,
              ))
      ]
    ]

    kept : (name : Bytes) → holder name s ≢ some id → holder name (stop id s).0 ≡ holder name s
    kept name ne = elim (Option-cases (lookup id s.ids)) [
      | inl unknown ↦ unfold stop in rw (unknown, stop_named)
      | inr (n, known) ↦ elim (Option-cases (lookup n s.active)) [
        | inl none_there ↦ absurd (ground (arith, c.valid.tracked id n))
        | inr (stream, found) ↦
            let mine : str_eq stream.id id ≡ true =
              ground (arith, c.valid.tracked id n, str_eq_iff stream.id id) in
            unfold stop in
            rw (known, found, mine)
              (ground (
                arith,
                lookup-delete n name s.active c.valid.active_distinct,
                str_eq_iff n name,
                c.valid.tracked id n,
                ne,
              ))
      ]
    ]

entered-previous :
    (info : ContainerInfo) (s : Streams) (previous : Bytes)
    → previous ≢ info.name
    → holder previous (enter_stream info s) ≡ holder previous s
entered-previous info s previous ne = ap id_of (
    lookup-insert info.name previous (record { id = info.id; cancel = s.fresh }) s.active
    ∙ simp (str_eq_ne info.name previous (λ e. ne (sym e))))

stop-entered :
    (info : ContainerInfo) (s : Streams)
    → (stop info.id (enter_stream info s)).0 ≡ record (enter_stream info s) {
      active = delete info.name (enter_stream info s).active;
      ids = delete info.id (enter_stream info s).ids;
    }
unfolding stop
stop-entered info s =
    let known : lookup info.id (insert info.id info.name s.ids) ≡ some info.name =
      lookup-insert info.id info.id info.name s.ids ∙ simp (str_eq_refl info.id) in
    let found : lookup info.name
          (insert info.name (record { id = info.id; cancel = s.fresh }) s.active)
        ≡ some (record { id = info.id; cancel = s.fresh }) =
      lookup-insert info.name info.name (record { id = info.id; cancel = s.fresh }) s.active
      ∙ simp (str_eq_refl info.name) in
    rw (known, stop_named) (rw (found, stop_found) (rw (str_eq_refl info.id)))

-- Where a container takes over a name that another container's stream holds, while it has a stream
-- under its own old name, it has two streams afterwards; and a stop of the container ends the new
-- one only.
pub activate_takeover :
    (info : ContainerInfo) (s : Streams) (other previous : Bytes)
    → IsValid s
    → holder info.name s ≡ some other
    → other ≢ info.id
    → holder previous s ≡ some info.id
    → previous ≢ info.name
    → (holder info.name (activate info s).0 ≡ some info.id)
      × (holder previous (activate info s).0 ≡ some info.id)
      × (holder previous (stop info.id (activate info s).0).0 ≡ some info.id)
activate_takeover info s other previous v taken ne had moved =
    elim (Option-cases (lookup info.name s.active)) [
      | inl free ↦ absurd (ground (arith, free, taken))
      | inr (current, found) ↦
          let foreign : str_eq current.id info.id ≡ false =
            str_eq_ne current.id info.id (λ e. ground (arith, found, taken, ne, e)) in
          let s' = record s { ids = delete current.id s.ids } in
          let same : (activate info s).0 ≡ enter_stream info s' =
            unfold activate in rw (found, activate_found) (rw foreign) in
          let doubled = entered-previous info s' previous moved ∙ had in
          (
            holder-activate info s,
            ap (holder previous) same ∙ doubled,
            ap (λ t. holder previous (stop info.id t).0) same
                ∙ ap (holder previous) (stop-entered info s')
                ∙ ap id_of (
                    lookup-delete info.name previous (enter_stream info s').active
                      (Distinct-insert info.name _ s.active v.active_distinct)
                    ∙ simp (str_eq_ne info.name previous (λ e. moved (sym e))))
                ∙ doubled,
          )
    ]
