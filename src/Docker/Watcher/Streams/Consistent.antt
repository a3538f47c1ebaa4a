-- ===== src/Docker/Watcher/Streams/Consistent.antt =====
-- internal/docker/watcher.go: the streams of a container in the tables.
use docker_monitor.Docker.Watcher.Streams.{
  Streams, activate, enter_stream, move_name, remove_active, remove_found, stop, stop_named,
}
use docker_monitor.Docker.Watcher.Streams.Laws.{
  IsValid, Named, activate-IsValid, holder, id_of, remove_active-IsValid, stop-IsValid,
}
use docker_monitor.Model.{ContainerInfo}
use docker_monitor.Prelude.{
  Bool-cases, Option, Option-cases, ap, arith, inl, inr, none, refl, some, true, ◌≡◌, ◌≢◌,
}
use docker_monitor.Prelude.Assoc.{delete, lookup}
use docker_monitor.Prelude.Assoc.Laws.{lookup-delete, lookup-insert}
use docker_monitor.Prelude.Bytes.{Bytes, str_eq, str_eq_iff}

pub record IsConsistent (s : Streams) : Type 0 where
  pub valid : IsValid s
  pub named : Named s

-- The container takes no name that another container's stream holds while it has one itself.
abbrev pub NoTakeover : ContainerInfo → Streams → Type 0
NoTakeover info s =
    (x : Bytes) → holder info.name s ≡ some x → x ≢ info.id → lookup info.id s.ids ≡ none

module _ (s : Streams) (c : IsConsistent s) where
  drop_both-Named :
      (name id : Bytes)
      → holder name s ≡ some id
      → Named (record s { active = delete name s.active; ids = delete id s.ids })
  drop_both-Named name id held i n h = ground (
    arith,
    lookup-delete id i s.ids c.valid.ids_distinct,
    lookup-delete name n s.active c.valid.active_distinct,
    str_eq_iff id i,
    str_eq_iff name n,
    c.named i n,
    c.named id name,
    held,
    h,
  )

  -- A new id enters under a free name, or under one whose old id is forgotten.
  replace-Named :
      (info : ContainerInfo) (current : Bytes)
      → holder info.name s ≡ some current
      → lookup info.id s.ids ≡ none
      → Named (enter_stream info (record s { ids = delete current s.ids }))
  replace-Named info current held new_id i n h = ground (
    arith,
    lookup-insert info.id i info.name (delete current s.ids),
    lookup-delete current i s.ids c.valid.ids_distinct,
    lookup-insert info.name n (record { id = info.id; cancel = s.fresh }) s.active,
    str_eq_iff info.id i,
    str_eq_iff info.name n,
    str_eq_iff current i,
    c.named i n,
    c.named current info.name,
    held,
    h,
  )

  new-Named : (info : ContainerInfo) → lookup info.id s.ids ≡ none → Named (enter_stream info s)
  new-Named info new_id i n h = ground (
    arith,
    lookup-insert info.id i info.name s.ids,
    lookup-insert info.name n (record { id = info.id; cancel = s.fresh }) s.active,
    str_eq_iff info.id i,
    str_eq_iff info.name n,
    c.named i n,
    h,
  )

  -- A renamed container gives up its old name.
  renamed-Named :
      (info : ContainerInfo) (previous : Bytes)
      → holder previous s ≡ some info.id
      → Named (
          enter_stream info
            (record s { active = delete previous s.active; ids = delete info.id s.ids }))
  renamed-Named info previous held i n h = ground (
    arith,
    lookup-insert info.id i info.name (delete info.id s.ids),
    lookup-delete info.id i s.ids c.valid.ids_distinct,
    lookup-delete previous n s.active c.valid.active_distinct,
    lookup-insert info.name n (record { id = info.id; cancel = s.fresh })
        (delete previous s.active),
    str_eq_iff info.id i,
    str_eq_iff info.name n,
    str_eq_iff previous n,
    c.named i n,
    c.named info.id previous,
    held,
    h,
  )

pub stop-IsConsistent : (id : Bytes) (s : Streams) → IsConsistent s → IsConsistent (stop id s).0
stop-IsConsistent id s c = record {
  valid = stop-IsValid id s c.valid;
  named = named' (lookup id s.ids) refl;
}
  where
    named' : (o : Option Bytes) → lookup id s.ids ≡ o → Named (stop id s).0
    named' none e = unfold stop in rw (e, stop_named) c.named
    named' (some name) e = elim (Option-cases (lookup name s.active)) [
      | inl gone ↦ absurd (ground (arith, c.valid.tracked id name))
      | inr (stream, found) ↦
          let same : str_eq stream.id id ≡ true =
            ground (arith, c.valid.tracked id name, str_eq_iff stream.id id) in
          unfold stop in
          rw (e, found, same) (drop_both-Named s c name id (c.valid.tracked id name e))
    ]

pub remove_active-IsConsistent :
    (name id : Bytes) (s : Streams) → IsConsistent s → IsConsistent (remove_active name id s)
remove_active-IsConsistent name id s c = record {
  valid = remove_active-IsValid name id s c.valid;
  named = named';
}
  where
    named' : Named (remove_active name id s)
    named' =
        unfold remove_active in
        elim (Option-cases (lookup name s.active)) [
          | inl gone ↦ rw (gone, remove_found) c.named
          | inr (stream, found) ↦ elim (Bool-cases (str_eq stream.id id)) [
            | inl same ↦
                rw (found, same)
                  (drop_both-Named s c name id (ground (arith, found, str_eq_iff stream.id id)))
            | inr other ↦ rw (found, other) c.named
          ]
        ]

activate-Named :
    (info : ContainerInfo) (s : Streams)
    → IsConsistent s
    → NoTakeover info s
    → Named (activate info s).0
unfolding activate
activate-Named info s c ok = elim (Option-cases (lookup info.name s.active)) [
  | inr (current, found) ↦ elim (Bool-cases (str_eq current.id info.id)) [
    | inl same ↦ rw (found, same) c.named
    | inr other ↦
        rw (found, other)
          (replace-Named s c info current.id (ap id_of found)
            (ok current.id (ap id_of found) (λ e. ground (arith, str_eq_iff current.id info.id))))
  ]
  | inl free ↦ rw free (moved free (lookup info.id s.ids) refl)
]
  where
    moved :
        lookup info.name s.active ≡ none
        → (o : Option Bytes) → lookup info.id s.ids ≡ o
        → Named (enter_stream info (move_name info o s).0)
    moved free none e = new-Named s c info e
    moved free (some previous) e = elim (Bool-cases (str_eq previous info.name)) [
      | inl same ↦
          absurd
            (ground (arith, c.valid.tracked info.id previous, str_eq_iff previous info.name, free))
      | inr other ↦ elim (Option-cases (lookup previous s.active)) [
        | inl gone ↦ absurd (ground (arith, c.valid.tracked info.id previous))
        | inr (stream, found) ↦
            let mine : str_eq stream.id info.id ≡ true =
              ground (arith, c.valid.tracked info.id previous, str_eq_iff stream.id info.id) in
            rw (other, found, mine)
              (renamed-Named s c info previous (c.valid.tracked info.id previous e))
      ]
    ]

pub activate-IsConsistent :
    (info : ContainerInfo) (s : Streams)
    → IsConsistent s
    → NoTakeover info s
    → IsConsistent (activate info s).0
activate-IsConsistent info s c ok = record {
  valid = activate-IsValid info s c.valid;
  named = activate-Named info s c ok;
}
