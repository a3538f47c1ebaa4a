-- ===== src/Docker/Watcher/Cursors/Resume.antt =====
-- internal/docker/watcher.go: initialLogSince after recordLogTimestamp.
use docker_monitor.Aggregator.{keys}
use docker_monitor.Docker.Watcher.Cursors.{
  advance, cursor, cursor_keys, initial_log_since, latest, record_log_timestamp,
}
use docker_monitor.Model.{ContainerInfo, Time}
use docker_monitor.Prelude.{
  All, Bool-cases, List, [], any, ap, arith, if◌then◌else◌, inl, inr, length, ltb, refl, true, ◌&&◌,
  ◌<◌, ◌==◌, ◌||◌, ◌∙◌, ◌∷◌, ◌≡◌,
}
use docker_monitor.Prelude.Assoc.{Assoc, insert}
use docker_monitor.Prelude.Assoc.Laws.{lookup-insert}
use docker_monitor.Prelude.Bytes.{Bytes, str_eq, str_eq_iff, str_eq_refl}
use docker_monitor.Prelude.Int.{ℤ}

cursor-insert :
    (k j : Bytes) (ts : Time) (cursors : Assoc Time)
    → cursor j (insert k ts cursors) ≡ (if str_eq k j then ts else cursor j cursors)
cursor-insert k j ts cursors = ground (arith, lookup-insert k j ts cursors)

-- Every cursor of a key becomes the later of the two times, every other one stays.
cursor-advance :
    (keys : List Bytes) (timestamp : Time) (cursors : Assoc Time) (k : Bytes)
    → cursor k (advance keys timestamp cursors) ≡ (
        if any (λ j. str_eq j k) keys && ltb (cursor k cursors) timestamp
        then timestamp
        else cursor k cursors)
cursor-advance [] timestamp cursors k = refl
cursor-advance (key ∷ keys) timestamp cursors k =
    elim (Bool-cases (cursor key cursors == 0 || ltb (cursor key cursors) timestamp)) [
      | inl later ↦
          rw (later, cursor-advance keys timestamp (insert key timestamp cursors) k)
            (ground (arith, cursor-insert key k timestamp cursors, str_eq_iff key k, later))
      | inr earlier ↦
          rw (earlier, cursor-advance keys timestamp cursors k)
            (ground (arith, str_eq_iff key k, earlier))
    ]

-- The later of two times.
abbrev pub later_of : Time → Time → Time
later_of a b = if ltb a b then b else a

latest-later :
    (keys : List Bytes) (c c' : Assoc Time) (timestamp since : Time)
    → All (λ k. cursor k c' ≡ later_of (cursor k c) timestamp) keys
    → latest keys c' (later_of since timestamp) ≡ later_of (latest keys c since) timestamp
latest-later [] c c' timestamp since h = refl
latest-later (key ∷ keys) c c' timestamp since h =
    ap (latest keys c') (ground (arith, h.0))
    ∙ latest-later keys c c' timestamp (if ltb since (cursor key c) then cursor key c else since)
        h.1

latest-advance :
    (keys : List Bytes) (c c' : Assoc Time) (timestamp since : Time)
    → 0 < length keys
    → All (λ k. cursor k c' ≡ later_of (cursor k c) timestamp) keys
    → latest keys c' since ≡ later_of (latest keys c since) timestamp
latest-advance [] c c' timestamp since some_key h = absurd (omega arith)
latest-advance (key ∷ keys) c c' timestamp since some_key h =
    ap (latest keys c') (ground (arith, h.0))
    ∙ latest-later keys c c' timestamp (if ltb since (cursor key c) then cursor key c else since)
        h.1

All-weaken :
    (keys more : List Bytes) (timestamp : Time) (c : Assoc Time)
    → ((k : Bytes) → any (λ j. str_eq j k) keys ≡ true → any (λ j. str_eq j k) more ≡ true)
    → All (λ k. cursor k (advance more timestamp c) ≡ later_of (cursor k c) timestamp) keys
All-weaken [] more timestamp c sub = tt
All-weaken (key ∷ keys) more timestamp c sub = (
  ground (arith, cursor-advance more timestamp c key, sub key (ground (arith, str_eq_refl key))),
  All-weaken keys more timestamp c λ k h. sub k (ground (arith, h)),
)

-- Once a time has been recorded for a container with an id or a name, its log is read from that time
-- or from where it would have been read without it, whichever is later.
pub record-resume :
    (started_at : Time) (initial_since : ℤ) (info : ContainerInfo) (ts : Time)
    (cursors : Assoc Time)
    → 0 < length (cursor_keys info)
    → initial_log_since started_at initial_since info (record_log_timestamp info ts cursors)
      ≡ later_of (initial_log_since started_at initial_since info cursors) ts
unfolding initial_log_since record_log_timestamp
record-resume started_at initial_since info ts cursors some_key = elim (Bool-cases (ts == 0)) [
  | inl zero_time ↦ ground (arith, zero_time)
  | inr set ↦ rw set (
      latest-advance (cursor_keys info) cursors (advance (cursor_keys info) ts cursors) ts _
        some_key (All-weaken (cursor_keys info) (cursor_keys info) ts cursors (λ k h. h)))
]

-- Recording a time moves a cursor exactly if it is one of the container's and lies before the time.
pub record-cursor :
    (info : ContainerInfo) (ts : Time) (cursors : Assoc Time) (k : Bytes)
    → cursor k (record_log_timestamp info ts cursors) ≡ (
        if any (λ j. str_eq j k) (cursor_keys info) && ltb (cursor k cursors) ts
        then ts
        else cursor k cursors)
unfolding record_log_timestamp
record-cursor info ts cursors k = elim (Bool-cases (ts == 0)) [
  | inl zero_time ↦ ground (arith, zero_time)
  | inr set ↦ rw set (cursor-advance (cursor_keys info) ts cursors k)
]
