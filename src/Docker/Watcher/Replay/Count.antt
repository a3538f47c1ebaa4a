-- ===== src/Docker/Watcher/Replay/Count.antt =====
-- internal/docker/watcher.go: activeStreamBackfills against the open windows and the aggregator.
use mathlib.Core.Path.{subst}
use docker_monitor.Aggregator.{Aggregator, admit, is_backfilling}
use docker_monitor.Aggregator.Backfill.{
  admit-counter, enter_backfill-counter, exit_backfill-counter, is_backfilling-counter,
}
use docker_monitor.Docker.Watcher.Replay.{
  Replay, StreamBackfill, aggregator_control, begin_stream_backfill, end_stream_backfill, no_replay,
  release, use_once,
}
use docker_monitor.Model.{LogEvent, Time}
use docker_monitor.Prelude.{
  Bool-cases, List, Option-cases, [], arith, count, count-append, false, if◌then◌else◌, inl, inr,
  ltb, not, refl, some, suc, sym, true, zero, ℕ, ◌++◌, ◌+◌, ◌-◌, ◌==◌, ◌∙◌, ◌∷◌, ◌≡◌,
}

abbrev pub open_slots : List StreamBackfill → ℕ
open_slots = count (λ (s : StreamBackfill). not s.ended)

open_slots-use_once :
    (i : ℕ) (slots : List StreamBackfill) {rest : List StreamBackfill}
    → use_once i slots ≡ some rest
    → open_slots rest + 1 ≡ open_slots slots
unfolding use_once
open_slots-use_once i [] h = cc
open_slots-use_once zero (s ∷ slots) {rest} h = elim (Bool-cases s.ended) [
  | inl over ↦ ground (arith, over)
  | inr running ↦
      let same : (record s { ended = true } ∷ slots) ≡ rest = ground (arith, running) in
      rw (← same, running) omega arith
]
open_slots-use_once (suc i) (s ∷ slots) {rest} h = elim (Option-cases (use_once i slots)) [
  | inl used ↦ ground (arith, used)
  | inr (more, found) ↦
      let same : (s ∷ more) ≡ rest = ground (arith, found) in
      let fewer = open_slots-use_once i slots found in rw (← same) omega (arith, fewer)
]

abbrev pub System : Type 0
System = Replay × Aggregator

-- The steps of a host whose windows the aggregator is told of: a stream opens a window, a window is
-- closed (again, perhaps), an event is added.
pub data Step (s : System) : System → Type 0 where
  begun :
      {t : System} (d : ℕ) (now : Time)
      → t ≡ begin_stream_backfill aggregator_control d now s
      → Step s t
  closed : {t : System} (i : ℕ) → t ≡ (end_stream_backfill aggregator_control i s).1 → Step s t
  added :
      {t : System} (e : LogEvent) (now flushed_at : Time)
      → t ≡ (s.0, (admit s.1 e now flushed_at).0)
      → Step s t

pub data Reach (s : System) : System → Type 0 where
  here : Reach s s
  further : {t u : System} → Reach s t → Step t u → Reach s u

-- The count is that of the open states, and the aggregator is in a window exactly if it is not 0.
abbrev pub InStep : System → Type 0
InStep (r, a) =
    (r.active_stream_backfills ≡ open_slots r.slots)
    × (a.active_backfills ≡ (if ltb 0 (open_slots r.slots) then 1 else 0))

begun-InStep :
    (d : ℕ) (now : Time) (r : Replay) (a : Aggregator)
    → InStep (r, a)
    → InStep (begin_stream_backfill aggregator_control d now (r, a))
unfolding begin_stream_backfill
begun-InStep d now r a h =
    let slot : StreamBackfill = record {
      disconnected_for = d;
      reconnect_at = now;
      ended = false;
    } in
    let one_more : open_slots (r.slots ++ slot ∷ []) ≡ open_slots r.slots + 1 =
      omega (arith, count-append (λ (s : StreamBackfill). not s.ended) r.slots (slot ∷ [])) in
    (omega (arith, one_more, h.0), ground (arith, one_more, h.0, h.1, enter_backfill-counter a))

release-InStep :
    (slots : List StreamBackfill) (r : Replay) (a : Aggregator)
    → open_slots slots + 1 ≡ open_slots r.slots
    → InStep (r, a)
    → InStep (release aggregator_control slots (r, a)).1
unfolding release
release-InStep slots r a fewer h = elim (Bool-cases (r.active_stream_backfills - 1 == 0)) [
  | inl last ↦
      rw last (ground (arith, h.0, fewer), ground (arith, h.0, h.1, fewer, exit_backfill-counter a))
  | inr more ↦
      rw more (ground (arith, h.0, fewer), ground (arith, h.0, h.1, fewer, exit_backfill-counter a))
]

closed-InStep :
    (i : ℕ) (r : Replay) (a : Aggregator)
    → InStep (r, a)
    → InStep (end_stream_backfill aggregator_control i (r, a)).1
unfolding end_stream_backfill
closed-InStep i r a h = elim (Option-cases (use_once i r.slots)) [
  | inl used ↦ rw (end_stream_backfill, used) h
  | inr (slots, found) ↦
      rw (end_stream_backfill, found)
        (release-InStep slots r a (open_slots-use_once i r.slots found) h)
]

Step-InStep : (s t : System) → Step s t → InStep s → InStep t
Step-InStep (r, a) t (begun d now e) h = subst InStep (sym e) (begun-InStep d now r a h)
Step-InStep (r, a) t (closed i e) h = subst InStep (sym e) (closed-InStep i r a h)
Step-InStep (r, a) t (added ev now flushed_at e) h =
    subst InStep (sym e) (h.0, admit-counter a ev now flushed_at ∙ h.1)

Reach-InStep : {s t : System} → Reach s t → InStep s → InStep t
Reach-InStep here h = h
Reach-InStep (further before next_step) h = Step-InStep _ _ next_step (Reach-InStep before h)

-- From a host and an aggregator without windows, in every state that streams opening and closing
-- windows (each as often as they like) and events can reach: the count of the watcher is the number
-- of open windows, and the aggregator keeps batches from the alert sinks exactly if it is not 0.
pub Reach-backfilling :
    {a : Aggregator} {t : System}
    → a.active_backfills ≡ 0
    → Reach (no_replay, a) t
    → (t.0.active_stream_backfills ≡ open_slots t.0.slots)
      × (is_backfilling t.1 ≡ ltb 0 (open_slots t.0.slots))
Reach-backfilling {a} {t} idle reached =
    let h = Reach-InStep reached (refl, idle) in
    (h.0, ground (arith, h.1, is_backfilling-counter t.1))
