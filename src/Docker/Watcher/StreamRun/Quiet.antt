-- ===== src/Docker/Watcher/StreamRun/Quiet.antt =====
-- internal/docker/watcher.go: the windows of a stream whose rounds follow each other soon.
use docker_monitor.Docker.Watcher.StreamRun.{
  Attempt, LogStream, Setup, StreamEnd, Verdict, World, end_open, enter_backfill_window, finish,
  gone, leave, note_failure, replaced, retry_ended, retry_failed, run_attempts, run_stream,
  running_on, conclude, should_enter_backfill, stopped, stream_handler, stream_lines, switch,
  verdict,
}
use docker_monitor.Model.{RawLog, Time}
use docker_monitor.Parser.Extract.{first}
use docker_monitor.Prelude.{List, [], arith, inl, inr, none, refl, ◌-◌, ◌<◌, ◌∙◌, ◌∷◌, ◌≡◌, ◌⊎◌}
use docker_monitor.Prelude.Int.{clamp_zero, ℤ}

-- Each round begins less than the threshold after the failure of the round before it was noted.
abbrev pub PromptAfter : ℤ → Time → List Attempt → Type 0
PromptAfter threshold failed_at [] = Unit {0}
PromptAfter threshold failed_at (a ∷ attempts) =
    (a.started_at - failed_at < clamp_zero threshold) × PromptAfter threshold a.failed_at attempts

abbrev pub Prompt : ℤ → List Attempt → Type 0
Prompt threshold [] = Unit {0}
Prompt threshold (a ∷ attempts) = PromptAfter threshold a.failed_at attempts

-- The windows and the controller are as they were, and nothing is reported.
abbrev pub SameWindows : {C : Type 0} → World C → World C → Type 0
SameWindows w w' = (w'.replay ≡ w.replay) × (w'.control ≡ w.control) × (w'.summaries ≡ w.summaries)

SameWindows-trans :
    {C : Type 0} (w w' w'' : World C) → SameWindows w w' → SameWindows w' w'' → SameWindows w w''
SameWindows-trans w w' w'' (a, b, c) (x, y, z) = (x ∙ a, y ∙ b, z ∙ c)

-- No window is open, and a failure that is noted is the last one.
abbrev Calm : Time → LogStream → Type 0
Calm failed_at s =
    (s.backfill ≡ none) × ((s.disconnected_since ≡ 0) ⊎ (s.disconnected_since ≡ failed_at))

module _ {C : Type 0} (u : Setup C) where
  stream_handler-SameWindows :
      (raw : RawLog) (s : LogStream) (w : World C)
      → s.backfill ≡ none
      → ((stream_handler u raw (s, w)).0.backfill ≡ none)
        × ((stream_handler u raw (s, w)).0.disconnected_since ≡ s.disconnected_since)
        × SameWindows w (stream_handler u raw (s, w)).1
  unfolding stream_handler
  stream_handler-SameWindows raw s w idle = rw idle (ground (arith, idle))

  stream_lines-SameWindows :
      (lines : List RawLog) (s : LogStream) (w : World C)
      → s.backfill ≡ none
      → ((stream_lines u lines (s, w)).0.backfill ≡ none)
        × ((stream_lines u lines (s, w)).0.disconnected_since ≡ s.disconnected_since)
        × SameWindows w (stream_lines u lines (s, w)).1
  unfolding stream_lines
  stream_lines-SameWindows [] s w idle = (idle, refl, (refl, refl, refl))
  stream_lines-SameWindows (raw ∷ lines) s w idle =
      let (s', w') = stream_handler u raw (s, w) in
      let (still, same, first) = stream_handler-SameWindows raw s w idle in
      let (still', same', second) = stream_lines-SameWindows lines s' w' still in
      (still', same' ∙ same, SameWindows-trans w w' (stream_lines u lines (s', w')).1 first second)

  enter_backfill_window-SameWindows :
      (failed_at now : Time) (s : LogStream) (w : World C)
      → Calm failed_at s
      → (s.disconnected_since ≡ 0) ⊎ (now - failed_at < clamp_zero u.threshold)
      → ((enter_backfill_window u now (s, w)).0.backfill ≡ none)
        × ((enter_backfill_window u now (s, w)).0.disconnected_since ≡ 0)
        × SameWindows w (enter_backfill_window u now (s, w)).1
  unfolding enter_backfill_window should_enter_backfill
  enter_backfill_window-SameWindows failed_at now s w (idle, noted) prompt =
      ground (arith, idle, noted, prompt)

  finish-SameWindows :
      (e : StreamEnd) (s : LogStream) (w : World C)
      → s.backfill ≡ none
      → SameWindows w (finish u (s, switch u e w))
  unfolding finish switch end_open
  finish-SameWindows stopped s w idle = rw idle (refl, refl, refl)
  finish-SameWindows (replaced info) s w idle = rw idle (refl, refl, refl)
  finish-SameWindows gone s w idle = rw idle (refl, refl, refl)
  finish-SameWindows running_on s w idle = rw idle (refl, refl, refl)

  conclude-SameWindows :
      (v : Verdict) (s : LogStream) (w : World C) (rest : StreamEnd × World C)
      → s.backfill ≡ none
      → SameWindows w rest.1
      → SameWindows w (conclude u v (s, w) rest).1
  unfolding conclude
  conclude-SameWindows (leave e) s w rest idle same = finish-SameWindows e s w idle
  conclude-SameWindows retry_failed s w rest idle same = same
  conclude-SameWindows retry_ended s w rest idle same = same

  note_failure-Calm :
      (v : Verdict) (now : Time) (s : LogStream)
      → s.backfill ≡ none
      → s.disconnected_since ≡ 0
      → Calm now (note_failure u v now s)
  note_failure-Calm (leave e) now s idle fresh = (idle, inl fresh)
  note_failure-Calm retry_failed now s idle fresh = (idle, inr (rw fresh refl))
  note_failure-Calm retry_ended now s idle fresh = (idle, inl fresh)

  -- A round, and the rounds after it.
  run_attempts-SameWindows :
      (attempts : List Attempt) (failed_at : Time) (s : LogStream) (w : World C)
      → Calm failed_at s
      → PromptAfter u.threshold failed_at attempts
        ⊎ ((s.disconnected_since ≡ 0) × Prompt u.threshold attempts)
      → SameWindows w (run_attempts u attempts (s, w)).1
  unfolding run_attempts
  run_attempts-SameWindows [] failed_at s w calm prompt = (refl, refl, refl)
  run_attempts-SameWindows (a ∷ attempts) failed_at s w calm prompt =
      let v = verdict u.grace_period a a.outcome in
      let (s1, w1) = enter_backfill_window u a.started_at (s, w) in
      let (s2, w2) = stream_lines u a.lines (s1, w1) in
      let (idle, fresh, first) =
        enter_backfill_window-SameWindows failed_at a.started_at s w calm
          (elim prompt [ inl p ↦ inr p.0 | inr p ↦ inl p.0 ]) in
      let (idle', fresh', second) = stream_lines-SameWindows a.lines s1 w1 idle in
      let rest =
        run_attempts-SameWindows attempts a.failed_at (note_failure u v a.failed_at s2) w2
          (note_failure-Calm v a.failed_at s2 idle' (fresh' ∙ fresh))
          (inl (elim prompt [ inl p ↦ p.1 | inr p ↦ p.1 ])) in
      let later = run_attempts u attempts (note_failure u v a.failed_at s2, w2) in
      let out = conclude u v (s2, w2) later in
      SameWindows-trans w w1 out.1 first
        (SameWindows-trans w1 w2 out.1 second (conclude-SameWindows v s2 w2 later idle' rest))

-- A stream whose rounds each begin less than backfill_threshold after the failure before was noted
-- opens no window, reports none and leaves the controller as it is, however many rounds fail in a row and
-- however long they last together.
pub run_stream-no_window :
    {C : Type 0} (u : Setup C) (since : Time) (attempts : List Attempt) (w : World C)
    → Prompt u.threshold attempts
    → SameWindows w (run_stream u since attempts w).1
unfolding run_stream
run_stream-no_window u since attempts w prompt =
    run_attempts-SameWindows u attempts 0 _ w (refl, inl refl) (inr (refl, prompt))
