-- ===== src/Docker/Watcher/StreamRun/Lines.antt =====
-- internal/docker/watcher.go: the lines that runStream gives to the handler.
use mathlib.Core.List.{append-nil, append_assoc}
use docker_monitor.Docker.Watcher.Replay.{StreamBackfill, should_exit}
use docker_monitor.Docker.Watcher.StreamRun.{
  Attempt, LogStream, Setup, StreamEnd, Verdict, World, end_open, end_window, enter_backfill_window,
  finish, gone, leave, leave_window, note_failure, replaced, retry_ended, retry_failed,
  run_attempts, run_stream, running_on, conclude, stopped, stream_handler, stream_lines, switch,
  verdict,
}
use docker_monitor.Model.{RawLog, Time}
use docker_monitor.Prelude.{
  Bool-cases, List, Option, [], ap, arith, inl, inr, none, refl, some, sym, ℕ, ◌++◌, ◌∙◌, ◌∷◌, ◌≡◌,
}
use docker_monitor.Prelude.Int.{ℤ}

abbrev pub if_again : Verdict → List RawLog → List RawLog
if_again (leave e) lines = []
if_again again lines = lines

-- The lines of the rounds up to the one with which the stream ends.
abbrev pub lines_read : ℤ → List Attempt → List RawLog
lines_read grace_period [] = []
lines_read grace_period (a ∷ attempts) =
    a.lines ++ if_again (verdict grace_period a a.outcome) (lines_read grace_period attempts)

-- The steps that leave the lines handled and the cursors as they are.
abbrev pub Keeps : {C : Type 0} → World C → World C → Type 0
Keeps w w' = (w'.handled ≡ w.handled) × (w'.cursors ≡ w.cursors)

module _ {C : Type 0} (u : Setup C) where
  pub leave_window-Keeps :
      (b : Option (ℕ × StreamBackfill)) (raw : RawLog) (s : LogStream) (w : World C)
      → Keeps w (leave_window u b raw (s, w)).1
  unfolding end_window
  leave_window-Keeps none raw s w = (refl, refl)
  leave_window-Keeps (some (i, b)) raw s w = elim (Bool-cases (should_exit b raw.timestamp)) [
    | inl caught_up ↦ rw caught_up (refl, refl)
    | inr behind ↦ rw behind (refl, refl)
  ]

  pub enter_backfill_window-Keeps :
      (now : Time) (s : LogStream) (w : World C) → Keeps w (enter_backfill_window u now (s, w)).1
  unfolding enter_backfill_window
  enter_backfill_window-Keeps now s w = ground arith

  end_open-Keeps : (b : Option (ℕ × StreamBackfill)) (w : World C) → Keeps w (end_open u b w)
  unfolding end_open end_window
  end_open-Keeps none w = (refl, refl)
  end_open-Keeps (some (i, b)) w = (refl, refl)

  switch-Keeps : (e : StreamEnd) (w : World C) → Keeps w (switch u e w)
  unfolding switch
  switch-Keeps stopped w = (refl, refl)
  switch-Keeps (replaced info) w = (refl, refl)
  switch-Keeps gone w = (refl, refl)
  switch-Keeps running_on w = (refl, refl)

  pub finish-Keeps :
      (e : StreamEnd) (s : LogStream) (w : World C) → Keeps w (finish u (s, switch u e w))
  unfolding finish
  finish-Keeps e s w =
      let kept = end_open-Keeps s.backfill (switch u e w) in
      (kept.0 ∙ (switch-Keeps e w).0, kept.1 ∙ (switch-Keeps e w).1)

  handled-stream_handler :
      (raw : RawLog) (s : LogStream) (w : World C)
      → (stream_handler u raw (s, w)).1.handled ≡ w.handled ++ raw ∷ []
  unfolding stream_handler
  handled-stream_handler raw s w = ground (arith, leave_window-Keeps s.backfill raw s w)

  handled-stream_lines :
      (lines : List RawLog) (s : LogStream) (w : World C)
      → (stream_lines u lines (s, w)).1.handled ≡ w.handled ++ lines
  unfolding stream_lines
  handled-stream_lines [] s w = sym (append-nil w.handled)
  handled-stream_lines (raw ∷ lines) s w =
      let after = stream_handler u raw (s, w) in
      handled-stream_lines lines after.0 after.1
      ∙ ap (λ h. h ++ lines) (handled-stream_handler raw s w)
      ∙ append_assoc w.handled (raw ∷ []) lines

  handled-conclude :
      (v : Verdict) (s : LogStream) (w : World C) (rest : StreamEnd × World C) (lines : List RawLog)
      → rest.1.handled ≡ w.handled ++ lines
      → (conclude u v (s, w) rest).1.handled ≡ w.handled ++ if_again v lines
  unfolding conclude
  handled-conclude (leave e) s w rest lines h = (finish-Keeps e s w).0 ∙ sym (append-nil w.handled)
  handled-conclude retry_failed s w rest lines h = h
  handled-conclude retry_ended s w rest lines h = h

  handled-run_attempts :
      (attempts : List Attempt) (s : LogStream) (w : World C)
      → (run_attempts u attempts (s, w)).1.handled ≡ w.handled ++ lines_read u.grace_period attempts
  unfolding run_attempts
  handled-run_attempts [] s w = sym (append-nil w.handled)
  handled-run_attempts (a ∷ attempts) s w =
      let v = verdict u.grace_period a a.outcome in
      let (s1, w1) = enter_backfill_window u a.started_at (s, w) in
      let (s2, w2) = stream_lines u a.lines (s1, w1) in
      handled-conclude v s2 w2 _ _
        (handled-run_attempts attempts (note_failure u v a.failed_at s2) w2)
      ∙ ap (λ h. h ++ if_again v (lines_read u.grace_period attempts))
          (handled-stream_lines a.lines s1 w1
            ∙ ap (λ h. h ++ a.lines) (enter_backfill_window-Keeps a.started_at s w).0)
      ∙ append_assoc w.handled a.lines (if_again v (lines_read u.grace_period attempts))

-- The handler is called with every line that the log stream hands over until the stream ends, each once and
-- in the order of the log, whatever windows open and close meanwhile.
pub run_stream-lines :
    {C : Type 0} (u : Setup C) (since : Time) (attempts : List Attempt) (w : World C)
    → (run_stream u since attempts w).1.handled ≡ w.handled ++ lines_read u.grace_period attempts
unfolding run_stream
run_stream-lines u since attempts w = handled-run_attempts u attempts _ w
