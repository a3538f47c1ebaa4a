-- ===== src/Docker/Watcher/StreamRun/Resume.antt =====
-- internal/docker/watcher.go: initialLogSince after runStream.
use docker_monitor.Docker.Watcher.Cursors.{cursor_keys, initial_log_since}
use docker_monitor.Docker.Watcher.Cursors.Resume.{later_of, record-resume}
use docker_monitor.Docker.Watcher.Replay.{StreamBackfill}
use docker_monitor.Docker.Watcher.StreamRun.{
  Attempt, LogStream, Setup, StreamEnd, Verdict, World, enter_backfill_window, leave, leave_window,
  note_failure, retry_ended, retry_failed, run_attempts, run_stream, see, conclude, stream_handler,
  stream_lines, verdict,
}
use docker_monitor.Docker.Watcher.StreamRun.Lines.{
  enter_backfill_window-Keeps, finish-Keeps, if_again, leave_window-Keeps, lines_read,
}
use docker_monitor.Model.{RawLog, Time}
use docker_monitor.Prelude.{
  List, Option, [], ap, arith, length, none, refl, some, sym, ℕ, ◌++◌, ◌<◌, ◌∙◌, ◌∷◌, ◌≡◌,
}
use docker_monitor.Prelude.Int.{ℤ}

-- The later of a time and the times of lines.
abbrev pub latest_line : Time → List RawLog → Time
latest_line since [] = since
latest_line since (raw ∷ lines) = latest_line (later_of since raw.timestamp) lines

latest_line-append :
    (since : Time) (xs ys : List RawLog)
    → latest_line since (xs ++ ys) ≡ latest_line (latest_line since xs) ys
latest_line-append since [] ys = refl
latest_line-append since (x ∷ xs) ys = latest_line-append (later_of since x.timestamp) xs ys

module _ {C : Type 0} (u : Setup C) where
  last_seen-leave_window :
      (b : Option (ℕ × StreamBackfill)) (raw : RawLog) (s : LogStream) (w : World C)
      → (leave_window u b raw (s, w)).0.last_seen ≡ s.last_seen
  last_seen-leave_window none raw s w = refl
  last_seen-leave_window (some (i, b)) raw s w = ground arith

  last_seen-enter_backfill_window :
      (now : Time) (s : LogStream) (w : World C)
      → (enter_backfill_window u now (s, w)).0.last_seen ≡ s.last_seen
  unfolding enter_backfill_window
  last_seen-enter_backfill_window now s w = ground arith

  module _ (started_at : Time) (initial_since : ℤ) (named : 0 < length (cursor_keys u.info)) where
    abbrev resume : World C → Time
    resume w = initial_log_since started_at initial_since u.info w.cursors

    see-resume :
        (raw : RawLog) (s : LogStream) (w : World C)
        → s.last_seen ≡ resume w
        → ((see u raw (s, w)).0.last_seen ≡ later_of s.last_seen raw.timestamp)
          × (resume (see u raw (s, w)).1 ≡ later_of s.last_seen raw.timestamp)
    see-resume raw s w h =
        ground
          (arith, h, record-resume started_at initial_since u.info raw.timestamp w.cursors named)

    stream_handler-resume :
        (raw : RawLog) (s : LogStream) (w : World C)
        → s.last_seen ≡ resume w
        → ((stream_handler u raw (s, w)).0.last_seen ≡ later_of s.last_seen raw.timestamp)
          × (resume (stream_handler u raw (s, w)).1 ≡ later_of s.last_seen raw.timestamp)
    unfolding stream_handler
    stream_handler-resume raw s w h =
        let (s', w') = leave_window u s.backfill raw (s, w) in
        let same = last_seen-leave_window s.backfill raw s w in
        let kept = (leave_window-Keeps u s.backfill raw s w).1 in
        let (seen, stored) =
          see-resume raw s' w'
            (same ∙ h ∙ ap (initial_log_since started_at initial_since u.info) (sym kept)) in
        (
          seen ∙ ap (λ t. later_of t raw.timestamp) same,
          stored ∙ ap (λ t. later_of t raw.timestamp) same,
        )

    stream_lines-resume :
        (lines : List RawLog) (s : LogStream) (w : World C)
        → s.last_seen ≡ resume w
        → ((stream_lines u lines (s, w)).0.last_seen ≡ latest_line s.last_seen lines)
          × (resume (stream_lines u lines (s, w)).1 ≡ latest_line s.last_seen lines)
    unfolding stream_lines
    stream_lines-resume [] s w h = (refl, sym h)
    stream_lines-resume (raw ∷ lines) s w h =
        let after = stream_handler u raw (s, w) in
        let (seen, stored) = stream_handler-resume raw s w h in
        let (seen', stored') = stream_lines-resume lines after.0 after.1 (seen ∙ sym stored) in
        (seen' ∙ ap (λ t. latest_line t lines) seen, stored' ∙ ap (λ t. latest_line t lines) seen)

    conclude-resume :
        (v : Verdict) (s : LogStream) (w : World C) (rest : StreamEnd × World C)
        (lines : List RawLog)
        → s.last_seen ≡ resume w
        → resume rest.1 ≡ latest_line s.last_seen lines
        → resume (conclude u v (s, w) rest).1 ≡ latest_line s.last_seen (if_again v lines)
    unfolding conclude
    conclude-resume (leave e) s w rest lines now later =
        ap (initial_log_since started_at initial_since u.info) (finish-Keeps u e s w).1 ∙ sym now
    conclude-resume retry_failed s w rest lines now later = later
    conclude-resume retry_ended s w rest lines now later = later

    last_seen-note_failure :
        (v : Verdict) (now : Time) (s : LogStream)
        → (note_failure u v now s).last_seen ≡ s.last_seen
    last_seen-note_failure (leave e) now s = refl
    last_seen-note_failure retry_failed now s = refl
    last_seen-note_failure retry_ended now s = refl

    run_attempts-resume :
        (attempts : List Attempt) (s : LogStream) (w : World C)
        → s.last_seen ≡ resume w
        → resume (run_attempts u attempts (s, w)).1
          ≡ latest_line s.last_seen (lines_read u.grace_period attempts)
    unfolding run_attempts
    run_attempts-resume [] s w h = sym h
    run_attempts-resume (a ∷ attempts) s w h =
        let v = verdict u.grace_period a a.outcome in
        let (s1, w1) = enter_backfill_window u a.started_at (s, w) in
        let (s2, w2) = stream_lines u a.lines (s1, w1) in
        let same = last_seen-enter_backfill_window a.started_at s w in
        let kept = (enter_backfill_window-Keeps u a.started_at s w).1 in
        let (seen, stored) =
          stream_lines-resume a.lines s1 w1
            (same ∙ h ∙ ap (initial_log_since started_at initial_since u.info) (sym kept)) in
        let noted = last_seen-note_failure v a.failed_at s2 in
        let later =
          run_attempts-resume attempts (note_failure u v a.failed_at s2) w2
            (noted ∙ seen ∙ sym stored) in
        let rest = lines_read u.grace_period attempts in
        conclude-resume v s2 w2 _ rest (seen ∙ sym stored)
          (later ∙ ap (λ t. latest_line t rest) noted)
        ∙ ap (λ t. latest_line t (if_again v rest)) (seen ∙ ap (λ t. latest_line t a.lines) same)
        ∙ sym (latest_line-append s.last_seen a.lines (if_again v rest))

-- For a container with an id or a name, a stream that begins where its log is to be read from leaves, for
-- the next stream of the container, the later of that time and of the times of all lines handed over.
pub run_stream-resume :
    {C : Type 0} (u : Setup C) (started_at : Time) (initial_since : ℤ) (attempts : List Attempt)
    (w : World C)
    → 0 < length (cursor_keys u.info)
    → initial_log_since started_at initial_since u.info
        (run_stream u
          (initial_log_since started_at initial_since u.info w.cursors)
          attempts
          w).1.cursors
      ≡ latest_line
          (initial_log_since started_at initial_since u.info w.cursors)
          (lines_read u.grace_period attempts)
unfolding run_stream
run_stream-resume u started_at initial_since attempts w named =
    run_attempts-resume u started_at initial_since named attempts _ w refl
