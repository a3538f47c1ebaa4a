-- ===== src/Docker/Watcher/StreamRun/Tests.antt =====
-- A stream that loses its connection.
use docker_monitor.Docker.Watcher.Cursors.{cursor_keys, initial_log_since}
use docker_monitor.Docker.Watcher.Replay.{
  Controller, begin_stream_backfill, end_stream_backfill, no_replay, release, should_exit, use_once,
}
use docker_monitor.Docker.Watcher.StreamRun.{
  Attempt, Setup, World, broke, end_window, enter_backfill_window, lookup_replacement,
  not_inspected, run_attempts, run_stream, conclude, should_enter_backfill, stream_handler,
  stream_lines, verdict,
}
use docker_monitor.Docker.Watcher.StreamRun.Lines.{lines_read, run_stream-lines}
use docker_monitor.Docker.Watcher.StreamRun.Quiet.{SameWindows, run_stream-no_window}
use docker_monitor.Docker.Watcher.StreamRun.Resume.{latest_line, run_stream-resume}
use docker_monitor.Docker.Watcher.Streams.{no_streams}
use docker_monitor.Model.{ContainerInfo, RawLog, Time}
use docker_monitor.Prelude.{
  List, [], arith, none, refl, suc, true, zero, ℕ, ◌*◌, ◌++◌, ◌+◌, ◌∷◌, ◌≡◌,
}
use docker_monitor.Prelude.Bytes.{is_empty, text}
use docker_monitor.Prelude.Bytes.Space.{trim_space}
use docker_monitor.Prelude.Int.{pos}

abbrev web : ContainerInfo
web = record { id = text "1"; name = text "web" }

-- The controller counts the windows that it is told of; windows open after five minutes.
abbrev counting : Controller ℕ
counting = record { enter = λ n. n + 1; exit = λ n. (0, n) }

abbrev five_minutes : ℕ
five_minutes = 300_000_000_000

abbrev setup : Setup ℕ
setup = record {
  info = web;
  threshold = pos five_minutes;
  grace_period = pos 0;
  controller = counting;
  scope = record { match_path = λ p n. none; include_patterns = []; ignored_id = [] };
}

abbrev world : World ℕ
world = record {
  replay = no_replay;
  control = 0;
  cursors = [];
  streams = no_streams;
  handled = [];
  summaries = [];
}

abbrev log : Time → RawLog
log t = record { timestamp = t; container = web; stream = text "stdout"; line = text "x" }

abbrev failing : Time → List RawLog → Time → Attempt
failing started_at lines failed_at = record {
  started_at = started_at;
  lines = lines;
  outcome = broke;
  found_before = none;
  found_later = none;
  waited = true;
  inspected = not_inspected;
  failed_at = failed_at;
  goes_on = true;
}

abbrev second : ℕ
second = 1_000_000_000

-- Ten minutes without a connection: each try fails, and the next follows three seconds later.
abbrev retries : ℕ → Time → List Attempt
retries zero t = []
retries (suc n) t = failing t [] t ∷ retries n (t + 3 * second)

abbrev two_lines : List Attempt
two_lines = failing 1 (log 5 ∷ log 4 ∷ []) 6 ∷ failing 7 (log 9 ∷ []) 10 ∷ []

run_stream-resume_example :
    initial_log_since 2
      (pos 0)
      web
      (run_stream setup (initial_log_since 2 (pos 0) web []) two_lines world).1.cursors
    ≡ latest_line (initial_log_since 2 (pos 0) web []) (lines_read (pos 0) two_lines)
unfolding cursor_keys trim_space is_empty
run_stream-resume_example = run_stream-resume setup 2 (pos 0) two_lines world (omega arith)

run_stream-lines_example :
    (run_stream setup 2 two_lines world).1.handled ≡ [] ++ lines_read (pos 0) two_lines
run_stream-lines_example = run_stream-lines setup 2 two_lines world

run_stream-no_window_example : SameWindows world (run_stream setup 1 (retries 200 second) world).1
run_stream-no_window_example = run_stream-no_window setup 1 (retries 200 second) world (omega arith)

-- Two rounds that each wait longer than the threshold: the second window takes the place of the first,
-- which the stream never ends, so that the count stays 1 after the log has caught up.
abbrev long_waits : List Attempt
long_waits =
    failing 1 [] 2
    ∷ failing (2 * five_minutes) [] (2 * five_minutes)
    ∷ failing (4 * five_minutes) (log (4 * five_minutes) ∷ []) (4 * five_minutes)
    ∷ []

window_left_open : (run_stream setup 1 long_waits world).1.replay.active_stream_backfills ≡ 1
unfolding run_stream run_attempts stream_lines stream_handler enter_backfill_window conclude verdict
    lookup_replacement should_enter_backfill begin_stream_backfill end_window end_stream_backfill
    use_once release should_exit
window_left_open = refl
