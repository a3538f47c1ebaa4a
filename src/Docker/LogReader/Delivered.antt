-- ===== src/Docker/LogReader/Delivered.antt =====
-- internal/docker/logs.go: Stream on a log that the daemon writes a line to a frame.
use docker_monitor.Docker.Demux.{eof}
use docker_monitor.Docker.Demux.Frames.{Fits, Frame, copy_docker_logs-encode, encode, write_all}
use docker_monitor.Docker.LineWriter.{
  LineHandler, LineWriter, Outcome, emit_line, flush, max_docker_log_line_size,
}
use docker_monitor.Docker.LineWriter.Whole.{after_emit, flush_held, flush-reset, write_whole}
use docker_monitor.Docker.LogReader.{
  Lines, flush_both, line_writers, new_line_writer, reader, stream_log, unless_closed,
}
use docker_monitor.Model.{ContainerInfo, Errors, Time}
use docker_monitor.Prelude.{
  All, Bool, List, Option, [], ap, arith, false, if◌then◌else◌, length, length-append, map, true,
  ◌++◌, ◌<◌, ◌∙◌, ◌∷◌, ◌≡◌, ◌≤◌,
}
use docker_monitor.Prelude.Bytes.{Bytes, text}
use docker_monitor.Prelude.Bytes.Index.{Lacks}
use docker_monitor.Prelude.Bytes.Space.{trim_right_byte}

-- A line with the stream that it is on.
pub record LogLine : Type 0 where
  pub on_stderr : Bool
  pub body : Bytes

abbrev pub frame_of : LogLine → Frame
frame_of l = record { on_stderr = l.on_stderr; payload = l.body ++ (b'\n' ∷ []) }

abbrev pub AllWhole : List LogLine → Type 0
AllWhole = All (λ (l : LogLine). Lacks b'\n' l.body × (length l.body ≤ max_docker_log_line_size))

positive : 0 < max_docker_log_line_size
positive = omega arith

module _ {S : Type 0} (parse_time : Bytes → Option Time) (handler : LineHandler S)
    (info : ContainerInfo) where
  -- The line given to the handler, under the name of its stream.
  abbrev pub hand : LogLine → S → Errors × S
  hand l s =
      emit_line parse_time handler
        (new_line_writer info (if l.on_stderr then text "stderr" else text "stdout"))
        (trim_right_byte b'\r' l.body) false s

  -- One line after the other, up to the first for which the handler answers an error: that line is given to
  -- it once more.
  abbrev pub go_on_after : (S → Errors × S) → (S → S) → Errors × S → Errors × S
  go_on_after more again ([], s) = more s
  go_on_after more again (x ∷ xs, s) = (x ∷ xs, again s)

  unfoldable pub hand_all : List LogLine → S → Errors × S
  unfolding emit_line trim_right_byte
  hand_all [] s = ([], s)
  hand_all (l ∷ lines) s = go_on_after (hand_all lines) (λ s'. (hand l s').1) (hand l s)

  frames-Fits : (lines : List LogLine) → AllWhole lines → Fits (map frame_of lines)
  frames-Fits [] h = tt
  frames-Fits (l ∷ lines) h =
      (omega (arith, length-append l.body (b'\n' ∷ []), h.0.1), frames-Fits lines h.1)

  module _ (pieces : Bytes → List Bytes) (is_closed_pipe : Errors → Bool) where
    abbrev start_state : S → Lines parse_time handler pieces is_closed_pipe
    start_state s =
        ((new_line_writer info (text "stdout"), new_line_writer info (text "stderr")), s)

    abbrev flushed : Errors × Lines parse_time handler pieces is_closed_pipe → Errors × S
    flushed (errors, w) = (errors, flush_both parse_time handler pieces is_closed_pipe w)

    abbrev stdout_writer : LineWriter
    stdout_writer = new_line_writer info (text "stdout")

    abbrev stderr_writer : LineWriter
    stderr_writer = new_line_writer info (text "stderr")

    abbrev frames_from :
        List LogLine
        → Lines parse_time handler pieces is_closed_pipe
        → Errors × Lines parse_time handler pieces is_closed_pipe
    frames_from lines =
        write_all (line_writers parse_time handler pieces is_closed_pipe) eof (map frame_of lines)
          (λ w. ([], w))

    -- What follows a write to one of the writers, with its outcome.
    abbrev go_out :
        List LogLine → Outcome S → Errors × Lines parse_time handler pieces is_closed_pipe
    go_out lines r = elim r.0 [
      | [] ↦ frames_from lines ((r.1.0, stderr_writer), r.1.1)
      | x ∷ xs ↦ (x ∷ xs, ((r.1.0, stderr_writer), r.1.1))
    ]

    abbrev go_err :
        List LogLine → Outcome S → Errors × Lines parse_time handler pieces is_closed_pipe
    go_err lines r = elim r.0 [
      | [] ↦ frames_from lines ((stdout_writer, r.1.0), r.1.1)
      | x ∷ xs ↦ (x ∷ xs, ((stdout_writer, r.1.0), r.1.1))
    ]

    flush_none : (s : S) → flushed ([], start_state s) ≡ ([], s)
    flush_none s =
        ap (λ (out : Outcome S). ([], (flush parse_time handler stdout_writer out.1.1).1.1))
          (flush-reset parse_time handler max_docker_log_line_size positive stderr_writer s)
        ∙ ap (λ (out : Outcome S). ([], out.1.1))
            (flush-reset parse_time handler max_docker_log_line_size positive stdout_writer s)

    flush_out :
        (line : Bytes) (errors : Errors) (s : S)
        → flushed (
          errors,
          ((record stdout_writer { buffer = line; truncated = false }, stderr_writer), s),
        )
          ≡ (
            errors,
            (emit_line parse_time handler stdout_writer (trim_right_byte b'\r' line) false s).1,
          )
    flush_out line errors s =
        ap
          (λ (out : Outcome S). (
            errors,
            (flush parse_time handler (record stdout_writer { buffer = line; truncated = false })
                out.1.1).1.1,
          ))
          (flush-reset parse_time handler max_docker_log_line_size positive stderr_writer s)
        ∙ ap (λ q. (errors, q))
            (flush_held parse_time handler max_docker_log_line_size positive line stdout_writer s)

    flush_err :
        (line : Bytes) (errors : Errors) (s : S)
        → flushed (
          errors,
          ((stdout_writer, record stderr_writer { buffer = line; truncated = false }), s),
        )
          ≡ (
            errors,
            (emit_line parse_time handler stderr_writer (trim_right_byte b'\r' line) false s).1,
          )
    flush_err line errors s =
        ap (λ q. (errors, (flush parse_time handler stdout_writer q).1.1))
          (flush_held parse_time handler max_docker_log_line_size positive line stderr_writer s)
        ∙ ap (λ (out : Outcome S). (errors, out.1.1))
            (flush-reset parse_time handler max_docker_log_line_size positive stdout_writer _)

    out_answered :
        (lines : List LogLine) (line : Bytes)
        → ((s : S) → flushed (frames_from lines (start_state s)) ≡ hand_all lines s)
        → (r : Errors × S)
        → flushed (
            go_out lines (
              after_emit parse_time handler max_docker_log_line_size positive stdout_writer line r))
          ≡ go_on_after
              (hand_all lines)
              (λ s'.
                (emit_line parse_time handler stdout_writer
                  (trim_right_byte b'\r' line)
                  false
                  s').1)
              r
    out_answered lines line rest ([], s) = rest s
    out_answered lines line rest (x ∷ xs, s) = flush_out line (x ∷ xs) s

    err_answered :
        (lines : List LogLine) (line : Bytes)
        → ((s : S) → flushed (frames_from lines (start_state s)) ≡ hand_all lines s)
        → (r : Errors × S)
        → flushed (
            go_err lines (
              after_emit parse_time handler max_docker_log_line_size positive stderr_writer line r))
          ≡ go_on_after
              (hand_all lines)
              (λ s'.
                (emit_line parse_time handler stderr_writer
                  (trim_right_byte b'\r' line)
                  false
                  s').1)
              r
    err_answered lines line rest ([], s) = rest s
    err_answered lines line rest (x ∷ xs, s) = flush_err line (x ∷ xs) s

    by_stream :
        (on_stderr : Bool) (line : Bytes) (lines : List LogLine) (s : S)
        → Lacks b'\n' line
        → length line ≤ max_docker_log_line_size
        → ((s : S) → flushed (frames_from lines (start_state s)) ≡ hand_all lines s)
        → flushed
            (frames_from (record { on_stderr = on_stderr; body = line } ∷ lines) (start_state s))
          ≡ hand_all (record { on_stderr = on_stderr; body = line } ∷ lines) s
    unfolding hand_all write_all
    by_stream false line lines s lacks fits rest =
        ap (λ r. flushed (go_out lines r))
          (write_whole parse_time handler max_docker_log_line_size positive line stdout_writer s
            lacks fits)
        ∙ out_answered lines line rest _
    by_stream true line lines s lacks fits rest =
        ap (λ r. flushed (go_err lines r))
          (write_whole parse_time handler max_docker_log_line_size positive line stderr_writer s
            lacks fits)
        ∙ err_answered lines line rest _

    write_all-hand_all :
        (lines : List LogLine) (s : S)
        → AllWhole lines
        → flushed (frames_from lines (start_state s)) ≡ hand_all lines s
    unfolding hand_all write_all
    write_all-hand_all [] s h = flush_none s
    write_all-hand_all (l ∷ lines) s h =
        by_stream l.on_stderr l.body lines s h.0.0 h.0.1 (λ s'. write_all-hand_all lines s' h.1)

    -- Where the daemon sends each line, of at most 1 MiB, as a frame of its own, and the reader then
    -- ends without an error, Stream gives the handler every line that is not blank, on its stream and
    -- in the order of the frames, up to the first for which the handler answers an error: no later
    -- line is given to it, that line is given to it a second time, and the error is returned, but not
    -- where it says that a pipe is closed.
    pub stream_log-lines :
        (lines : List LogLine) (s : S)
        → AllWhole lines
        → stream_log parse_time handler pieces is_closed_pipe info
            (reader (encode (map frame_of lines) []) eof)
            s
          ≡ (
            unless_closed parse_time handler pieces is_closed_pipe (hand_all lines s).0,
            (hand_all lines s).1,
          )
    unfolding stream_log
    stream_log-lines lines s h =
        let out = line_writers parse_time handler pieces is_closed_pipe in
        ap (λ r. (unless_closed parse_time handler pieces is_closed_pipe r.0, (flushed r).1))
          (copy_docker_logs-encode out eof pieces (map frame_of lines) (start_state s)
            (frames-Fits lines h))
        ∙ ap (λ r. (unless_closed parse_time handler pieces is_closed_pipe r.0, r.1))
            (write_all-hand_all lines s h)
