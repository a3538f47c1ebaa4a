-- ===== src/Docker/LogReader.antt =====
-- LogReader.Stream of internal/docker/logs.go: the frames of a container's log, the lines of both of its
-- streams, and the deferred calls.
pub mod Delivered
mod Tests
use docker_monitor.Docker.Demux.{Ending, Writers, copy_docker_logs}
use docker_monitor.Docker.LineWriter.{
  LineHandler, LineWriter, flush, max_docker_log_line_size, write,
}
use docker_monitor.Docker.OwnContainer.{container}
use docker_monitor.Model.{ContainerInfo, Errors, Time}
use docker_monitor.Prelude.{Bool, List, Option, [], false, if◌then◌else◌, ◌++◌, ◌∷◌}
use docker_monitor.Prelude.Bytes.{Bytes, text}

-- What ContainerLogs answers: an error, or a reader, as the bytes that it yields up to its end. Where the
-- context ends, Stream closes the reader, so that it ends there.
pub data Opened : Type 0 where
  open_error : Bytes → Opened
  reader : Bytes → Ending → Opened

abbrev pub new_line_writer : ContainerInfo → Bytes → LineWriter
new_line_writer info stream = record {
  container = info;
  stream = stream;
  buffer = [];
  truncated = false;
}

-- `pieces` is how io.Copy reads, and `is_closed_pipe` is isClosedPipe on the error of copyDockerLogs.
module _ {S : Type 0} (parse_time : Bytes → Option Time) (handler : LineHandler S)
    (pieces : Bytes → List Bytes) (is_closed_pipe : Errors → Bool) where
  -- The writers of the standard output and of the standard error, and the state of the handler.
  abbrev pub Lines : Type 0
  Lines = (LineWriter × LineWriter) × S

  abbrev pub line_writers : Writers Lines
  line_writers = record {
    stdout = λ p x.
        let ((o, e), s) = x in
        let (errors, (o', s')) = write parse_time handler max_docker_log_line_size p o s in
        (errors, ((o', e), s'));
    stderr = λ p x.
        let ((o, e), s) = x in
        let (errors, (e', s')) = write parse_time handler max_docker_log_line_size p e s in
        (errors, ((o, e'), s'));
  }

  -- The deferred calls of Flush, the last one first; their errors are dropped.
  abbrev pub flush_both : Lines → S
  flush_both ((o, e), s) =
      let (errors, (e', s')) = flush parse_time handler e s in (flush parse_time handler o s').1.1

  -- `if err == nil || isClosedPipe(err) { return nil }`
  abbrev pub unless_closed : Errors → Errors
  unless_closed errors = if is_closed_pipe errors then [] else errors

  -- Stream
  unfoldable pub stream_log : ContainerInfo → Opened → S → Errors × S
  stream_log info (open_error e) s = ((text "open container logs: " ++ e) ∷ [], s)
  stream_log info (reader input ending) s =
      let start_state : Lines =
        ((new_line_writer info (text "stdout"), new_line_writer info (text "stderr")), s) in
      let (errors, w) = copy_docker_logs line_writers ending pieces input start_state in
      (unless_closed errors, flush_both w)
