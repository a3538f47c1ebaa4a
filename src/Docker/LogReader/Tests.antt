-- ===== src/Docker/LogReader/Tests.antt =====
-- Two lines on two streams, and a handler that refuses one of them.
use docker_monitor.Docker.Demux.{eof}
use docker_monitor.Docker.Demux.Frames.{encode}
use docker_monitor.Docker.LineWriter.{emit_line, split_docker_timestamp}
use docker_monitor.Docker.LogReader.{reader, stream_log, unless_closed}
use docker_monitor.Docker.LogReader.Delivered.{
  AllWhole, LogLine, frame_of, hand_all, stream_log-lines,
}
use docker_monitor.Model.{ContainerInfo, Errors, RawLog, Time}
use docker_monitor.Prelude.{
  Bool, List, Option, [], arith, false, if◌then◌else◌, map, none, refl, true, ◌++◌, ◌==◌, ◌∷◌, ◌≡◌,
}
use docker_monitor.Prelude.Bytes.{Bytes, is_empty, text}
use docker_monitor.Prelude.Bytes.Index.{index_byte}
use docker_monitor.Prelude.Bytes.Space.{trim_right_byte, trim_space}

abbrev no_time : Bytes → Option Time
no_time s = none

-- The handler keeps the lines, and answers an error for a line that begins with `!`.
abbrev is_bad : Bytes → Bool
is_bad [] = false
is_bad (c ∷ s) = c == b'!'

abbrev keeping : RawLog → List Bytes → Errors × List Bytes
keeping raw s = (if is_bad raw.line then text "refused" ∷ [] else [], s ++ raw.line ∷ [])

abbrev app : ContainerInfo
app = record { id = text "1"; name = text "app" }

abbrev two_lines : List LogLine
two_lines =
    record { on_stderr = false; body = text "a" }
    ∷ record { on_stderr = true; body = text "!b" }
    ∷ []

-- The refused line is handed over twice.
refused_twice :
    hand_all no_time keeping app two_lines []
    ≡ (text "refused" ∷ [], text "a" ∷ text "!b" ∷ text "!b" ∷ [])
unfolding hand_all emit_line trim_right_byte split_docker_timestamp index_byte trim_space is_empty
refused_twice = refl

whole : AllWhole two_lines
whole = (((refl, tt), omega arith), (((refl, (refl, tt)), omega arith), tt))

stream_log-lines_example :
    stream_log no_time keeping
      (λ s. s ∷ [])
      (λ e. false)
      app
      (reader (encode (map frame_of two_lines) []) eof)
      []
    ≡ (
      unless_closed no_time keeping
          (λ s. s ∷ [])
          (λ e. false)
          (hand_all no_time keeping app two_lines []).0,
      (hand_all no_time keeping app two_lines []).1,
    )
stream_log-lines_example =
    stream_log-lines no_time keeping app (λ s. s ∷ []) (λ e. false) two_lines [] whole
