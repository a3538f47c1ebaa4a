-- ===== src/Docker/Demux/Tests.antt =====
-- A stream of two frames; the writers keep what is written.
use docker_monitor.Docker.Demux.{
  Writers, copy_docker_logs, copy_pieces, eof, looks_like_mux_header, read_full,
}
use docker_monitor.Docker.Demux.Frames.{Frame, copy_docker_logs-encode, encode, write_all}
use docker_monitor.Prelude.{List, [], arith, false, refl, true, ◌++◌, ◌∷◌, ◌≡◌}
use docker_monitor.Prelude.Bytes.{Bytes, text}

abbrev Kept : Type 0
Kept = Bytes × Bytes

abbrev keeping : Writers Kept
keeping = record { stdout = λ p w. ([], (w.0 ++ p, w.1)); stderr = λ p w. ([], (w.0, w.1 ++ p)) }

abbrev two : List Frame
two =
    record { on_stderr = false; payload = text "out" }
    ∷ record { on_stderr = true; payload = text "err" }
    ∷ []

abbrev whole : Bytes → List Bytes
whole input = input ∷ []

abbrev empty : Kept
empty = ([], [])

two_frames :
    copy_docker_logs keeping eof whole (encode two []) empty ≡ ([], (text "out", text "err"))
unfolding copy_docker_logs encode read_full looks_like_mux_header
two_frames = refl

plain : copy_docker_logs keeping eof whole (text "plain text") empty ≡ ([], (text "plain text", []))
unfolding copy_docker_logs encode read_full looks_like_mux_header copy_pieces
plain = refl

copy_docker_logs-encode_example :
    copy_docker_logs keeping eof whole (encode two []) empty
    ≡ write_all keeping eof two (λ x. ([], x)) empty
copy_docker_logs-encode_example = copy_docker_logs-encode keeping eof whole two empty (omega arith)
