-- ===== src/Docker/LineWriter/Tests.antt =====
-- The line writer with a small limit.
use docker_monitor.Docker.LineWriter.{
  LineHandler, LineWriter, Outcome, finish_line, reset, truncated_suffix, write,
}
use docker_monitor.Docker.LineWriter.Feed.{feed}
use docker_monitor.Docker.LineWriter.Lines.{
  and_then, holding, write-append, write_limit, write_line,
}
use docker_monitor.Docker.LineWriter.Refine.{write-feed}
use docker_monitor.Model.{Time}
use docker_monitor.Prelude.{List, Option, [], arith, false, inr, none, refl, true, ◌++◌, ◌∷◌, ◌≡◌}
use docker_monitor.Prelude.Bytes.{Bytes, is_empty, text}
use docker_monitor.Prelude.Bytes.Index.{Lacks, index_byte}
use docker_monitor.Prelude.Bytes.Space.{trim_right_byte, trim_space}

abbrev no_time : Bytes → Option Time
no_time s = none

abbrev keep : LineHandler (List Bytes)
keep raw s = ([], s ++ raw.line ∷ [])

abbrev fresh : LineWriter
fresh = record {
  container = record { id = []; name = [] };
  stream = text "stdout";
  buffer = [];
  truncated = false;
}

abbrev lines_of : Outcome (List Bytes) → List Bytes
lines_of r = r.1.1

two_lines :
    lines_of (write no_time keep 8 (text "one\r\n\ntwo\nre") fresh [])
    ≡ text "one" ∷ text "two" ∷ []
unfolding write trim_space trim_right_byte index_byte is_empty
two_lines = refl

cut_line :
    lines_of (write no_time keep 4 (text "onetwo\nx\n") fresh [])
    ≡ (text "onet" ++ truncated_suffix) ∷ text "x" ∷ []
unfolding write trim_space trim_right_byte index_byte is_empty
cut_line = refl

write-feed_example :
    write no_time keep 4 (text "onetwo\n") fresh [] ≡ feed no_time keep 4 (text "onetwo\n") fresh []
write-feed_example =
    write-feed no_time keep 4 (omega arith) (text "onetwo\n") fresh [] (inr (omega arith))

Lacks-newline : Lacks b'\n' (text "one")
Lacks-newline = (refl, (refl, (refl, tt)))

write_line_example :
    write no_time keep 4 (text "one" ++ (b'\n' ∷ text "x")) (reset fresh) []
    ≡ finish_line no_time keep
        (record (holding 4 fresh (text "one")) { truncated = false })
        false
        (write no_time keep 4 (text "x"))
        []
write_line_example =
    write_line no_time keep 4 (omega arith) (text "one") (text "x") fresh [] Lacks-newline

write_limit_example :
    and_then
      (write no_time keep 3 (text "one") (reset fresh) [])
      (write no_time keep 3 (b'\n' ∷ []))
    ≡ finish_line no_time keep
        (record (holding 3 fresh (text "one")) { truncated = true })
        true
        (write no_time keep 3 [])
        []
write_limit_example =
    write_limit no_time keep 3 (omega arith) (text "one") fresh [] Lacks-newline refl

write-append_example :
    write no_time keep 4 (text "on" ++ text "e\ntwo") fresh []
    ≡ and_then (write no_time keep 4 (text "on") fresh []) (write no_time keep 4 (text "e\ntwo"))
unfolding write index_byte
write-append_example =
    write-append no_time keep 4 (omega arith) (text "on") (text "e\ntwo") fresh []
      (inr (omega arith)) (inr (omega arith))
