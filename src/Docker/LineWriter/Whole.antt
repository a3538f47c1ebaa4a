-- ===== src/Docker/LineWriter/Whole.antt =====
-- internal/docker/logs.go: Write of one whole line, and Flush after it.
use docker_monitor.Docker.LineWriter.{
  LineHandler, LineWriter, Outcome, emit_line, finish_line, flush, reset, write, write_loop,
}
use docker_monitor.Docker.LineWriter.Lines.{write_line}
use docker_monitor.Model.{Errors, Time}
use docker_monitor.Prelude.{
  Bool, Option, [], ap, arith, false, length, ltb, refl, take, take_all, ℕ, ◌++◌, ◌<◌, ◌∙◌, ◌∷◌,
  ◌≡◌, ◌≤◌,
}
use docker_monitor.Prelude.Bytes.{Bytes, is_empty}
use docker_monitor.Prelude.Bytes.Index.{Lacks}
use docker_monitor.Prelude.Bytes.Space.{trim_right_byte, trim_space}

module _ {S : Type 0} (parse_time : Bytes → Option Time) (handler : LineHandler S) (limit : ℕ)
    (positive : 0 < limit) where
  -- What a write of a line leaves, after the handler has answered: where it returned an error, the line
  -- is still in the buffer.
  abbrev pub after_emit : LineWriter → Bytes → Errors × S → Outcome S
  after_emit w line ([], s) = ([], (reset w, s))
  after_emit w line (x ∷ xs, s) = (x ∷ xs, (record w { buffer = line; truncated = false }, s))

  write_nil :
      (w : LineWriter) (s : S) → write parse_time handler limit [] (reset w) s ≡ ([], (reset w, s))
  unfolding write write_loop
  write_nil w s = refl

  answered :
      (line : Bytes) (w : LineWriter) (r : Errors × S)
      → (elim r.0 [
        | [] ↦ write parse_time handler limit [] (reset w) r.1
        | x ∷ xs ↦ (x ∷ xs, (record w { buffer = line; truncated = false }, r.1))
      ])
        ≡ after_emit w line r
  answered line w ([], s) = write_nil w s
  answered line w (x ∷ xs, s) = refl

  pub write_whole :
      (line : Bytes) (w : LineWriter) (s : S)
      → Lacks b'\n' line
      → length line ≤ limit
      → write parse_time handler limit (line ++ (b'\n' ∷ [])) (reset w) s
        ≡ after_emit w line (emit_line parse_time handler w (trim_right_byte b'\r' line) false s)
  unfolding emit_line
  write_whole line w s lacks fits =
      let no_cut : ltb limit (length line) ≡ false = ground (arith, fits) in
      let finish : Bytes → Bool → Outcome S = λ x t.
        finish_line parse_time handler (record w { buffer = x; truncated = t }) t
          (write parse_time handler limit []) s in
      write_line parse_time handler limit positive line [] w s lacks
      ∙ ap (finish (take limit line)) no_cut
      ∙ ap (λ x. finish x false) (take_all limit line fits)
      ∙ answered line w (emit_line parse_time handler w (trim_right_byte b'\r' line) false s)

  -- Flush of a writer between lines, and of one whose handler has returned an error.
  pub flush-reset :
      (w : LineWriter) (s : S) → flush parse_time handler (reset w) s ≡ ([], (reset w, s))
  unfolding flush
  flush-reset w s = refl

  pub flush_held :
      (line : Bytes) (w : LineWriter) (s : S)
      → (flush parse_time handler (record w { buffer = line; truncated = false }) s).1.1
        ≡ (emit_line parse_time handler w (trim_right_byte b'\r' line) false s).1
  unfolding flush emit_line trim_right_byte trim_space is_empty
  flush_held [] w s = refl
  flush_held (c ∷ line) w s = refl
