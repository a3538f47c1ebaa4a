-- ===== src/Parser/Parse/Chain.antt =====
-- internal/parser/parser.go: Parse over many lines, with the history of the lines as a reference.
use docker_monitor.Model.{LogEvent, RawLog, Time}
use docker_monitor.Parser.ChainBlocker.{ChainBlocker, blocked}
use docker_monitor.Parser.ChainBlocker.History.{
  AskedBy, Call, after, ask_at, block_at, blocker, expiry, is_silent, last_block, last_block-empty,
  run, run-blocked,
}
use docker_monitor.Parser.Parse.{Parser, decide, event_of, is_excluded, keep, parse}
use docker_monitor.Parser.Runtime.{Runtime}
use docker_monitor.Prelude.{
  Bool, Bool-cases, List, Option, [], ap, arith, false, if◌then◌else◌, inl, inr, length, none, not,
  refl, some, ℕ, ◌&&◌, ◌||◌, ◌∙◌, ◌∷◌, ◌≡◌, ◌≤◌,
}
use docker_monitor.Prelude.Bytes.{Bytes, is_empty, is_empty_iff, str_eq, str_eq_iff}
use docker_monitor.Prelude.Bytes.Space.{trim_space}

module _ (go : Runtime) (p : Parser go) where
  abbrev pub Line : Type 0
  Line = RawLog × Time

  -- The state of the blocker after the lines.
  abbrev pub parse_lines : Option ChainBlocker → List Line → Option ChainBlocker
  parse_lines b [] = b
  parse_lines b ((raw, now) ∷ lines) = (parse go p raw now (parse_lines b lines)).1

  abbrev pub line_id : RawLog → Bytes
  line_id raw = (event_of go p raw (trim_space raw.line)).log_id

  abbrev pub line_excluded : RawLog → Bool
  line_excluded raw =
      not (is_empty (trim_space raw.line))
      && is_excluded go p (trim_space raw.line) (event_of go p raw (trim_space raw.line))

  -- When the last excluded line of a log id came.
  abbrev pub last_excluded : Bytes → List Line → Option Time
  last_excluded id [] = none
  last_excluded id ((raw, now) ∷ lines) =
      let earlier = last_excluded id lines in
      if line_excluded raw && str_eq (line_id raw) id then some now else earlier

  -- What Parse should return after the lines.
  abbrev pub parse_expected : ℕ → List Line → RawLog → Time → Option LogEvent
  parse_expected ttl lines raw now =
      let event = event_of go p raw (trim_space raw.line) in
      let silent =
        not (str_eq event.log_id p.unknown_log_id)
        && not (is_empty event.log_id)
        && after now (expiry ttl (last_excluded event.log_id lines)) in
      if is_empty (trim_space raw.line) || line_excluded raw || silent
      then none
      else keep go p event

  abbrev calls_of : List Line → List Call
  calls_of [] = []
  calls_of ((raw, now) ∷ lines) =
      let calls = calls_of lines in
      if is_empty (trim_space raw.line) || str_eq (line_id raw) p.unknown_log_id
      then calls
      else if line_excluded raw
      then block_at (line_id raw) now ∷ calls
      else ask_at (line_id raw) now ∷ calls

  parse-call :
      (raw : RawLog) (now : Time) (b : Option ChainBlocker)
      → (parse go p raw now b).1 ≡ run b (calls_of ((raw, now) ∷ []))
  unfolding parse decide
  parse-call raw now b = elim (Bool-cases (is_empty (trim_space raw.line))) [
    | inl blank ↦ rw (parse, blank) refl
    | inr written ↦
        elim (Bool-cases
          (is_excluded go p (trim_space raw.line) (event_of go p raw (trim_space raw.line)))) [
            | inl out ↦ elim (Bool-cases (str_eq (line_id raw) p.unknown_log_id)) [
              | inl unknown ↦ rw (parse, written, out, decide, unknown) refl
              | inr known ↦ rw (parse, written, out, decide, known) refl
            ]
            | inr kept ↦ elim (Bool-cases (str_eq (line_id raw) p.unknown_log_id)) [
              | inl unknown ↦ rw (parse, written, kept, decide, unknown) refl
              | inr known ↦ rw (parse, written, kept, decide, known) refl
            ]
          ]
  ]

  run-calls_of :
      (raw : RawLog) (now : Time) (b : Option ChainBlocker) (lines : List Line)
      → run (run b (calls_of lines)) (calls_of ((raw, now) ∷ []))
        ≡ run b (calls_of ((raw, now) ∷ lines))
  run-calls_of raw now b lines =
      elim (Bool-cases (is_empty (trim_space raw.line) || str_eq (line_id raw) p.unknown_log_id)) [
        | inl ignored ↦ rw ignored refl
        | inr seen ↦ elim (Bool-cases (line_excluded raw)) [
          | inl out ↦ rw (seen, out) refl
          | inr kept ↦ rw (seen, kept) refl
        ]
      ]

  parse_lines-run :
      (b : Option ChainBlocker) (lines : List Line) → parse_lines b lines ≡ run b (calls_of lines)
  parse_lines-run b [] = refl
  parse_lines-run b ((raw, now) ∷ lines) =
      parse-call raw now (parse_lines b lines)
      ∙ ap (λ x. run x (calls_of ((raw, now) ∷ []))) (parse_lines-run b lines)
      ∙ run-calls_of raw now b lines

  -- The event that Parse returns, from the answer of the blocker.
  pub parse-answer :
      (raw : RawLog) (now : Time) (b : Option ChainBlocker)
      → (parse go p raw now b).0 ≡ (
          if is_empty (trim_space raw.line) || line_excluded raw
          then none
          else if not (str_eq (line_id raw) p.unknown_log_id) && (blocked (line_id raw) now b).0
          then none
          else keep go p (event_of go p raw (trim_space raw.line)))
  unfolding parse decide
  parse-answer raw now b = elim (Bool-cases (is_empty (trim_space raw.line))) [
    | inl blank ↦ rw (parse, blank) refl
    | inr written ↦
        elim (Bool-cases
          (is_excluded go p (trim_space raw.line) (event_of go p raw (trim_space raw.line)))) [
            | inl out ↦ rw (parse, written, out, decide) refl
            | inr kept ↦ elim (Bool-cases (str_eq (line_id raw) p.unknown_log_id)) [
              | inl unknown ↦ rw (parse, written, kept, decide, unknown) refl
              | inr known ↦ rw (parse, written, kept, decide, known) refl
            ]
          ]
  ]

  last_block-calls_of :
      (id : Bytes) (lines : List Line)
      → str_eq id p.unknown_log_id ≡ false
      → is_empty id ≡ false
      → last_block id (calls_of lines) ≡ last_excluded id lines
  last_block-calls_of id [] ne named = refl
  last_block-calls_of id ((raw, now) ∷ lines) ne named =
      let h = last_block-calls_of id lines ne named in
      elim (Bool-cases (is_empty (trim_space raw.line) || str_eq (line_id raw) p.unknown_log_id)) [
        | inl ignored ↦
            let other : (line_excluded raw && str_eq (line_id raw) id) ≡ false = ground (
              arith,
              ignored,
              str_eq_iff (line_id raw) p.unknown_log_id,
              str_eq_iff (line_id raw) id,
              str_eq_iff id p.unknown_log_id,
            ) in
            rw (ignored, other) h
        | inr seen ↦ elim (Bool-cases (line_excluded raw)) [
          | inl out ↦ rw (seen, out) (ground (arith, h, str_eq_iff (line_id raw) id))
          | inr kept ↦ rw (seen, kept) h
        ]
      ]

  length-calls_of : (lines : List Line) → length (calls_of lines) ≤ length lines
  length-calls_of [] = omega arith
  length-calls_of ((raw, now) ∷ lines) = ground (arith, length-calls_of lines)

  -- No line came after `t`.
  abbrev pub ComeBy : Time → List Line → Type 0
  ComeBy t [] = Unit
  ComeBy t ((raw, now) ∷ lines) = (now ≤ t) × ComeBy t lines

  AskedBy-calls_of : (t : Time) (lines : List Line) → ComeBy t lines → AskedBy t (calls_of lines)
  AskedBy-calls_of t [] h = tt
  AskedBy-calls_of t ((raw, now) ∷ lines) h =
      let rest = AskedBy-calls_of t lines h.1 in
      elim (Bool-cases (is_empty (trim_space raw.line) || str_eq (line_id raw) p.unknown_log_id)) [
        | inl ignored ↦ rw ignored rest
        | inr seen ↦ elim (Bool-cases (line_excluded raw)) [
          | inl out ↦ rw (seen, out) rest
          | inr kept ↦ rw (seen, kept) (h.0, rest)
        ]
      ]

  -- After no more lines than the blocker may hold ids, none of which came later, Parse returns what
  -- the history of the lines says: nothing for a blank line, an excluded line, a line that neither
  -- alerts nor has a log id, and a line whose log id was that of an excluded line, the last of which
  -- came less than the time to live ago; and the event that was read for every other line.
  pub parse-expected :
      (ttl max_entries : ℕ) (lines : List Line) (raw : RawLog) (now : Time)
      → length lines ≤ max_entries
      → ComeBy now lines
      → (parse go p raw now (parse_lines (some (blocker ttl max_entries [])) lines)).0
        ≡ parse_expected ttl lines raw now
  parse-expected ttl max_entries lines raw now le come =
      let b = some (blocker ttl max_entries []) in
      let answer : (blocked (line_id raw) now (parse_lines b lines)).0
          ≡ is_silent ttl (line_id raw) now (calls_of lines) =
        rw (parse_lines-run b lines) (
          run-blocked ttl max_entries (calls_of lines) (line_id raw) now
            (omega (arith, length-calls_of lines)) (AskedBy-calls_of now lines come)) in
      rw (parse-answer raw now (parse_lines b lines), answer)
        (elim (Bool-cases (str_eq (line_id raw) p.unknown_log_id)) [
          | inl unknown ↦ rw unknown (ground arith)
          | inr known ↦ elim (Bool-cases (is_empty (line_id raw))) [
            | inl empty ↦
                let nothing : last_block (line_id raw) (calls_of lines) ≡ none =
                  ap (λ id. last_block id (calls_of lines)) ((is_empty_iff (line_id raw)).0 empty)
                  ∙ last_block-empty (calls_of lines) in
                rw nothing (ground (arith, empty, known))
            | inr named ↦
                rw (last_block-calls_of (line_id raw) lines known named)
                  (ground (arith, named, known))
          ]
        ])
