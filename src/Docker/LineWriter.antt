-- ===== src/Docker/LineWriter.antt =====
-- lineWriter of internal/docker/logs.go: it cuts what is written to it into lines, each of at most
-- `limit` bytes (maxDockerLogLineSize), and hands them to a handler.
pub mod Feed
pub mod Refine
pub mod Lines
pub mod Whole
mod Tests
use docker_monitor.Model.{ContainerInfo, Errors, RawLog, Time}
use docker_monitor.Prelude.{
  Bool, Option, [], drop, false, if◌then◌else◌, leb, length, none, some, suc, take, true, zero, ℕ,
  ◌*◌, ◌++◌, ◌-◌, ◌^◌, ◌∷◌,
}
use docker_monitor.Prelude.Bytes.{Bytes, is_empty, text}
use docker_monitor.Prelude.Bytes.Index.{index_byte}
use docker_monitor.Prelude.Bytes.Space.{trim_right_byte, trim_space}

abbrev pub max_docker_log_line_size : ℕ
max_docker_log_line_size = 2 ^ 20

abbrev pub truncated_suffix : Bytes
truncated_suffix = text " [truncated: docker log line exceeded limit]"

pub record LineWriter : Type 0 where
  pub container : ContainerInfo
  pub stream : Bytes
  pub buffer : Bytes
  pub truncated : Bool

-- A LineHandler with state S: its error, and the state that it leaves.
abbrev pub LineHandler : Type 0 → Type 0
LineHandler S = RawLog → S → Errors × S

abbrev pub Outcome : Type 0 → Type 0
Outcome S = Errors × (LineWriter × S)

-- The state in which a line begins.
abbrev pub reset : LineWriter → LineWriter
reset w = record w { buffer = []; truncated = false }

-- `idx >= 0 && idx <= available`
abbrev pub within : ℕ → Option ℕ → Option ℕ
within available none = none
within available (some i) = if leb i available then some i else none

-- `parse_time` is time.Parse with the layout RFC3339Nano.
module _ {S : Type 0} (parse_time : Bytes → Option Time) (handler : LineHandler S) where
  -- The parts of strings.SplitN(line, " ", 2), where there are two.
  dated : Bytes → Bytes → Bytes → Time × Bytes
  dated line stamp rest = elim (parse_time stamp) [ none ↦ (0, line) | some ts ↦ (ts, rest) ]

  unfoldable pub split_docker_timestamp : Bytes → Time × Bytes
  unfolding dated index_byte
  split_docker_timestamp line = elim (index_byte b' ' line) [
    | none ↦ (0, line)
    | some i ↦ dated line (take i line) (drop (suc i) line)
  ]

  unfoldable pub emit_line : LineWriter → Bytes → Bool → S → Errors × S
  unfolding split_docker_timestamp
  emit_line w line truncated s =
      let content = if truncated then line ++ truncated_suffix else line in
      let (ts, body) = split_docker_timestamp content in
      let sent =
        handler (record { timestamp = ts; container = w.container; stream = w.stream; line = body })
          s in
      if is_empty (trim_space line) then ([], s) else sent

  -- `if err := w.emitLine(bytes.TrimRight(w.buffer, "\r"), …); err != nil { return 0, err }`, then
  -- the reset, and `next` for the rest of the input.
  abbrev pub finish_line : LineWriter → Bool → (LineWriter → S → Outcome S) → S → Outcome S
  finish_line w truncated next s =
      let (e, s') = emit_line w (trim_right_byte b'\r' w.buffer) truncated s in
      elim e [ [] ↦ next (reset w) s' | x ∷ xs ↦ (x ∷ xs, (w, s')) ]

  module _ (limit : ℕ) where
    -- The body of the loop of Write, on what is left of the input, in three parts; `again` goes
    -- round. While a line is being cut, all is thrown away up to its newline.
    pub skip_line :
        (Bytes → LineWriter → S → Outcome S) → Bytes → LineWriter → S → Option ℕ → Outcome S
    skip_line again remaining w s none = ([], (w, s))
    skip_line again remaining w s (some i) = finish_line w true (again (drop (suc i) remaining)) s

    -- No newline comes in time: the rest is kept, or as much of it as there is room for.
    pub keep_part : (Bytes → LineWriter → S → Outcome S) → Bytes → LineWriter → S → Bool → Outcome S
    keep_part again remaining w s true = ([], (record w { buffer = w.buffer ++ remaining }, s))
    keep_part again remaining w s false =
        let available = limit - length w.buffer in
        again (drop available remaining)
          (record w { buffer = w.buffer ++ take available remaining; truncated = true }) s

    pub fill_line :
        (Bytes → LineWriter → S → Outcome S) → Bytes → LineWriter → S → Option ℕ → Outcome S
    fill_line again remaining w s none =
        keep_part again remaining w s (leb (length remaining) (limit - length w.buffer))
    fill_line again remaining w s (some i) =
        finish_line (record w { buffer = w.buffer ++ take i remaining }) false
          (again (drop (suc i) remaining)) s

    pub write_body : (Bytes → LineWriter → S → Outcome S) → Bytes → LineWriter → S → Outcome S
    write_body again remaining w s =
        let available = limit - length w.buffer in
        if w.truncated
        then skip_line again remaining w s (index_byte b'\n' remaining)
        else if leb available 0
        then again remaining (record w { truncated = true }) s
        else fill_line again remaining w s (within available (index_byte b'\n' remaining))

    -- The loop of Write, on fuel.
    pub write_loop : ℕ → Bytes → LineWriter → S → Outcome S
    write_loop zero remaining w s = ([], (w, s))
    write_loop (suc fuel) [] w s = ([], (w, s))
    write_loop (suc fuel) (c ∷ cs) w s = write_body (write_loop fuel) (c ∷ cs) w s

    -- Write
    pub write : Bytes → LineWriter → S → Outcome S
    unfolding write_loop write_body skip_line fill_line keep_part emit_line
    write p w s = write_loop (suc (suc (2 * length p))) p w s

  -- Flush
  pub flush : LineWriter → S → Outcome S
  flush w s =
      let (e, s') = emit_line w (trim_right_byte b'\r' w.buffer) w.truncated s in
      elim w.buffer [ [] ↦ ([], (record w { truncated = false }, s)) | c ∷ cs ↦ (e, (reset w, s')) ]
