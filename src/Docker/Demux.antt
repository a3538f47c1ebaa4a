-- ===== src/Docker/Demux.antt =====
-- copyDockerLogs of internal/docker/logs.go: it takes the stream of a container's log apart into
-- frames, and writes their payloads to two writers. The reader is the bytes that it yields and what
-- comes behind them; the state W is that of both writers.
pub mod Frames
mod Tests
use docker_monitor.Model.{Errors}
use docker_monitor.Prelude.{
  Bool, List, [], drop, false, if◌then◌else◌, leb, length, ltb, suc, take, zero, ℕ, ◌&&◌, ◌*◌, ◌++◌,
  ◌+◌, ◌==◌, ◌^◌, ◌||◌, ◌∷◌,
}
use docker_monitor.Prelude.Bytes.{Bytes, text}

pub data Ending : Type 0 where
  eof : Ending
  broken : Bytes → Ending

pub record Writers (W : Type 0) : Type 0 where
  pub stdout : Bytes → W → Errors × W
  pub stderr : Bytes → W → Errors × W

abbrev pub max_docker_log_frame_size : ℕ
max_docker_log_frame_size = 4 * 2 ^ 20

abbrev pub frame_too_large : Bytes
frame_too_large = text "docker log frame exceeds 4194304 bytes"

-- io.ReadFull into n bytes: these and what is left, or too few.
pub data Chunk : Type 0 where
  short : Chunk
  full : Bytes → Bytes → Chunk

unfoldable pub read_full : ℕ → Bytes → Chunk
read_full n input = if leb n (length input) then full (take n input) (drop n input) else short

-- binary.BigEndian.Uint32(header[4:]), and header[0]
abbrev pub frame_size : Bytes → ℕ
frame_size (_ ∷ _ ∷ _ ∷ _ ∷ a ∷ b ∷ c ∷ d ∷ _) = a * 2 ^ 24 + b * 2 ^ 16 + c * 2 ^ 8 + d
frame_size _ = 0

abbrev pub stream_type : Bytes → ℕ
stream_type [] = 0
stream_type (t ∷ _) = t

unfoldable pub looks_like_mux_header : Bytes → Bool
looks_like_mux_header (t ∷ a ∷ b ∷ c ∷ _ ∷ _ ∷ _ ∷ _ ∷ []) =
    (t == 1 || t == 2) && a == 0 && b == 0 && c == 0
looks_like_mux_header _ = false

-- The error with which a read beyond the end is answered: none at io.EOF and io.ErrUnexpectedEOF.
abbrev pub end_error : Ending → Errors
end_error eof = []
end_error (broken e) = e ∷ []

-- The loop of io.Copy over the pieces in which it reads.
unfoldable pub copy_pieces :
    {W : Type 0} → (Bytes → W → Errors × W) → List Bytes → Ending → W → Errors × W
copy_pieces put [] ending w = (end_error ending, w)
copy_pieces put (p ∷ ps) ending w =
    let (e, w') = put p w in elim e [ [] ↦ copy_pieces put ps ending w' | x ∷ xs ↦ (x ∷ xs, w') ]

module _ {W : Type 0} (out : Writers W) (ending : Ending) where
  -- `switch streamType`
  abbrev pub write_to : ℕ → Bytes → W → Errors × W
  write_to stream payload w = if stream == 2 then out.stderr payload w else out.stdout payload w

  pub next_header : (Bytes → Bytes → W → Errors × W) → Chunk → W → Errors × W
  next_header again short w = (end_error ending, w)
  next_header again (full header rest) w = again header rest w

  pub after_write : (Bytes → Bytes → W → Errors × W) → Bytes → Errors × W → Errors × W
  after_write again rest (x ∷ xs, w) = (x ∷ xs, w)
  after_write again rest ([], w) = next_header again (read_full 8 rest) w

  pub with_payload : (Bytes → Bytes → W → Errors × W) → ℕ → Chunk → W → Errors × W
  with_payload again stream short w = (end_error ending, w)
  with_payload again stream (full payload rest) w =
      after_write again rest (write_to stream payload w)

  -- The loop over the frames, on fuel, from a header that has been read.
  pub copy_frames : ℕ → Bytes → Bytes → W → Errors × W
  copy_frames zero header rest w = ([], w)
  copy_frames (suc fuel) header rest w =
      if ltb max_docker_log_frame_size (frame_size header)
      then (frame_too_large ∷ [], w)
      else with_payload (copy_frames fuel) (stream_type header) (read_full (frame_size header) rest)
          w

  -- `if err != nil` of the first read
  pub short_start : Ending → Bytes → W → Errors × W
  short_start eof [] w = ([], w)
  short_start eof (c ∷ cs) w = out.stdout (c ∷ cs) w
  short_start (broken e) input w = (e ∷ [], w)

  -- `pieces` is how io.Copy reads.
  pub copy_start : (Bytes → List Bytes) → ℕ → Bytes → Chunk → W → Errors × W
  copy_start pieces fuel input short w = short_start ending input w
  copy_start pieces fuel input (full header rest) w =
      if looks_like_mux_header header
      then copy_frames fuel header rest w
      else copy_pieces out.stdout (pieces (header ++ rest)) ending w

  pub copy_docker_logs : (Bytes → List Bytes) → Bytes → W → Errors × W
  unfolding copy_start short_start copy_frames with_payload after_write next_header
  copy_docker_logs pieces input w =
      copy_start pieces (suc (length input)) input (read_full 8 input) w
