-- ===== src/Docker/Demux/Frames.antt =====
-- internal/docker/logs.go: copyDockerLogs on a stream of frames as the Docker daemon writes it.
use mathlib.Core.Path.{fun_ext}
use docker_monitor.Docker.Demux.{
  Ending, Writers, after_write, broken, copy_docker_logs, copy_frames, end_error, eof, frame_size,
  frame_too_large, full, looks_like_mux_header, max_docker_log_frame_size, next_header, read_full,
  short, short_start, with_payload, write_to,
}
use docker_monitor.Model.{Errors}
use docker_monitor.Prelude.{
  All, Bool, List, [], ap, arith, drop, false, ge→ltb, gt→leb, if◌then◌else◌, inl, inr, leb, length,
  length-append, le→leb, ltb, lt→ltb, refl, suc, take, true, zero, ℕ, ◌%◌, ◌++◌, ◌+◌, ◌-◌, ◌/◌, ◌<◌,
  ◌^◌, ◌∙◌, ◌∷◌, ◌≡◌, ◌≤◌, ◌⊎◌,
}
use docker_monitor.Prelude.Bytes.{Bytes}

-- One frame: on stderr or stdout, and its payload.
pub record Frame : Type 0 where
  pub on_stderr : Bool
  pub payload : Bytes

abbrev big_endian : ℕ → Bytes → Bytes
big_endian n rest = (n / 2 ^ 24 % 256) ∷ (n / 2 ^ 16 % 256) ∷ (n / 2 ^ 8 % 256) ∷ (n % 256) ∷ rest

abbrev stream_byte : Bool → ℕ
stream_byte true = 2
stream_byte false = 1

-- The header of a frame, before what follows it.
abbrev pub header_onto : Bool → ℕ → Bytes → Bytes
header_onto on_stderr size rest = stream_byte on_stderr ∷ 0 ∷ 0 ∷ 0 ∷ big_endian size rest

unfoldable pub encode : List Frame → Bytes → Bytes
encode [] rest = rest
encode (f ∷ fs) rest = header_onto f.on_stderr (length f.payload) (f.payload ++ encode fs rest)

-- Payloads that the daemon may send.
abbrev pub Fits : List Frame → Type 0
Fits = All (λ (f : Frame). length f.payload ≤ max_docker_log_frame_size)

frame_size-header : (s : Bool) (n : ℕ) → n < 2 ^ 32 → frame_size (header_onto s n []) ≡ n
frame_size-header s n h = omega arith

length_nat : (n : ℕ) (p rest : Bytes) → length p ≡ n → leb n (length (p ++ rest)) ≡ true
length_nat n p rest e = le→leb _ _ (omega (arith, length-append p rest))

take-append : (p rest : Bytes) → take (length p) (p ++ rest) ≡ p
take-append [] rest = refl
take-append (c ∷ p) rest = ap (◌∷◌ c) (take-append p rest)

drop-append : (p rest : Bytes) → drop (length p) (p ++ rest) ≡ rest
drop-append [] rest = refl
drop-append (c ∷ p) rest = drop-append p rest

read_full-append : (p rest : Bytes) → read_full (length p) (p ++ rest) ≡ full p rest
unfolding read_full
read_full-append p rest =
    rw (length_nat (length p) p rest refl) (rw (take-append p rest, drop-append p rest))

read_full-header :
    (s : Bool) (n : ℕ) (rest : Bytes)
    → read_full 8 (header_onto s n rest) ≡ full (header_onto s n []) rest
read_full-header s n rest = read_full-append (header_onto s n []) rest

module _ {W : Type 0} (out : Writers W) (ending : Ending) where
  -- The payloads, each to its writer, up to the first error; then `next`.
  unfoldable pub write_all : List Frame → (W → Errors × W) → W → Errors × W
  write_all [] next w = next w
  write_all (f ∷ fs) next w =
      let (e, w') = (if f.on_stderr then out.stderr f.payload w else out.stdout f.payload w) in
      elim e [ [] ↦ write_all fs next w' | x ∷ xs ↦ (x ∷ xs, w') ]

  -- The loop at the boundary between two frames.
  abbrev boundary : ℕ → Bytes → W → Errors × W
  boundary fuel input w = next_header out ending (copy_frames out ending fuel) (read_full 8 input) w

  one_frame :
      (s : Bool) (p rest : Bytes) (fuel : ℕ) (w : W)
      → length p ≤ max_docker_log_frame_size
      → boundary (suc fuel) (header_onto s (length p) (p ++ rest)) w
        ≡ after_write out ending
            (copy_frames out ending fuel)
            rest
            (if s then out.stderr p w else out.stdout p w)
  unfolding next_header copy_frames with_payload after_write
  one_frame s p rest fuel w fits =
      let size = frame_size-header s (length p) (omega (arith, fits)) in
      rw (read_full-header s (length p) (p ++ rest), next_header)
        (rw size (
          rw (gt→leb_ltb fits) (
            rw (read_full-append p rest, with_payload)
              (ap (λ x. after_write out ending (copy_frames out ending fuel) rest x) (choice s)))))
    where
      gt→leb_ltb :
          length p ≤ max_docker_log_frame_size → ltb max_docker_log_frame_size (length p) ≡ false
      gt→leb_ltb h = ge→ltb _ _ h

      choice :
          (s : Bool)
          → write_to out ending (stream_byte s) p w ≡ (if s then out.stderr p w else out.stdout p w)
      choice true = refl
      choice false = refl

  boundary-encode :
      (fs : List Frame) (n fuel : ℕ) (tail : Bytes) (w : W)
      → n ≡ length fs + fuel
      → Fits fs
      → boundary n (encode fs tail) w ≡ write_all fs (boundary fuel tail) w
  unfolding encode write_all after_write next_header
  boundary-encode [] n fuel tail w e fits =
      let same : n ≡ fuel = omega arith in ap (λ k. boundary k tail w) same
  boundary-encode (f ∷ fs) zero fuel tail w e fits = absurd (omega arith)
  boundary-encode (f ∷ fs) (suc n) fuel tail w e fits =
      one_frame f.on_stderr f.payload (encode fs tail) n w fits.0
      ∙ go (if f.on_stderr then out.stderr f.payload w else out.stdout f.payload w)
          (λ x. boundary-encode fs n fuel tail x (omega arith) fits.1)
    where
      go :
          (r : Errors × W)
          → ((x : W) → boundary n (encode fs tail) x ≡ write_all fs (boundary fuel tail) x)
          → ◌≡◌ {A = Errors × W}
              (after_write out ending (copy_frames out ending n) (encode fs tail) r)
              (elim r.0 [ [] ↦ write_all fs (boundary fuel tail) r.1 | y ∷ ys ↦ (y ∷ ys, r.1) ])
      go ([], x) h = h x
      go (y ∷ ys, x) h = refl

  length-encode : (fs : List Frame) (tail : Bytes) → length fs ≤ length (encode fs tail)
  unfolding encode
  length-encode [] tail = omega arith
  length-encode (f ∷ fs) tail =
      omega (arith, length-encode fs tail, length-append f.payload (encode fs tail))

  boundary_short :
      (k : ℕ) (tail : Bytes) (w : W) → length tail < 8 → boundary k tail w ≡ (end_error ending, w)
  unfolding read_full next_header
  boundary_short k tail w h = rw (gt→leb _ _ h)

  boundary_cut :
      (k : ℕ) (s : Bool) (n : ℕ) (part : Bytes) (w : W)
      → n ≤ max_docker_log_frame_size
      → length part < n
      → boundary (suc k) (header_onto s n part) w ≡ (end_error ending, w)
  unfolding next_header copy_frames with_payload
  boundary_cut k s n part w fits cut =
      let missing : read_full n part ≡ short = unfold read_full in rw (gt→leb _ _ cut) in
      rw (read_full-header s n part, next_header)
        (rw (frame_size-header s n (omega (arith, fits)))
          (rw (ge→ltb max_docker_log_frame_size n fits) (rw (missing, with_payload))))

  boundary_large :
      (k : ℕ) (s : Bool) (n : ℕ) (rest : Bytes) (w : W)
      → max_docker_log_frame_size < n
      → n < 2 ^ 32
      → boundary (suc k) (header_onto s n rest) w ≡ (frame_too_large ∷ [], w)
  unfolding next_header copy_frames
  boundary_large k s n rest w large word =
      rw (read_full-header s n rest, next_header)
        (rw (frame_size-header s n word) (rw (lt→ltb max_docker_log_frame_size n large)))

  short_start_nil : (e : Ending) (w : W) → short_start out ending e [] w ≡ (end_error e, w)
  unfolding short_start
  short_start_nil eof w = refl
  short_start_nil (broken e) w = refl

  module _ (pieces : Bytes → List Bytes) where
    copy-boundary :
        (s : Bool) (n : ℕ) (rest : Bytes) (w : W)
        → copy_docker_logs out ending pieces (header_onto s n rest) w
          ≡ boundary (suc (length (header_onto s n rest))) (header_onto s n rest) w
    unfolding copy_docker_logs looks_like_mux_header
    copy-boundary true n rest w = rw (read_full-header true n rest)
    copy-boundary false n rest w = rw (read_full-header false n rest)

    copy-encode :
        (f : Frame) (fs : List Frame) (tail : Bytes) (w : W)
        → Fits (f ∷ fs)
        → (k : ℕ) × (copy_docker_logs out ending pieces (encode (f ∷ fs) tail) w
            ≡ write_all (f ∷ fs) (boundary (suc k) tail) w)
    unfolding encode
    copy-encode f fs tail w fits =
        let size = length (encode (f ∷ fs) tail) in
        (
          size - length (f ∷ fs),
          copy-boundary f.on_stderr (length f.payload) (f.payload ++ encode fs tail) w
              ∙ boundary-encode (f ∷ fs) (suc size) (suc (size - length (f ∷ fs))) tail w
                  (omega (arith, length-encode (f ∷ fs) tail)) fits,
        )

    -- A stream of frames, each of at most 4 MiB: every payload is written to the writer of its
    -- stream, in the order of the frames, up to the first error of a writer, which is returned. At
    -- the end of the stream the result is nil, or the error of the reader.
    pub copy_docker_logs-encode :
        (fs : List Frame) (w : W)
        → Fits fs
        → copy_docker_logs out ending pieces (encode fs []) w
          ≡ write_all fs (λ x. (end_error ending, x)) w
    copy_docker_logs-encode [] w fits =
        unfold copy_docker_logs encode write_all read_full in short_start_nil ending w
    copy_docker_logs-encode (f ∷ fs) w fits =
        let (k, e) = copy-encode f fs [] w fits in
        e
        ∙ ap (λ next. write_all (f ∷ fs) next w)
            (fun_ext (λ x. boundary_short (suc k) [] x (omega arith)))

    -- The same where the stream breaks off in the middle of a frame, in its header or in its
    -- payload: what there is of the last frame is dropped, and that is no error.
    pub copy_docker_logs-cut :
        (f : Frame) (fs : List Frame) (tail : Bytes) (w : W)
        → Fits (f ∷ fs)
        → (length tail < 8)
          ⊎ ((s : Bool) × (n : ℕ) × (part : Bytes) × (n ≤ max_docker_log_frame_size)
              × (length part < n)
              × (tail ≡ header_onto s n part))
        → copy_docker_logs out ending pieces (encode (f ∷ fs) tail) w
          ≡ write_all (f ∷ fs) (λ x. (end_error ending, x)) w
    copy_docker_logs-cut f fs tail w fits h =
        let (k, e) = copy-encode f fs tail w fits in
        e ∙ ap (λ next. write_all (f ∷ fs) next w) (fun_ext (λ x. ended k x h))
      where
        ended :
            (k : ℕ) (x : W)
            → (length tail < 8)
              ⊎ ((s : Bool) × (n : ℕ) × (part : Bytes) × (n ≤ max_docker_log_frame_size)
                  × (length part < n)
                  × (tail ≡ header_onto s n part))
            → boundary (suc k) tail x ≡ (end_error ending, x)
        ended k x (inl h) = boundary_short (suc k) tail x h
        ended k x (inr (s, n, part, fits', cut, e)) = rw e (boundary_cut k s n part x fits' cut)

    -- A frame that claims to be larger ends the copying with an error, after the frames before it.
    pub copy_docker_logs-too_large :
        (fs : List Frame) (s : Bool) (n : ℕ) (rest : Bytes) (w : W)
        → Fits fs
        → max_docker_log_frame_size < n
        → n < 2 ^ 32
        → copy_docker_logs out ending pieces (encode fs (header_onto s n rest)) w
          ≡ write_all fs (λ x. (frame_too_large ∷ [], x)) w
    copy_docker_logs-too_large [] s n rest w fits large word =
        unfold encode write_all in
        copy-boundary s n rest w
        ∙ boundary_large (length (header_onto s n rest)) s n rest w large word
    copy_docker_logs-too_large (f ∷ fs) s n rest w fits large word =
        let (k, e) = copy-encode f fs (header_onto s n rest) w fits in
        e
        ∙ ap (λ next. write_all (f ∷ fs) next w)
            (fun_ext (λ x. boundary_large k s n rest x large word))
