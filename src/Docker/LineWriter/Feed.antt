-- ===== src/Docker/LineWriter/Feed.antt =====
-- internal/docker/logs.go: a line writer that takes one byte at a time, as a reference for Write.
use mathlib.Core.List.{append-nil, append_assoc}
use docker_monitor.Docker.LineWriter.{LineHandler, LineWriter, Outcome, finish_line}
use docker_monitor.Model.{Time}
use docker_monitor.Prelude.{
  Option, [], arith, false, ge→ltb, if◌then◌else◌, length, length-append, ltb, lt→ltb, refl, true,
  ℕ, ◌++◌, ◌+◌, ◌<◌, ◌==◌, ◌∙◌, ◌∷◌, ◌≡◌, ◌≤◌, ◌⊎◌,
}
use docker_monitor.Prelude.Bytes.{Bytes}
use docker_monitor.Prelude.Bytes.Index.{Lacks}

-- A byte that is no newline.
abbrev pub push : ℕ → ℕ → LineWriter → LineWriter
push limit c w =
    if w.truncated
    then w
    else if ltb (length w.buffer) limit
    then record w { buffer = w.buffer ++ c ∷ [] }
    else record w { truncated = true }

-- There is room in the buffer, or the line is being cut: the state in which Write loops.
abbrev pub IsOpen : ℕ → LineWriter → Type 0
IsOpen limit w = (w.truncated ≡ true) ⊎ (length w.buffer < limit)

module _ {S : Type 0} (parse_time : Bytes → Option Time) (handler : LineHandler S) (limit : ℕ) where
  unfoldable pub feed : Bytes → LineWriter → S → Outcome S
  feed [] w s = ([], (w, s))
  feed (c ∷ cs) w s = elim (c == b'\n') [
    | true ↦ finish_line parse_time handler w w.truncated (feed cs) s
    | false ↦ feed cs (push limit c w) s
  ]

  -- Bytes that are thrown away.
  pub feed-skip :
      (cs rest : Bytes) (w : LineWriter) (s : S)
      → Lacks b'\n' cs
      → w.truncated ≡ true
      → feed (cs ++ rest) w s ≡ feed rest w s
  unfolding feed
  feed-skip [] rest w s h t = refl
  feed-skip (c ∷ cs) rest w s h t =
      let same : push limit c w ≡ w = simp t in
      rw (h.0, feed) (rw same (feed-skip cs rest w s h.1 t))

  -- Bytes that fit.
  pub feed-fill :
      (cs rest : Bytes) (w : LineWriter) (s : S)
      → Lacks b'\n' cs
      → w.truncated ≡ false
      → length w.buffer + length cs ≤ limit
      → feed (cs ++ rest) w s ≡ feed rest (record w { buffer = w.buffer ++ cs }) s
  unfolding feed
  feed-fill [] rest w s h t fits = rw (append-nil w.buffer)
  feed-fill (c ∷ cs) rest w s h t fits =
      let room : ltb (length w.buffer) limit ≡ true = lt→ltb _ _ (omega arith) in
      let next : LineWriter = record w { buffer = w.buffer ++ c ∷ [] } in
      let same : push limit c w ≡ next = simp (t, room) in
      rw (h.0, feed)
        (rw same (
          feed-fill cs rest next s h.1 t (omega (arith, length-append w.buffer (c ∷ [])))
          ∙ simp append_assoc))

  -- A newline ends the line.
  pub feed_newline :
      (rest : Bytes) (w : LineWriter) (s : S)
      → feed (b'\n' ∷ rest) w s ≡ finish_line parse_time handler w w.truncated (feed rest) s
  unfolding feed
  feed_newline rest w s = refl

  -- The first byte that does not fit begins the cut.
  pub feed_over :
      (c : ℕ) (cs : Bytes) (w : LineWriter) (s : S)
      → (c == b'\n') ≡ false
      → w.truncated ≡ false
      → limit ≤ length w.buffer
      → feed (c ∷ cs) w s ≡ feed (c ∷ cs) (record w { truncated = true }) s
  unfolding feed
  feed_over c cs w s h t full =
      let over : ltb (length w.buffer) limit ≡ false = ge→ltb _ _ full in
      rw (h, feed) (simp (t, over))
