-- ===== src/Docker/LineWriter/Lines.antt =====
-- internal/docker/logs.go: Write on whole lines and on pieces of them.
use mathlib.Core.List.{append-nil, append_assoc}
use docker_monitor.Docker.LineWriter.{
  LineHandler, LineWriter, Outcome, emit_line, finish_line, reset, write,
}
use docker_monitor.Docker.LineWriter.Feed.{
  IsOpen, feed, feed-fill, feed-skip, feed_newline, feed_over, push,
}
use docker_monitor.Docker.LineWriter.Refine.{finish_line_cong, write-feed, write_full}
use docker_monitor.Model.{Errors, Time}
use docker_monitor.Prelude.{
  All-drop, Bool, Bool-cases, Option, [], ap, arith, drop, false, inl, inr, length, length-take_le,
  ltb, ltb→ge, ltb→lt, refl, suc, sym, take, take-append-drop, take_all, true, ℕ, ◌++◌, ◌<◌, ◌==◌,
  ◌∙◌, ◌∷◌, ◌≡◌, ◌≤◌,
}
use docker_monitor.Prelude.Bytes.{Bytes}
use docker_monitor.Prelude.Bytes.Index.{Lacks, Lacks-take, drop_head}
use docker_monitor.Prelude.Bytes.Space.{trim_right_byte}

-- Goes on after a write that returned no error.
abbrev pub and_then : {S : Type 0} → Outcome S → (LineWriter → S → Outcome S) → Outcome S
and_then ([], (w, s)) next = next w s
and_then (x ∷ xs, r) next = (x ∷ xs, r)

-- A writer that holds the beginning of a line, as much as one line may hold.
abbrev pub holding : ℕ → LineWriter → Bytes → LineWriter
holding limit w line = record w { buffer = take limit line; truncated = false }

module _ {S : Type 0} (parse_time : Bytes → Option Time) (handler : LineHandler S) (limit : ℕ) where
  finish_line-and_then :
      (w : LineWriter) (t : Bool) (f g k : LineWriter → S → Outcome S) (s : S)
      → ((x : S) → f (reset w) x ≡ and_then (g (reset w) x) k)
      → finish_line parse_time handler w t f s ≡ and_then (finish_line parse_time handler w t g s) k
  finish_line-and_then w t f g k s h =
      go (emit_line parse_time handler w (trim_right_byte b'\r' w.buffer) t s)
    where
      go :
          (r : Errors × S)
          → ◌≡◌ {A = Outcome S}
              (elim r.0 [ [] ↦ f (reset w) r.1 | x ∷ xs ↦ (x ∷ xs, (w, r.1)) ])
              (and_then (elim r.0 [ [] ↦ g (reset w) r.1 | x ∷ xs ↦ (x ∷ xs, (w, r.1)) ]) k)
      go ([], x) = h x
      go (e ∷ es, x) = refl

  feed-append :
      (p q : Bytes) (w : LineWriter) (s : S)
      → feed parse_time handler limit (p ++ q) w s
        ≡ and_then (feed parse_time handler limit p w s) (feed parse_time handler limit q)
  unfolding feed
  feed-append [] q w s = refl
  feed-append (c ∷ p) q w s = elim (Bool-cases (c == b'\n')) [
    | inl newline ↦
        rw (newline, feed)
          (finish_line-and_then w w.truncated (feed parse_time handler limit (p ++ q))
            (feed parse_time handler limit p) (feed parse_time handler limit q) s
            (λ x. feed-append p q (reset w) x))
    | inr other ↦ rw (other, feed) (feed-append p q (push limit c w) s)
  ]

module _ {S : Type 0} (parse_time : Bytes → Option Time) (handler : LineHandler S) (limit : ℕ)
    (positive : 0 < limit) where
  and_then-feed :
      (q : Bytes) (r : Outcome S)
      → IsOpen limit r.1.0
      → and_then r (feed parse_time handler limit q) ≡ and_then r (write parse_time handler limit q)
  and_then-feed q ([], (w, s)) o = sym (write-feed parse_time handler limit positive q w s o)
  and_then-feed q (x ∷ xs, r) o = refl

  -- Two writes have the outcome of one write of both pieces, where the buffer has room or a line is
  -- being cut before each of them.
  pub write-append :
      (p q : Bytes) (w : LineWriter) (s : S)
      → IsOpen limit w
      → IsOpen limit (write parse_time handler limit p w s).1.0
      → write parse_time handler limit (p ++ q) w s
        ≡ and_then (write parse_time handler limit p w s) (write parse_time handler limit q)
  write-append p q w s o o' =
      let same = write-feed parse_time handler limit positive p w s o in
      write-feed parse_time handler limit positive (p ++ q) w s o
      ∙ feed-append parse_time handler limit p q w s
      ∙ ap (λ r. and_then r (feed parse_time handler limit q)) (sym same)
      ∙ and_then-feed q (write parse_time handler limit p w s) o'

  long-feed :
      (line rest : Bytes) (w : LineWriter) (s : S)
      → Lacks b'\n' line
      → limit < length line
      → feed parse_time handler limit (line ++ (b'\n' ∷ rest)) (reset w) s
        ≡ finish_line parse_time handler
            (record (holding limit w line) { truncated = true })
            true
            (feed parse_time handler limit rest)
            s
  long-feed line rest w s lacks long =
      let (c, r, head, other) =
        drop_head b'\n' limit line long (Lacks-take b'\n' (suc limit) line lacks) in
      let tail = b'\n' ∷ rest in
      let w' = holding limit w line in
      ap (λ x. feed parse_time handler limit (x ++ tail) (reset w) s)
        (sym (take-append-drop limit line))
      ∙ ap (λ x. feed parse_time handler limit x (reset w) s)
          (append_assoc (take limit line) (drop limit line) tail)
      ∙ feed-fill parse_time handler limit (take limit line) (drop limit line ++ tail) (reset w) s
          (Lacks-take b'\n' limit line lacks) refl (omega (arith, length-take_le limit line))
      ∙ ap (λ x. feed parse_time handler limit (x ++ tail) w' s) head
      ∙ feed_over parse_time handler limit c (r ++ tail) w' s other refl
          (omega (arith, length-take_le limit line))
      ∙ ap (λ x. feed parse_time handler limit (x ++ tail) (record w' { truncated = true }) s)
          (sym head)
      ∙ feed-skip parse_time handler limit (drop limit line) tail (record w' { truncated = true }) s
          (All-drop _ limit line lacks) refl
      ∙ feed_newline parse_time handler limit rest (record w' { truncated = true }) s

  short-feed :
      (line rest : Bytes) (w : LineWriter) (s : S)
      → Lacks b'\n' line
      → length line ≤ limit
      → feed parse_time handler limit (line ++ (b'\n' ∷ rest)) (reset w) s
        ≡ finish_line parse_time handler
            (holding limit w line)
            false
            (feed parse_time handler limit rest)
            s
  short-feed line rest w s lacks short =
      feed-fill parse_time handler limit line (b'\n' ∷ rest) (reset w) s lacks refl
        (omega (arith, short))
      ∙ feed_newline parse_time handler limit rest (record w { buffer = line; truncated = false }) s
      ∙ ap
          (λ x.
            finish_line parse_time handler (record w { buffer = x; truncated = false }) false
              (feed parse_time handler limit rest) s)
          (sym (take_all limit line short))

  -- A writer at the start of a line emits the line, cut to the limit, marked as cut exactly if it is
  -- longer than the limit, and goes on behind the newline as if that were written next.
  pub write_line :
      (line rest : Bytes) (w : LineWriter) (s : S)
      → Lacks b'\n' line
      → write parse_time handler limit (line ++ (b'\n' ∷ rest)) (reset w) s
        ≡ finish_line parse_time handler
            (record (holding limit w line) { truncated = ltb limit (length line) })
            (ltb limit (length line))
            (write parse_time handler limit rest)
            s
  write_line line rest w s lacks =
      write-feed parse_time handler limit positive (line ++ (b'\n' ∷ rest)) (reset w) s
        (inr positive)
      ∙ elim (Bool-cases (ltb limit (length line))) [
        | inl long ↦ rw long (long-feed line rest w s lacks (ltb→lt _ _ long))
        | inr short ↦ rw short (short-feed line rest w s lacks (ltb→ge _ _ short))
      ]
      ∙ finish_line_cong parse_time handler limit positive _ _ (feed parse_time handler limit rest)
          (write parse_time handler limit rest) s
          (λ x. sym (write-feed parse_time handler limit positive rest (reset w) x (inr positive)))

  -- A line of exactly the limit whose newline comes with the next write is marked as cut, though
  -- nothing was cut off and `write_line` shows that it is not marked where both come at once.
  pub write_limit :
      (line : Bytes) (w : LineWriter) (s : S)
      → Lacks b'\n' line
      → length line ≡ limit
      → and_then
          (write parse_time handler limit line (reset w) s)
          (write parse_time handler limit (b'\n' ∷ []))
        ≡ finish_line parse_time handler
            (record (holding limit w line) { truncated = true })
            true
            (write parse_time handler limit [])
            s
  write_limit line w s lacks exact =
      let held = record w { buffer = line; truncated = false } in
      let filling : write parse_time handler limit line (reset w) s ≡ ([], (held, s)) =
        write-feed parse_time handler limit positive line (reset w) s (inr positive)
        ∙ ap (λ x. feed parse_time handler limit x (reset w) s) (sym (append-nil line))
        ∙ feed-fill parse_time handler limit line [] (reset w) s lacks refl (omega (arith, exact))
        ∙ (unfold feed in refl) in
      ap (λ r. and_then r (write parse_time handler limit (b'\n' ∷ []))) filling
      ∙ write_full parse_time handler limit positive b'\n' [] held s refl (omega (arith, exact))
      ∙ feed_newline parse_time handler limit [] (record held { truncated = true }) s
      ∙ finish_line_cong parse_time handler limit positive (record held { truncated = true }) true
          (feed parse_time handler limit []) (write parse_time handler limit []) s
          (λ x. sym (write-feed parse_time handler limit positive [] (reset w) x (inr positive)))
      ∙ ap
          (λ x.
            finish_line parse_time handler (record w { buffer = x; truncated = true }) true
              (write parse_time handler limit []) s)
          (sym (take_all limit line (omega (arith, exact))))
