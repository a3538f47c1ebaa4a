-- ===== src/Docker/LineWriter/Refine.antt =====
-- internal/docker/logs.go: the loop of Write against the writer of single bytes.
use mathlib.Core.List.{append-nil}
use docker_monitor.Docker.LineWriter.{
  LineHandler, LineWriter, Outcome, emit_line, fill_line, finish_line, keep_part, reset, skip_line,
  within, write, write_body, write_loop,
}
use docker_monitor.Docker.LineWriter.Feed.{
  IsOpen, feed, feed-fill, feed-skip, feed_newline, feed_over,
}
use docker_monitor.Model.{Errors, Time}
use docker_monitor.Prelude.{
  Bool, Bool-cases, Option, Option-cases, [], ap, arith, drop, false, gt→leb, if◌then◌else◌, inl,
  inr, leb, leb→gt, leb→le, length, length-append, length-drop, length-take_le, le→leb, none, refl,
  some, suc, sym, take, take-append-drop, take_all, true, zero, ℕ, ◌*◌, ◌++◌, ◌+◌, ◌-◌, ◌<◌, ◌∙◌,
  ◌∷◌, ◌≡◌, ◌≤◌,
}
use docker_monitor.Prelude.Bytes.{Bytes}
use docker_monitor.Prelude.Bytes.Index.{
  Lacks, Lacks-take, Lacks-take_le, drop_head, index_byte, index_byte-none, index_byte-some,
}
use docker_monitor.Prelude.Bytes.Space.{trim_right_byte}

module _ {S : Type 0} (parse_time : Bytes → Option Time) (handler : LineHandler S) (limit : ℕ)
    (positive : 0 < limit) where
  abbrev Again : Type 0
  Again = Bytes → LineWriter → S → Outcome S

  -- `again` agrees with `feed` on shorter inputs.
  abbrev Agrees : ℕ → Again → Type 0
  Agrees n again =
      (p : Bytes) (w : LineWriter) (s : S)
      → IsOpen limit w
      → 2 * length p + (if w.truncated then 0 else 1) < n
      → again p w s ≡ feed parse_time handler limit p w s

  pub finish_line_cong :
      (w : LineWriter) (t : Bool) (f g : LineWriter → S → Outcome S) (s : S)
      → ((x : S) → f (reset w) x ≡ g (reset w) x)
      → finish_line parse_time handler w t f s ≡ finish_line parse_time handler w t g s
  finish_line_cong w t f g s h =
      go (emit_line parse_time handler w (trim_right_byte b'\r' w.buffer) t s)
    where
      go :
          (r : Errors × S)
          → ◌≡◌ {A = Outcome S}
              (elim r.0 [ [] ↦ f (reset w) r.1 | x ∷ xs ↦ (x ∷ xs, (w, r.1)) ])
              (elim r.0 [ [] ↦ g (reset w) r.1 | x ∷ xs ↦ (x ∷ xs, (w, r.1)) ])
      go ([], x) = h x
      go (e ∷ es, x) = refl

  skip_line-feed :
      (again : Again) (n : ℕ) (p : Bytes) (w : LineWriter) (s : S) (o : Option ℕ)
      → Agrees n again
      → w.truncated ≡ true
      → index_byte b'\n' p ≡ o
      → 2 * length p ≤ n
      → skip_line parse_time handler limit again p w s o ≡ feed parse_time handler limit p w s
  unfolding skip_line
  skip_line-feed again n p w s none agrees t e fuel = sym (
      ap (λ x. feed parse_time handler limit x w s) (sym (append-nil p))
      ∙ feed-skip parse_time handler limit p [] w s (index_byte-none b'\n' p e) t
      ∙ (unfold feed in refl))
  skip_line-feed again n p w s (some i) agrees t e fuel =
      let cut = index_byte-some b'\n' p i e in
      let tail = drop (suc i) p in
      finish_line_cong w true (again tail) (feed parse_time handler limit tail) s (λ x.
        agrees tail (reset w) x (inr positive) (omega (arith, length-drop (suc i) p, cut.within)))
      ∙ sym (
          ap (λ x. feed parse_time handler limit x w s) cut.splits
          ∙ feed-skip parse_time handler limit (take i p) (b'\n' ∷ tail) w s cut.lacks t
          ∙ feed_newline parse_time handler limit tail w s
          ∙ ap (λ b. finish_line parse_time handler w b (feed parse_time handler limit tail) s) t)

  abbrev filled : LineWriter → Bytes → LineWriter
  filled w p = record w { buffer = w.buffer ++ p }

  newline_in_time :
      (again : Again) (n : ℕ) (p : Bytes) (w : LineWriter) (s : S) (i : ℕ)
      → Agrees n again
      → w.truncated ≡ false
      → length w.buffer < limit
      → index_byte b'\n' p ≡ some i
      → i ≤ limit - length w.buffer
      → 2 * length p ≤ n
      → fill_line parse_time handler limit again p w s (some i)
        ≡ feed parse_time handler limit p w s
  unfolding fill_line
  newline_in_time again n p w s i agrees t room e le fuel =
      let cut = index_byte-some b'\n' p i e in
      let tail = drop (suc i) p in
      let w' = filled w (take i p) in
      finish_line_cong w' false (again tail) (feed parse_time handler limit tail) s (λ x.
        agrees tail (reset w') x (inr positive) (omega (arith, length-drop (suc i) p, cut.within)))
      ∙ sym (
          ap (λ x. feed parse_time handler limit x w s) cut.splits
          ∙ feed-fill parse_time handler limit (take i p) (b'\n' ∷ tail) w s cut.lacks t
              (omega (arith, length-take_le i p, cut.within))
          ∙ feed_newline parse_time handler limit tail w' s
          ∙ ap (λ b. finish_line parse_time handler w' b (feed parse_time handler limit tail) s) t)

  -- No newline among the first bytes, as many as there is room for and one more.
  keep_part-feed :
      (again : Again) (n : ℕ) (p : Bytes) (w : LineWriter) (s : S) (short : Bool)
      → Agrees n again
      → w.truncated ≡ false
      → length w.buffer < limit
      → Lacks b'\n' (take (suc (limit - length w.buffer)) p)
      → leb (length p) (limit - length w.buffer) ≡ short
      → 2 * length p ≤ n
      → keep_part parse_time handler limit again p w s short ≡ feed parse_time handler limit p w s
  unfolding keep_part
  keep_part-feed again n p w s true agrees t room lacks e fuel =
      let le : length p ≤ limit - length w.buffer = leb→le _ _ e in
      sym (
        ap (λ x. feed parse_time handler limit x w s) (sym (append-nil p))
        ∙ feed-fill parse_time handler limit p [] w s
            (rw (take_all (suc (limit - length w.buffer)) p (omega arith)) at lacks) t (omega arith)
        ∙ (unfold feed in refl))
  keep_part-feed again n p w s false agrees t room lacks e fuel =
      let a = limit - length w.buffer in
      let more : a < length p = leb→gt _ _ e in
      let (c, r, head, other) = drop_head b'\n' a p more lacks in
      let w' = filled w (take a p) in
      let full : limit ≤ length w'.buffer =
        omega (arith, length-append w.buffer (take a p), length-take_le a p) in
      agrees (drop a p) (record w' { truncated = true }) s (inl refl)
        (omega (arith, length-drop a p))
      ∙ ap (λ x. feed parse_time handler limit x (record w' { truncated = true }) s) head
      ∙ sym (
          ap (λ x. feed parse_time handler limit x w s) (sym (take-append-drop a p))
          ∙ feed-fill parse_time handler limit (take a p) (drop a p) w s
              (Lacks-take_le b'\n' a (suc a) p (omega arith) lacks) t
              (omega (arith, length-take_le a p))
          ∙ ap (λ x. feed parse_time handler limit x w' s) head
          ∙ feed_over parse_time handler limit c r w' s other t full)

  fill_line-feed :
      (again : Again) (n : ℕ) (p : Bytes) (w : LineWriter) (s : S)
      → Agrees n again
      → w.truncated ≡ false
      → length w.buffer < limit
      → 2 * length p ≤ n
      → fill_line parse_time handler limit again p w s
          (within (limit - length w.buffer) (index_byte b'\n' p))
        ≡ feed parse_time handler limit p w s
  fill_line-feed again n p w s agrees t room fuel =
      let a = limit - length w.buffer in
      elim (Option-cases (index_byte b'\n' p)) [
        | inl e ↦ rw e (
            unfold fill_line in
            keep_part-feed again n p w s _ agrees t room
              (Lacks-take b'\n' (suc a) p (index_byte-none b'\n' p e)) refl fuel)
        | inr (i, e) ↦ elim (Bool-cases (leb i a)) [
          | inl le ↦
              rw (e, le) (newline_in_time again n p w s i agrees t room e (leb→le _ _ le) fuel)
          | inr gt ↦
              rw (e, gt)
                (unfold fill_line in
                  keep_part-feed again n p w s _ agrees t room
                    (Lacks-take_le b'\n' (suc a) i p (leb→gt _ _ gt)
                      (index_byte-some b'\n' p i e).lacks)
                    refl fuel)
        ]
      ]

  write_body-feed :
      (again : Again) (n : ℕ) (p : Bytes) (w : LineWriter) (s : S)
      → Agrees n again
      → IsOpen limit w
      → 2 * length p + (if w.truncated then 0 else 1) < suc n
      → write_body parse_time handler limit again p w s ≡ feed parse_time handler limit p w s
  unfolding write_body
  write_body-feed again n p w s agrees o fuel = elim (Bool-cases w.truncated) [
    | inl t ↦
        simp t (skip_line-feed again n p w s (index_byte b'\n' p) agrees t refl (ground arith))
    | inr f ↦
        let room : length w.buffer < limit = ground arith in
        let some_room : leb (limit - length w.buffer) 0 ≡ false = gt→leb _ _ (omega arith) in
        simp (f, some_room) (fill_line-feed again n p w s agrees f room (ground arith))
  ]

  write_loop-Agrees : (fuel : ℕ) → Agrees fuel (write_loop parse_time handler limit fuel)
  unfolding write_loop
  write_loop-Agrees zero p w s o lt = absurd (omega arith)
  write_loop-Agrees (suc fuel) [] w s o lt = unfold feed in refl
  write_loop-Agrees (suc fuel) (c ∷ cs) w s o lt =
      write_body-feed (write_loop parse_time handler limit fuel) fuel (c ∷ cs) w s
        (write_loop-Agrees fuel) o lt

  -- Write, where the buffer has room or a line is being cut, has the outcome of `feed`: the same
  -- calls of the handler, the same error, the same state of the writer.
  pub write-feed :
      (p : Bytes) (w : LineWriter) (s : S)
      → IsOpen limit w
      → write parse_time handler limit p w s ≡ feed parse_time handler limit p w s
  unfolding write
  write-feed p w s o = write_loop-Agrees (suc (suc (2 * length p))) p w s o (ground arith)

  -- Where the buffer is full and no line is being cut yet, Write begins with the cut.
  pub write_full :
      (c : ℕ) (cs : Bytes) (w : LineWriter) (s : S)
      → w.truncated ≡ false
      → limit ≤ length w.buffer
      → write parse_time handler limit (c ∷ cs) w s
        ≡ feed parse_time handler limit (c ∷ cs) (record w { truncated = true }) s
  unfolding write write_loop write_body
  write_full c cs w s f full =
      let no_room : leb (limit - length w.buffer) 0 ≡ true = le→leb _ _ (omega arith) in
      simp (f, no_room)
        (write_loop-Agrees (suc (2 * length (c ∷ cs))) (c ∷ cs) (record w { truncated = true }) s
          (inl refl) (omega arith))
