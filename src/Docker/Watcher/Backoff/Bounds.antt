-- ===== src/Docker/Watcher/Backoff/Bounds.antt =====
-- internal/docker/watcher.go: nextRetryDelayWithMax in closed form.
use native.Mathlib.Nat.{mod-eq_of_lt, mul_assoc, pow-succ'}
use docker_monitor.Docker.Watcher.Backoff.{double_delay, next_retry_delay_with_max}
use docker_monitor.Prelude.{
  Bool-cases, ap, arith, inl, inr, ltb, ltb→ge, ltb→lt, min, suc, sym, zero, ℕ, ◌%◌, ◌*◌, ◌/◌, ◌<◌,
  ◌^◌, ◌∙◌, ◌≡◌, ◌≤◌,
}
use docker_monitor.Prelude.Int.{pos}

twice : (d n : ℕ) → d * 2 ^ suc n ≡ d * 2 * 2 ^ n
twice d n = ap (λ x. d * x) (pow-succ' 2 n) ∙ sym (mul_assoc d 2 (2 ^ n))

grow : (d n : ℕ) → d ≤ d * 2 ^ n
grow d zero = omega arith
grow d (suc n) = omega (arith, grow (d * 2) n, twice d n)

module _ (limit : ℕ) (small : limit < 2 ^ 63) (some_limit : 0 < limit) where
  double_delay-closed :
      (rounds delay : ℕ)
      → delay ≤ limit
      → double_delay limit rounds delay ≡ min limit (delay * 2 ^ rounds)
  unfolding double_delay
  double_delay-closed zero delay le = ground arith
  double_delay-closed (suc rounds) delay le = elim (Bool-cases (ltb (limit / 2) delay)) [
    | inl past ↦
        let far : limit ≤ delay * 2 ^ suc rounds =
          omega (arith, twice delay rounds, grow (delay * 2) rounds, ltb→lt _ _ past) in
        ground (arith, past, far)
    | inr before ↦
        let fits : delay * 2 % 2 ^ 64 ≡ delay * 2 =
          mod-eq_of_lt (omega (arith, ltb→ge _ _ before)) in
        let rest : double_delay limit rounds (delay * 2) ≡ min limit (delay * 2 * 2 ^ rounds) =
          double_delay-closed rounds (delay * 2) (omega (arith, ltb→ge _ _ before)) in
        let bound : delay < limit = omega (arith, ltb→ge _ _ before) in
        rw (before, fits, rest, twice delay rounds) (ground (arith, bound))
  ]

-- For a positive base and a limit that is a duration, the delay after n + 1 failures is the base
-- doubled n times, or the limit where that is more.
pub next_retry_delay_with_max-closed :
    (base limit n : ℕ)
    → 0 < base
    → 0 < limit
    → limit < 2 ^ 63
    → next_retry_delay_with_max (pos base) (pos limit) (suc n) ≡ min limit (base * 2 ^ n)
unfolding next_retry_delay_with_max
next_retry_delay_with_max-closed (suc b) (suc l) zero hb hl small = ground arith
next_retry_delay_with_max-closed (suc b) (suc l) (suc n) hb hl small =
    elim (Bool-cases (ltb (suc l) (suc b))) [
      | inl more ↦
          let far : suc l ≤ suc b * 2 ^ suc n =
            omega (arith, grow (suc b) (suc n), ltb→lt _ _ more) in
          ground (arith, more, far)
      | inr fits ↦
          let closed : double_delay (suc l) (suc n) (suc b) ≡ min (suc l) (suc b * 2 ^ suc n) =
            double_delay-closed (suc l) small hl (suc n) (suc b) (ltb→ge _ _ fits) in
          ground (arith, fits, closed)
    ]
next_retry_delay_with_max-closed zero limit n hb hl small = absurd (omega arith)
next_retry_delay_with_max-closed (suc b) zero n hb hl small = absurd (omega arith)
