-- ===== src/Docker/Watcher/Backoff.antt =====
-- internal/docker/watcher.go: nextRetryDelay and nextRetryDelayWithMax. Durations are int64 counts of
-- nanoseconds. In the loop a delay is given by its 64 bits as a number: from 2 ^ 63 on these are those
-- of a negative duration. The loop compares a delay only where the limit is positive, and there it
-- stops before a product can leave 63 bits.
pub mod Bounds
mod Tests
use docker_monitor.Prelude.{if◌then◌else◌, leb, ltb, suc, zero, ℕ, ◌%◌, ◌&&◌, ◌*◌, ◌-◌, ◌/◌, ◌^◌}
use docker_monitor.Prelude.Int.{clamp_zero, is_nonpositive, pos, ℤ}

abbrev pub max_retry_backoff_delay : ℕ
max_retry_backoff_delay = 30_000_000_000

-- A duration that the code tests with `<= 0` first is given as the number that it then is.
-- The loop, with `rounds` rounds to go; the delay, and the result, are the 64 bits of the int64.
unfoldable pub double_delay : ℕ → ℕ → ℕ → ℕ
double_delay max_delay zero delay =
    if ltb 0 max_delay && ltb max_delay delay then max_delay else delay
double_delay max_delay (suc rounds) delay =
    let rest = double_delay max_delay rounds (delay * 2 % 2 ^ 64) in
    if ltb 0 max_delay && leb max_delay delay
    then max_delay
    else if ltb 0 max_delay && ltb (max_delay / 2) delay
    then max_delay
    else rest

unfoldable pub next_retry_delay_with_max : ℤ → ℤ → ℕ → ℕ
unfolding double_delay
next_retry_delay_with_max base_delay max_delay failures =
    let base = clamp_zero base_delay in
    let limit = clamp_zero max_delay in
    if is_nonpositive base_delay
    then 0
    else if ltb 0 limit && ltb limit base
    then limit
    else if leb failures 1
    then base
    else double_delay limit (failures - 1) base

unfoldable pub next_retry_delay : ℤ → ℕ → ℕ
next_retry_delay base_delay failures =
    next_retry_delay_with_max base_delay (pos max_retry_backoff_delay) failures
