-- ===== src/Docker/Watcher/Backoff/Tests.antt =====
-- Three seconds as the base, thirty as the limit.
use docker_monitor.Docker.Watcher.Backoff.{next_retry_delay_with_max}
use docker_monitor.Docker.Watcher.Backoff.Bounds.{next_retry_delay_with_max-closed}
use docker_monitor.Prelude.{arith, min, ◌*◌, ◌^◌, ◌≡◌}
use docker_monitor.Prelude.Int.{pos}

next_retry_delay_with_max-closed_example :
    next_retry_delay_with_max (pos 3) (pos 30) 4 ≡ min 30 (3 * 2 ^ 3)
next_retry_delay_with_max-closed_example =
    next_retry_delay_with_max-closed 3 30 3 (omega arith) (omega arith) (omega arith)
