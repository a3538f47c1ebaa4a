-- ===== src/Config/Platform.antt =====
-- internal/config/config.go: what the configuration uses of Go's standard library.
use docker_monitor.Prelude.{Bool, Option, ℕ}
use docker_monitor.Prelude.Bytes.{Bytes}
use docker_monitor.Prelude.Int.{ℤ}

pub record Platform : Type 1 where
  -- time.ParseDuration, none on an error
  pub parse_duration : Bytes → Option ℤ
  -- url.Parse: the scheme and the host, none on an error
  pub parse_url : Bytes → Option (Bytes × Bytes)
  pub to_upper : Bytes → Bytes
  -- strconv.ParseInt and strconv.ParseFloat, none on an error
  pub parse_int : Bytes → Option ℤ
  pub Float : Type 0
  pub parse_float : Bytes → Option Float
  -- value < 0, and int64(value * float64(factor))
  pub float_negative : Float → Bool
  pub float_scaled : Float → ℕ → ℤ
