-- ===== src/Config/Validate/Accepted.antt =====
-- internal/config/config.go: validateResolved on configurations that differ in the flush interval.
use docker_monitor.Config.{Config}
use docker_monitor.Config.Platform.{Platform}
use docker_monitor.Config.Validate.{
  Check, bad_flush_interval, checks, parsed, run_checks, validate_resolved,
}
use docker_monitor.Prelude.{All, List, [], none, refl, some, ◌∷◌, ◌≡◌}
use docker_monitor.Prelude.Bytes.{Bytes}
use docker_monitor.Prelude.Int.{ℤ}

run_checks-none : (cs : List Check) → run_checks cs ≡ none → All (λ c. c ≡ none) cs
run_checks-none [] h = tt
run_checks-none (none ∷ cs) h = (refl, run_checks-none cs h)
run_checks-none (some p ∷ cs) h = cc

none-run_checks : (cs : List Check) → All (λ c. c ≡ none) cs → run_checks cs ≡ none
none-run_checks [] h = refl
none-run_checks (none ∷ cs) h = none-run_checks cs h.1
none-run_checks (some p ∷ cs) h = cc h.0

module _ (go : Platform) where
  -- Any flush interval that parses is accepted, zero and negative ones too: a valid configuration
  -- stays valid with it.
  pub validate_resolved-flush_interval :
      (c : Config) (interval : Bytes) (d : ℤ)
      → validate_resolved go c ≡ none
      → go.parse_duration interval ≡ some d
      → validate_resolved go
          (record c { aggregation = record c.aggregation { flush_interval = interval } })
        ≡ none
  unfolding validate_resolved
  validate_resolved-flush_interval c interval d h e =
      let all = run_checks-none (checks go c) h in
      let parses : parsed (go.parse_duration interval) bad_flush_interval ≡ none = rw e refl in
      none-run_checks
        (checks go (record c { aggregation = record c.aggregation { flush_interval = interval } }))
        (all.0, (all.1.0, (all.1.1.0, (all.1.1.1.0, (parses, all.1.1.1.1.1)))))
