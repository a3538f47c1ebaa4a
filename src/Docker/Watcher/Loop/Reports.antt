-- ===== src/Docker/Watcher/Loop/Reports.antt =====
-- internal/docker/watcher.go: the order of the reports of Run on a component.
use mathlib.Core.List.{append-nil, append_assoc}
use mathlib.Core.Path.{subst}
use docker_monitor.Docker.Watcher.Loop.{
  Component, Failures, Report, Round, RoundEnd, SyncOutcome, container_sync, degraded,
  degraded_failure_threshold, event_round, event_stream, go_on, lost_round, on_failure, on_recovery,
  recovered, run_round, run_rounds, sync_canceled, sync_done, sync_failed, sync_round,
}
use docker_monitor.Parser.Extract.{first}
use docker_monitor.Prelude.{
  Bool, Bool-cases, List, [], ap, arith, false, inl, inr, leb, none, not, refl, some, sym, true,
  ◌&&◌, ◌++◌, ◌+◌, ◌∙◌, ◌∷◌, ◌≡◌, ◌⊎◌,
}
use docker_monitor.Prelude.Int.{ℤ}

abbrev concerns : Component → Report → List Bool
concerns container_sync (degraded container_sync n) = true ∷ []
concerns container_sync (recovered container_sync n) = false ∷ []
concerns event_stream (degraded event_stream n) = true ∷ []
concerns event_stream (recovered event_stream n) = false ∷ []
concerns c r = []

-- The reports on a component: true for degraded, false for recovered.
abbrev pub signs : Component → List Report → List Bool
signs c [] = []
signs c (r ∷ rs) = concerns c r ++ signs c rs

-- Whether degraded and recovered alternate, where the component is down or not at the beginning.
abbrev pub alternates : Bool → List Bool → Bool
alternates down [] = true
alternates true (sign ∷ signs) = not sign && alternates false signs
alternates false (sign ∷ signs) = sign && alternates true signs

-- Whether a count of failures has been reported as degraded.
abbrev pub is_down : Component → Failures → Bool
is_down container_sync f = leb degraded_failure_threshold f.sync_failures
is_down event_stream f = leb degraded_failure_threshold f.event_failures

signs-append : (c : Component) (xs ys : List Report) → signs c (xs ++ ys) ≡ signs c xs ++ signs c ys
signs-append c [] ys = refl
signs-append c (x ∷ xs) ys =
    ap (λ s. concerns c x ++ s) (signs-append c xs ys)
    ∙ sym (append_assoc (concerns c x) (signs c xs) (signs c ys))

-- After the reports, which lead from the counts f to f', later ones alternate with them.
abbrev Turns : Component → Failures → Failures → List Report → Type 0
Turns c f f' reports =
    (s : List Bool)
    → alternates (is_down c f') s ≡ true
    → alternates (is_down c f) (signs c reports ++ s) ≡ true

Turns-append :
    (c : Component) (f f' f'' : Failures) (xs ys : List Report)
    → Turns c f f' xs
    → Turns c f' f'' ys
    → Turns c f f'' (xs ++ ys)
Turns-append c f f' f'' xs ys first second s h = rw (
  signs-append c xs ys,
  append_assoc (signs c xs) (signs c ys) s,
  first (signs c ys ++ s) (second s h),
)

event_failed-Turns :
    (c : Component) (f : Failures)
    → Turns c f
        (record f { event_failures = f.event_failures + 1 })
        (on_failure event_stream (f.event_failures + 1))
event_failed-Turns container_sync f s h = ground (arith, h)
event_failed-Turns event_stream f s h = ground (arith, h)

event_recovered-Turns :
    (c : Component) (f : Failures)
    → Turns c f (record f { event_failures = 0 }) (on_recovery event_stream f.event_failures)
event_recovered-Turns container_sync f s h = ground (arith, h)
event_recovered-Turns event_stream f s h = ground (arith, h)

sync_failed-Turns :
    (c : Component) (f : Failures)
    → Turns c f
        (record f { sync_failures = f.sync_failures + 1 })
        (on_failure container_sync (f.sync_failures + 1))
sync_failed-Turns container_sync f s h = ground (arith, h)
sync_failed-Turns event_stream f s h = ground (arith, h)

sync_recovered-Turns :
    (c : Component) (f : Failures)
    → Turns c f (record f { sync_failures = 0 }) (on_recovery container_sync f.sync_failures)
sync_recovered-Turns container_sync f s h = ground (arith, h)
sync_recovered-Turns event_stream f s h = ground (arith, h)

-- Where nothing comes later.
Turns-end :
    (c : Component) (f f' : Failures) (reports : List Report)
    → Turns c f f' reports
    → alternates (is_down c f) (signs c reports) ≡ true
Turns-end c f f' reports t =
    subst (λ s. alternates (is_down c f) s ≡ true) (append-nil (signs c reports)) (t [] refl)

-- What a round leaves: the counts with which the next goes on, or none where Run returns.
abbrev Leads : Component → Failures → RoundEnd → Type 0
Leads c f e = (f' : Failures) × Turns c f f' e.reports × ((e.after ≡ none) ⊎ (e.after ≡ some f'))

go_on-cases : (b : Bool) (f : Failures) → (go_on b f ≡ none) ⊎ (go_on b f ≡ some f)
go_on-cases true f = inr refl
go_on-cases false f = inl refl

lost-Leads : (c : Component) (d : ℤ) (r : Round) (f : Failures) → Leads c f (lost_round d r f)
unfolding lost_round
lost-Leads c d r f = elim (Bool-cases r.lost) [
  | inl lost ↦ simp lost (
      (
        record f { event_failures = f.event_failures + 1 },
        event_failed-Turns c f,
        go_on-cases r.goes_on _,
      ))
  | inr kept ↦ simp kept ((f, (λ s h. h), inl refl))
]

Leads-append :
    (c : Component) (f f' : Failures) (xs : List Report) (e : RoundEnd)
    → Turns c f f' xs
    → Leads c f' e
    → Leads c f (record e { reports = xs ++ e.reports })
Leads-append c f f' xs e first (f'', second, after) =
    (f'', Turns-append c f f' f'' xs e.reports first second, after)

event-Leads : (c : Component) (d : ℤ) (r : Round) (f : Failures) → Leads c f (event_round d r f)
unfolding event_round
event-Leads c d r f = elim (Bool-cases r.seen_event) [
  | inl seen ↦ simp seen (
      Leads-append c f (record f { event_failures = 0 }) _
        (lost_round d r (record f { event_failures = 0 })) (event_recovered-Turns c f)
        (lost-Leads c d r (record f { event_failures = 0 })))
  | inr unseen ↦ simp unseen (lost-Leads c d r f)
]

sync-Leads :
    (c : Component) (d : ℤ) (r : Round) (o : SyncOutcome) (f : Failures)
    → Leads c f (sync_round d r o f)
sync-Leads c d r sync_canceled f = (f, (λ s h. h), inl refl)
sync-Leads c d r sync_failed f = (
  record f { sync_failures = f.sync_failures + 1 },
  sync_failed-Turns c f,
  go_on-cases r.goes_on _,
)
sync-Leads c d r sync_done f =
    Leads-append c f (record f { sync_failures = 0 }) _
      (event_round d r (record f { sync_failures = 0 })) (sync_recovered-Turns c f)
      (event-Leads c d r (record f { sync_failures = 0 }))

-- In every run of the watcher, from any counts of failures, the reports on each component alternate
-- between degraded and recovered, beginning with degraded unless its count has reached three before.
pub run_rounds-alternates :
    (c : Component) (retry_delay : ℤ) (rounds : List Round) (f : Failures)
    → alternates (is_down c f) (signs c (run_rounds retry_delay rounds f)) ≡ true
unfolding run_rounds run_round
run_rounds-alternates c retry_delay [] f = refl
run_rounds-alternates c retry_delay (r ∷ rs) f =
    let (f', turns, after) = sync-Leads c retry_delay r r.sync f in
    elim after [
      | inl ends ↦
          rw (ends, append-nil (run_round retry_delay r f).reports) (Turns-end c f f' _ turns)
      | inr goes ↦
          rw
            (
              goes,
              signs-append c (run_round retry_delay r f).reports (run_rounds retry_delay rs f'),
            )
            (turns _ (run_rounds-alternates c retry_delay rs f'))
    ]
