-- ===== src/Monitor/Stop.antt =====
-- cmd/monitor/main.go: the instances and the errors at the end of run.
use docker_monitor.Aggregator.{flush_all}
use docker_monitor.Model.{Errors, Sink, Time}
use docker_monitor.Monitor.{
  Instance, Output, close_instances, close_output, flush_instances, flush_output, stop_run, wrap,
}
use docker_monitor.Prelude.{
  All, List, Option, Option-cases, [], ap, inl, inr, map, none, refl, some, sym, ◌++◌, ◌↔◌, ◌∙◌,
  ◌∷◌, ◌≡◌,
}
use docker_monitor.Prelude.Bytes.{Bytes, text}

append_nil_iff : {A : Type 0} (xs ys : List A) → (xs ++ ys ≡ []) ↔ ((xs ≡ []) × (ys ≡ []))
append_nil_iff [] ys = ((λ h. (refl, h)), (λ h. h.1))
append_nil_iff (x ∷ xs) ys = ((λ h. cc), (λ h. cc))

wrap_nil_iff : (label what : Bytes) (e : Errors) → (wrap label what e ≡ []) ↔ (e ≡ [])
wrap_nil_iff label what [] = ((λ h. refl), (λ h. refl))
wrap_nil_iff label what (e ∷ es) = ((λ h. cc), (λ h. cc))

module _ {S : Type 0} (sink : Sink S) (close : S → Errors × S) (now : Time)
    (clock : Bytes → Time) where
  -- The errors of the last FlushAll and then of Close, on the aggregator and the store of an instance.
  abbrev pub EndsWell : Instance S → Type 0
  EndsWell i = elim i.output [
    | none ↦ Unit {0}
    | some o ↦
        let (e, (a, s)) = flush_all sink now clock (o.aggregator, o.store) in
        (e ≡ []) × ((close s).0 ≡ [])
  ]

  -- An instance after its last FlushAll and Close.
  abbrev pub ended : Instance S → Instance S
  ended i = record {
    label = i.label;
    output = elim i.output [
      | none ↦ none
      | some o ↦
          let (e, (a, s)) = flush_all sink now clock (o.aggregator, o.store) in
          some (record { aggregator = a; store = (close s).1 })
    ];
  }

  abbrev flush_one : Instance S → Instance S
  flush_one i = record i { output = (flush_output sink close now clock i.label i.output).1 }

  abbrev close_one : Instance S → Instance S
  close_one i = record i { output = (close_output sink close now clock i.label i.output).1 }

  flush_instances-each :
      (instances : List (Instance S))
      → (flush_instances sink close now clock instances).1 ≡ map flush_one instances
  unfolding flush_instances
  flush_instances-each [] = refl
  flush_instances-each (i ∷ instances) = ap (λ r. flush_one i ∷ r) (flush_instances-each instances)

  close_instances-each :
      (instances : List (Instance S))
      → (close_instances sink close now clock instances).1 ≡ map close_one instances
  unfolding close_instances
  close_instances-each [] = refl
  close_instances-each (i ∷ instances) = ap (λ r. close_one i ∷ r) (close_instances-each instances)

  ended_one : (i : Instance S) → close_one (flush_one i) ≡ ended i
  ended_one i = elim (Option-cases i.output) [
    | inl bare_one ↦ simp bare_one refl
    | inr (o, e) ↦ simp e refl
  ]

  ended_each :
      (instances : List (Instance S))
      → map close_one (map flush_one instances) ≡ map ended instances
  ended_each [] = refl
  ended_each (i ∷ instances) =
      ap (λ x. x ∷ map close_one (map flush_one instances)) (ended_one i)
      ∙ ap (λ r. ended i ∷ r) (ended_each instances)

  one_iff :
      (i : Instance S)
      → (((flush_output sink close now clock i.label i.output).0 ≡ [])
          × ((close_output sink close now clock i.label (flush_one i).output).0 ≡ []))
        ↔ EndsWell i
  one_iff i = by_output i.label i.output
    where
      by_output :
          (label : Bytes) (o : Option (Output S))
          → (((flush_output sink close now clock label o).0 ≡ [])
              × ((close_output sink close now clock label
                    (flush_output sink close now clock label o).1).0
                  ≡ []))
            ↔ EndsWell (record { label = label; output = o })
      by_output label none = ((λ h. tt), (λ h. (refl, refl)))
      by_output label (some o) =
          let (e, (a, s)) = flush_all sink now clock (o.aggregator, o.store) in
          let first = wrap_nil_iff label (text " final flush failed: ") e in
          let second = wrap_nil_iff label (text " store shutdown failed: ") (close s).0 in
          ((λ h. (first.0 h.0, second.0 h.1)), (λ h. (first.1 h.0, second.1 h.1)))

  each_iff :
      (instances : List (Instance S))
      → (((flush_instances sink close now clock instances).0 ≡ [])
          × ((close_instances sink close now clock (map flush_one instances)).0 ≡ []))
        ↔ All EndsWell instances
  unfolding flush_instances close_instances
  each_iff [] = ((λ h. tt), (λ h. (refl, refl)))
  each_iff (i ∷ instances) =
      let (e, o) = flush_output sink close now clock i.label i.output in
      let later = (flush_instances sink close now clock instances).0 in
      let first = append_nil_iff e later in
      let second =
        append_nil_iff (close_output sink close now clock i.label o).0
          (close_instances sink close now clock (map flush_one instances)).0 in
      let here_iff = one_iff i in
      let rest = each_iff instances in
      (
        λ h.
            let (x, y) = first.0 h.0 in
            let (x', y') = second.0 h.1 in (here_iff.0 (x, x'), rest.0 (y, y')),
        λ h.
            let (x, x') = here_iff.1 h.0 in
            let (y, y') = rest.1 h.1 in (first.1 (x, y), second.1 (x', y')),
      )

  -- When run ends, every instance has been flushed and then closed, whatever the others answered, and the
  -- errors are none exactly if the goroutines sent none and each last FlushAll and each Close
  -- returned nil.
  pub stop_run-ended :
      (collected : Errors) (instances : List (Instance S))
      → ((stop_run sink close now clock collected instances).1 ≡ map ended instances)
        × (((stop_run sink close now clock collected instances).0 ≡ [])
            ↔ ((collected ≡ []) × All EndsWell instances))
  unfolding stop_run
  stop_run-ended collected instances =
      let (flushed, is) = flush_instances sink close now clock instances in
      let same = flush_instances-each instances in
      let shut_errors = (close_instances sink close now clock is).0 in
      let outer = append_nil_iff (flushed ++ shut_errors) collected in
      let inner = append_nil_iff flushed shut_errors in
      let moved : shut_errors ≡ (close_instances sink close now clock (map flush_one instances)).0 =
        ap (λ x. (close_instances sink close now clock x).0) same in
      let each = each_iff instances in
      (
        close_instances-each is ∙ ap (map close_one) same ∙ ended_each instances,
        (
          λ h. let (x, y) = outer.0 h in let (f, c) = inner.0 x in (y, each.0 (f, sym moved ∙ c)),
          λ h. let (f, c) = each.1 h.1 in outer.1 (inner.1 (f, moved ∙ c), h.0),
        ),
      )
