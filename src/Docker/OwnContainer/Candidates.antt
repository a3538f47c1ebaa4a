-- ===== src/Docker/OwnContainer/Candidates.antt =====
-- internal/docker/self.go: the candidates, and the one that is taken.
use mathlib.Core.Path.{subst}
use docker_monitor.Docker.OwnContainer.{
  Detected, Inspected, append_candidate, append_each, container, detect_self_container_id, detected,
  failed, gave_up, not_found, self_container_id_candidates_from,
}
use docker_monitor.Prelude.{
  All, Bool-cases, List, [], any, arith, count, count-append, false, inl, inr, refl, sym, true, ℕ,
  ◌++◌, ◌||◌, ◌∷◌, ◌≡◌, ◌≤◌, ◌⊎◌,
}
use docker_monitor.Prelude.Bytes.{Bytes, is_empty, str_eq, str_eq_iff}
use docker_monitor.Prelude.Bytes.Space.{trim_space}

abbrev pub occurrences : Bytes → List Bytes → ℕ
occurrences x = count (λ c. str_eq c x)

not_any : (x : Bytes) (cs : List Bytes) → any (λ c. str_eq c x) cs ≡ false → occurrences x cs ≡ 0
not_any x [] h = refl
not_any x (c ∷ cs) h = ground (arith, not_any x cs, h)

module _ (to_lower : Bytes → Bytes) (find_ids : Bytes → List Bytes) where
  append_candidate-once :
      (v x : Bytes) (cs : List Bytes)
      → ((y : Bytes) → occurrences y cs ≤ 1)
      → occurrences x (append_candidate to_lower find_ids v cs) ≤ 1
  append_candidate-once v x cs h =
      elim (Bool-cases
        (is_empty (trim_space v) || any (λ c. str_eq c (to_lower (trim_space v))) cs)) [
          | inl known ↦ rw known (h x)
          | inr fresh_value ↦
              let lower : Bytes = to_lower (trim_space v) in
              let unseen : any (λ c. str_eq c lower) cs ≡ false = ground (arith, fresh_value) in
              let absent = not_any lower cs unseen in
              let split = count-append (λ c. str_eq c x) cs (lower ∷ []) in
              rw fresh_value (elim (Bool-cases (str_eq lower x)) [
                | inl same ↦
                    let none_yet : occurrences x cs ≡ 0 =
                      subst (λ y. occurrences y cs ≡ 0) ((str_eq_iff lower x).0 same) absent in
                    ground (arith, same, none_yet, split)
                | inr other ↦ ground (arith, other, h x, split)
              ])
        ]

  append_each-once :
      (vs cs : List Bytes)
      → ((y : Bytes) → occurrences y cs ≤ 1)
      → (x : Bytes) → occurrences x (append_each to_lower find_ids vs cs) ≤ 1
  append_each-once [] cs h x = h x
  append_each-once (v ∷ vs) cs h x =
      append_each-once vs (append_candidate to_lower find_ids v cs)
        (λ y. append_candidate-once v y cs h) x

  -- No candidate is tried twice, whatever the host name and the control groups say.
  pub candidates-once :
      (hostname cgroup x : Bytes)
      → occurrences x (self_container_id_candidates_from to_lower find_ids hostname cgroup) ≤ 1
  unfolding self_container_id_candidates_from
  candidates-once hostname cgroup x =
      append_each-once (find_ids cgroup) (append_candidate to_lower find_ids hostname [])
        (λ y. append_candidate-once hostname y [] (λ z. omega arith)) x

-- A candidate that is passed over: there is no such container, or it has a blank id.
abbrev pub IsPassed : (Bytes → Inspected) → Bytes → Type 0
IsPassed inspect c =
    (inspect c ≡ not_found)
    ⊎ ((id : Bytes) × (inspect c ≡ container id) × (is_empty (trim_space id) ≡ true))

-- A candidate that decides the result: it is a container with an id, or it cannot be inspected.
abbrev pub Decides : (Bytes → Inspected) → Bytes → Detected → Type 0
Decides inspect c d =
    ((id : Bytes) × (inspect c ≡ container id)
      × (is_empty (trim_space id) ≡ false)
      × (d ≡ detected (trim_space id)))
    ⊎ ((err : Bytes) × (inspect c ≡ failed err) × (d ≡ gave_up err))

-- Where all candidates up to one are passed over and that one decides the result, the result is the
-- trimmed id of its container, or the error of its inspection, whatever comes later.
pub detect-first :
    (inspect : Bytes → Inspected) (before after : List Bytes) (c : Bytes) (d : Detected)
    → All (IsPassed inspect) before
    → Decides inspect c d
    → detect_self_container_id inspect (before ++ c ∷ after) ≡ d
unfolding detect_self_container_id
detect-first inspect [] rest c d h decides = elim decides [
  | inl (id, e, named, same) ↦ rw (e, named) (sym same)
  | inr (err, e, same) ↦ rw e (sym same)
]
detect-first inspect (b ∷ before) rest c d h decides = elim h.0 [
  | inl missing ↦ rw missing (detect-first inspect before rest c d h.1 decides)
  | inr (id, e, blank) ↦ rw (e, blank) (detect-first inspect before rest c d h.1 decides)
]
