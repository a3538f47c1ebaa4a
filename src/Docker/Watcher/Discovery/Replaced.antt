-- ===== src/Docker/Watcher/Discovery/Replaced.antt =====
-- internal/docker/watcher.go: findReplacementContainer described as a whole.
use mathlib.Core.Bool.{false≢true}
use docker_monitor.Docker.Watcher.Discovery.{
  ContainerState, ContainerSummary, accepts, find_replacement_container, is_live,
  is_live_replacement, trim_slash,
}
use docker_monitor.Model.{ContainerInfo}
use docker_monitor.Prelude.{
  All, Bool, Bool-cases, List, Option, [], any, ap, arith, false, if◌then◌else◌, inl, inr, none,
  not, refl, some, sym, true, ◌&&◌, ◌++◌, ◌||◌, ◌↔◌, ◌∙◌, ◌∷◌, ◌≡◌, ◌≢◌, ◌⊎◌,
}
use docker_monitor.Prelude.Bytes.{Bytes, str_eq, str_eq_iff, str_eq_refl, text}
use docker_monitor.Prelude.Bytes.Space.{trim_space}

-- A state that is up, or about to be: one of the two flags, or one of four statuses, trimmed and
-- lower-cased.
pub data IsUp (to_lower : Bytes → Bytes) (state : ContainerState) : Type 0 where
  runs : state.running ≡ true → IsUp to_lower state
  restarts : state.restarting ≡ true → IsUp to_lower state
  says_running : to_lower (trim_space state.status) ≡ text "running" → IsUp to_lower state
  says_restarting : to_lower (trim_space state.status) ≡ text "restarting" → IsUp to_lower state
  says_created : to_lower (trim_space state.status) ≡ text "created" → IsUp to_lower state
  says_paused : to_lower (trim_space state.status) ≡ text "paused" → IsUp to_lower state

-- No slash comes first.
abbrev pub IsPlain : Bytes → Type 0
IsPlain [] = Unit
IsPlain (c ∷ s) = c ≢ b'/'

-- One of the names is `name` behind a slash, or `name` as it is, which has none then.
abbrev pub HasName : Bytes → List Bytes → Type 0
HasName name [] = ⊥
HasName name (n ∷ ns) = (n ≡ b'/' ∷ name) ⊎ ((n ≡ name) × IsPlain n) ⊎ HasName name ns

-- The client cannot inspect, or it answers that the container is up.
abbrev pub AnswersUp : (Bytes → Bytes) → Option (Bytes → Option ContainerState) → Bytes → Type 0
AnswersUp to_lower none id = Unit
AnswersUp to_lower (some ask) id =
    (state : ContainerState) × (ask id ≡ some state) × IsUp to_lower state

IsUp-is_live :
    (to_lower : Bytes → Bytes) (state : ContainerState)
    → IsUp to_lower state
    → is_live_replacement to_lower state ≡ true
unfolding is_live_replacement
IsUp-is_live to_lower state (runs e) = ground (arith, e)
IsUp-is_live to_lower state (restarts e) = ground (arith, e)
IsUp-is_live to_lower state (says_running e) = rw (e, str_eq_refl (text "running")) (ground arith)
IsUp-is_live to_lower state (says_restarting e) =
    rw (e, str_eq_refl (text "restarting")) (ground arith)
IsUp-is_live to_lower state (says_created e) = rw (e, str_eq_refl (text "created")) (ground arith)
IsUp-is_live to_lower state (says_paused e) = rw (e, str_eq_refl (text "paused")) (ground arith)

one_of-four :
    (a b c d : Bool)
    → (a || b || c || d || false) ≡ true
    → (a ≡ true) ⊎ (b ≡ true) ⊎ (c ≡ true) ⊎ (d ≡ true)
one_of-four true b c d h = inl refl
one_of-four false true c d h = inr (inl refl)
one_of-four false false true d h = inr (inr (inl refl))
one_of-four false false false true h = inr (inr (inr refl))
one_of-four false false false false h = cc

is_live-IsUp :
    (to_lower : Bytes → Bytes) (state : ContainerState)
    → is_live_replacement to_lower state ≡ true
    → IsUp to_lower state
unfolding is_live_replacement
is_live-IsUp to_lower state h = elim (Bool-cases state.running) [
  | inl e ↦ runs e
  | inr idle ↦ elim (Bool-cases state.restarting) [
    | inl e ↦ restarts e
    | inr same ↦
        let status = to_lower (trim_space state.status) in
        let is : (p : Bytes) → str_eq status p ≡ true → status ≡ p = λ p. (str_eq_iff status p).0 in
        elim (one_of-four (str_eq status (text "running")) (str_eq status (text "restarting"))
          (str_eq status (text "created")) (str_eq status (text "paused"))
          (ground (arith, h, idle, same))) [
            | inl e ↦ says_running (is _ e)
            | inr (inl e) ↦ says_restarting (is _ e)
            | inr (inr (inl e)) ↦ says_created (is _ e)
            | inr (inr (inr e)) ↦ says_paused (is _ e)
          ]
  ]
]

HasName-iff :
    (name : Bytes) (ns : List Bytes)
    → (any (λ candidate. str_eq (trim_slash candidate) name) ns ≡ true) ↔ HasName name ns
HasName-iff name [] = (λ e. cc, λ h. absurd h)
HasName-iff name (n ∷ ns) = ground (arith, HasName-iff name ns, str_eq_iff (trim_slash n) name)

answer-IsUp :
    (to_lower : Bytes → Bytes) (o : Option ContainerState)
    → is_live to_lower none o ≡ true
    → (state : ContainerState) × (o ≡ some state) × IsUp to_lower state
answer-IsUp to_lower none h = cc
answer-IsUp to_lower (some state) h = (state, refl, is_live-IsUp to_lower state h)

accepts_iff :
    (to_lower : Bytes → Bytes) (inspect : Option (Bytes → Option ContainerState)) (id : Bytes)
    → (accepts to_lower inspect inspect id ≡ true) ↔ AnswersUp to_lower inspect id
accepts_iff to_lower none id = (λ _. tt, λ _. refl)
accepts_iff to_lower (some ask) id =
    (answer-IsUp to_lower (ask id), λ h. rw (h.1) (IsUp-is_live to_lower h.0 h.2))

some-same : {a b : ContainerInfo} → some a ≡ some b → b ≡ a
some-same h = cc

module _ (to_lower : Bytes → Bytes) (inspect : Option (Bytes → Option ContainerState)) where
  -- A container of the listing that can stand in for the one with the name and the id: another one of
  -- its name that is up.
  abbrev pub CanReplace : Bytes → Bytes → ContainerSummary → Type 0
  CanReplace name current_id c =
      (c.id ≢ current_id) × HasName name c.names × AnswersUp to_lower inspect c.id

  -- The answer is the first container of the listing that can replace, under the name.
  abbrev pub IsFirst : Bytes → Bytes → List ContainerSummary → ContainerInfo → Type 0
  IsFirst name current_id cs i =
      (before after : List ContainerSummary) × (c : ContainerSummary) × (cs ≡ before ++ c ∷ after)
      × All (λ b. ¬ CanReplace name current_id b) before
      × CanReplace name current_id c
      × (i ≡ record { id = c.id; name = name })

  can_replace : Bytes → Bytes → ContainerSummary → Bool
  can_replace name current_id c =
      not (str_eq c.id current_id)
      && any (λ candidate. str_eq (trim_slash candidate) name) c.names
      && accepts to_lower inspect inspect c.id

  can_replace_iff :
      (name current_id : Bytes) (c : ContainerSummary)
      → (can_replace name current_id c ≡ true) ↔ CanReplace name current_id c
  unfolding can_replace
  can_replace_iff name current_id c = ground (
    arith,
    str_eq_iff c.id current_id,
    HasName-iff name c.names,
    accepts_iff to_lower inspect c.id,
  )

  find-cons :
      (name current_id : Bytes) (c : ContainerSummary) (cs : List ContainerSummary)
      → find_replacement_container to_lower inspect (c ∷ cs) name current_id ≡ (
          if can_replace name current_id c
          then some (record { id = c.id; name = name })
          else find_replacement_container to_lower inspect cs name current_id)
  unfolding find_replacement_container can_replace
  find-cons name current_id c cs = ground arith

  can_replace-false :
      (name current_id : Bytes) (c : ContainerSummary)
      → ¬ CanReplace name current_id c
      → can_replace name current_id c ≡ false
  can_replace-false name current_id c cannot = elim (Bool-cases (can_replace name current_id c)) [
    | inl can ↦ absurd (cannot ((can_replace_iff name current_id c).0 can))
    | inr e ↦ e
  ]

  not_replaced :
      (name current_id : Bytes) (c : ContainerSummary)
      → can_replace name current_id c ≡ false
      → ¬ CanReplace name current_id c
  not_replaced name current_id c e can =
      false≢true (sym e ∙ (can_replace_iff name current_id c).1 can)

  find-some :
      (name current_id : Bytes) (cs : List ContainerSummary) (i : ContainerInfo)
      → find_replacement_container to_lower inspect cs name current_id ≡ some i
      → IsFirst name current_id cs i
  unfolding find_replacement_container
  find-some name current_id [] i h = cc
  find-some name current_id (c ∷ cs) i h = elim (Bool-cases (can_replace name current_id c)) [
    | inl can ↦ (
      [],
      cs,
      c,
      refl,
      tt,
      (can_replace_iff name current_id c).0 can,
      some-same (rw can at (sym (find-cons name current_id c cs) ∙ h)),
    )
    | inr cannot ↦
        let (before, after, d, e, none_before, can, same) =
          find-some name current_id cs i
            (rw cannot at (sym (find-cons name current_id c cs) ∙ h)) in
        (
          c ∷ before,
          after,
          d,
          ap (λ x. c ∷ x) e,
          (not_replaced name current_id c cannot, none_before),
          can,
          same,
        )
  ]

  find-append :
      (name current_id : Bytes) (before after : List ContainerSummary) (c : ContainerSummary)
      → All (λ b. ¬ CanReplace name current_id b) before
      → CanReplace name current_id c
      → find_replacement_container to_lower inspect (before ++ c ∷ after) name current_id
        ≡ some (record { id = c.id; name = name })
  find-append name current_id [] after c none_before can =
      let yes = (can_replace_iff name current_id c).1 can in
      find-cons name current_id c after ∙ rw yes refl
  find-append name current_id (b ∷ before) after c none_before can =
      let no = can_replace-false name current_id b none_before.0 in
      find-cons name current_id b (before ++ c ∷ after)
      ∙ rw no (find-append name current_id before after c none_before.1 can)

  find-none :
      (name current_id : Bytes) (cs : List ContainerSummary)
      → (find_replacement_container to_lower inspect cs name current_id ≡ none)
        ↔ All (λ c. ¬ CanReplace name current_id c) cs
  unfolding find_replacement_container
  find-none name current_id [] = (λ _. tt, λ _. refl)
  find-none name current_id (c ∷ cs) = (
    λ h. elim (Bool-cases (can_replace name current_id c)) [
      | inl can ↦ absurd (some-ne (rw can at (sym (find-cons name current_id c cs) ∙ h)))
      | inr cannot ↦ (
        not_replaced name current_id c cannot,
        (find-none name current_id cs).0 (rw cannot at (sym (find-cons name current_id c cs) ∙ h)),
      )
    ],
    λ h.
        let no = can_replace-false name current_id c h.0 in
        find-cons name current_id c cs ∙ rw no ((find-none name current_id cs).1 h.1),
  )
    where
      some-ne : {i : ContainerInfo} → some i ≡ none → ⊥
      some-ne e = cc

  -- findReplacementContainer answers a container exactly if it is, under the name, the first of the
  -- listing that can replace: it has another id, one of its names is the name with or without a
  -- slash, and, where the client can inspect, its inspection succeeds with a state that is running,
  -- restarting, or of the trimmed and lower-cased status running, restarting, created or paused. It
  -- answers none exactly if no container of the listing can.
  pub find_replacement-IsFirst :
      (name current_id : Bytes) (cs : List ContainerSummary)
      → ((i : ContainerInfo)
          → (find_replacement_container to_lower inspect cs name current_id ≡ some i)
            ↔ IsFirst name current_id cs i)
        × ((find_replacement_container to_lower inspect cs name current_id ≡ none)
            ↔ All (λ c. ¬ CanReplace name current_id c) cs)
  find_replacement-IsFirst name current_id cs = (
    λ i. (
      find-some name current_id cs i,
      λ h.
          let (before, after, c, e, none_before, can, same) = h in
          rw (e, same) (find-append name current_id before after c none_before can),
    ),
    find-none name current_id cs,
  )
