-- ===== src/Aggregator/Evict/Victims.antt =====
-- internal/aggregator/aggregator.go: which groups evictGroupsLocked takes.
use docker_monitor.Aggregator.Evict.{
  Candidate, GroupBuffer, candidates_of, evict_excess, evict_expired, evict_first, evict_groups,
}
use docker_monitor.Model.{Time}
use docker_monitor.Prelude.{
  All, Bool, Bool-cases, List, Option-cases, [], arith, false, inl, inr, leb, length, ltb, refl,
  some, suc, true, zero, ℕ, ◌||◌, ◌∙◌, ◌∷◌, ◌≡◌, ◌≢◌,
}
use docker_monitor.Prelude.Assoc.{
  Assoc, Distinct, Except, Fresh, Values, delete, lookup, retain, total, weight,
}
use docker_monitor.Prelude.Assoc.Except.{Except-delete, Except-retain}
use docker_monitor.Prelude.Assoc.Laws.{
  Distinct-delete, Distinct-retain, Values-delete, Values-lookup, Values-retain, lookup-delete,
  total-delete,
}
use docker_monitor.Prelude.Bytes.{Bytes, str_eq, str_eq_iff}
use docker_monitor.Prelude.Sort.{All-sort_by}

-- The candidate names no group with an alert.
abbrev pub IsVictim : Assoc GroupBuffer → Candidate → Type 0
IsVictim groups c = (b : GroupBuffer) → lookup c.key groups ≡ some b → b.has_alert ≡ false

candidates_of-ne :
    (k : Bytes) (groups : Assoc GroupBuffer)
    → Fresh k groups
    → All (λ (c : Candidate). c.key ≢ k) (candidates_of groups)
unfolding candidates_of
candidates_of-ne k [] h = tt
candidates_of-ne k ((j, b) ∷ groups) h = elim (Bool-cases b.has_alert) [
  | inl alert ↦ rw alert (candidates_of-ne k groups h.1)
  | inr quiet ↦ rw quiet (h.0, candidates_of-ne k groups h.1)
]

IsVictim-cons :
    (k : Bytes) (b : GroupBuffer) (groups : Assoc GroupBuffer) (cs : List Candidate)
    → All (λ (c : Candidate). c.key ≢ k) cs
    → All (IsVictim groups) cs
    → All (IsVictim ((k, b) ∷ groups)) cs
unfolding lookup
IsVictim-cons k b groups [] ne h = tt
IsVictim-cons k b groups (c ∷ cs) ne h =
    (λ x e. h.0 x (ground (arith, str_eq_iff k c.key)), IsVictim-cons k b groups cs ne.1 h.1)

candidates_of-IsVictim :
    (groups : Assoc GroupBuffer) → Distinct groups → All (IsVictim groups) (candidates_of groups)
unfolding candidates_of
candidates_of-IsVictim [] d = tt
candidates_of-IsVictim ((k, b) ∷ groups) d =
    let rest =
      IsVictim-cons k b groups (candidates_of groups) (candidates_of-ne k groups d.0)
        (candidates_of-IsVictim groups d.1) in
    elim (Bool-cases b.has_alert) [
      | inl alert ↦ simp alert rest
      | inr quiet ↦ simp quiet ((unfold lookup in λ x e. ground (arith, str_eq_iff k k)), rest)
    ]

pub IsVictim-delete :
    (k : Bytes) (groups : Assoc GroupBuffer) (cs : List Candidate)
    → Distinct groups
    → All (IsVictim groups) cs
    → All (IsVictim (delete k groups)) cs
IsVictim-delete k groups [] d h = tt
IsVictim-delete k groups (c ∷ cs) d h = (
  λ x e. h.0 x (ground (arith, lookup-delete k c.key groups d)),
  IsVictim-delete k groups cs d h.1,
)

-- The filters that drop groups without an alert only.
abbrev pub SparesAlerts : (GroupBuffer → Bool) → Type 0
SparesAlerts p = (b : GroupBuffer) → p b ≡ false → b.has_alert ≡ false

-- A property that survives the loss of any group without an alert survives eviction.
pub record Rule (P : Assoc GroupBuffer → Type 0) : Type 0 where
  pub on_delete :
      (k : Bytes) (groups : Assoc GroupBuffer) (b : GroupBuffer)
      → Distinct groups
      → lookup k groups ≡ some b
      → b.has_alert ≡ false
      → P groups
      → P (delete k groups)
  pub on_retain :
      (p : GroupBuffer → Bool) (groups : Assoc GroupBuffer)
      → Distinct groups
      → SparesAlerts p
      → P groups
      → P (retain p groups)

pub Distinct-evict_expired :
    (group_ttl : ℕ) (now : Time) (groups : Assoc GroupBuffer)
    → Distinct groups
    → Distinct (evict_expired group_ttl now groups)
unfolding evict_expired
Distinct-evict_expired group_ttl now groups d = elim (Bool-cases (ltb 0 group_ttl)) [
  | inl on ↦ rw on (Distinct-retain _ groups d)
  | inr off ↦ rw off d
]

module _ {P : Assoc GroupBuffer → Type 0} (r : Rule P) where
  evict_first-keeps :
      (need : ℕ) (cs : List Candidate) (groups : Assoc GroupBuffer)
      → Distinct groups
      → All (IsVictim groups) cs
      → P groups
      → P (evict_first need cs groups)
  unfolding evict_first
  evict_first-keeps need [] groups d h p = p
  evict_first-keeps zero (c ∷ cs) groups d h p = p
  evict_first-keeps (suc need) (c ∷ cs) groups d h p = elim (Option-cases (lookup c.key groups)) [
    | inl e ↦ rw (e, evict_first) (evict_first-keeps (suc need) cs groups d h.1 p)
    | inr (b, e) ↦
        rw (e, evict_first)
          (evict_first-keeps need cs (delete c.key groups) (Distinct-delete c.key groups d)
            (IsVictim-delete c.key groups cs d h.1) (r.on_delete c.key groups b d e (h.0 b e) p))
  ]

  evict_excess-keeps :
      (max_groups : ℕ) (groups : Assoc GroupBuffer)
      → Distinct groups
      → P groups
      → P (evict_excess max_groups groups)
  unfolding evict_excess
  evict_excess-keeps max_groups groups d p =
      elim (Bool-cases (leb max_groups 0 || leb (length groups) max_groups)) [
        | inl small ↦ rw small p
        | inr large ↦
            rw large (
              evict_first-keeps _ _ groups d (All-sort_by _ _ _ (candidates_of-IsVictim groups d))
                p)
      ]

  evict_expired-keeps :
      (group_ttl : ℕ) (now : Time) (groups : Assoc GroupBuffer)
      → Distinct groups
      → P groups
      → P (evict_expired group_ttl now groups)
  unfolding evict_expired
  evict_expired-keeps group_ttl now groups d p = elim (Bool-cases (ltb 0 group_ttl)) [
    | inl on ↦ rw on (r.on_retain _ groups d (λ b e. ground arith) p)
    | inr off ↦ rw off p
  ]

  pub evict_groups-keeps :
      (group_ttl max_groups : ℕ) (now : Time) (groups : Assoc GroupBuffer)
      → Distinct groups
      → P groups
      → P (evict_groups group_ttl max_groups now groups)
  unfolding evict_groups
  evict_groups-keeps group_ttl max_groups now groups d p =
      evict_excess-keeps max_groups _ (Distinct-evict_expired group_ttl now groups d)
        (evict_expired-keeps group_ttl now groups d p)

-- The rules for the properties that the aggregator needs.
Distinct-Rule : Rule Distinct
Distinct-Rule = record {
  on_delete = λ k groups b d e q p. Distinct-delete k groups p;
  on_retain = λ t groups d s p. Distinct-retain t groups p;
}

pub Distinct-evict_groups :
    (group_ttl max_groups : ℕ) (now : Time) (groups : Assoc GroupBuffer)
    → Distinct groups
    → Distinct (evict_groups group_ttl max_groups now groups)
Distinct-evict_groups t m now groups d = evict_groups-keeps Distinct-Rule t m now groups d d

module _ (P : GroupBuffer → Type 0) where
  Values-Rule : Rule (Values P)
  Values-Rule = record {
    on_delete = λ k groups b d e q p. Values-delete P k groups p;
    on_retain = λ t groups d s p. Values-retain P t groups p;
  }

  pub Values-evict_groups :
      (group_ttl max_groups : ℕ) (now : Time) (groups : Assoc GroupBuffer)
      → Distinct groups
      → Values P groups
      → Values P (evict_groups group_ttl max_groups now groups)
  Values-evict_groups t m now groups d = evict_groups-keeps Values-Rule t m now groups d

  Except-Rule : (key : Bytes) → Rule (Except key P)
  Except-Rule key = record {
    on_delete = λ k groups b d e q p. Except-delete P key k groups p;
    on_retain = λ t groups d s p. Except-retain P key t groups p;
  }

  pub Except-evict_groups :
      (key : Bytes) (group_ttl max_groups : ℕ) (now : Time) (groups : Assoc GroupBuffer)
      → Distinct groups
      → Except key P groups
      → Except key P (evict_groups group_ttl max_groups now groups)
  Except-evict_groups key t m now groups d = evict_groups-keeps (Except-Rule key) t m now groups d

-- A measure that groups without an alert do not count in.
abbrev pub IgnoresQuiet : (GroupBuffer → ℕ) → Assoc GroupBuffer → Type 0
IgnoresQuiet f = Values (λ b. b.has_alert ≡ false → f b ≡ 0)

module _ (f : GroupBuffer → ℕ) where
  weight-quiet :
      (k : Bytes) (groups : Assoc GroupBuffer) (b : GroupBuffer)
      → IgnoresQuiet f groups
      → lookup k groups ≡ some b
      → b.has_alert ≡ false
      → weight f (lookup k groups) ≡ 0
  weight-quiet k groups b q e h = rw e (Values-lookup _ k groups q e h)

  total-retain :
      (p : GroupBuffer → Bool) (groups : Assoc GroupBuffer)
      → SparesAlerts p
      → IgnoresQuiet f groups
      → total f (retain p groups) ≡ total f groups
  total-retain p [] h q = refl
  total-retain p ((k, b) ∷ groups) h q = ground (arith, total-retain p groups h q.1, h b, q.0)

  abbrev Counted : ℕ → Assoc GroupBuffer → Type 0
  Counted n groups = IgnoresQuiet f groups × (total f groups ≡ n)

  total-Rule : (n : ℕ) → Rule (Counted n)
  total-Rule n = record {
    on_delete = λ k groups b d e q p. (
      Values-delete _ k groups p.0,
      omega (arith, total-delete f k groups, weight-quiet k groups b p.0 e q, p.1),
    );
    on_retain = λ t groups d s p. (Values-retain _ t groups p.0, total-retain t groups s p.0 ∙ p.1);
  }

  -- Eviction keeps what such a measure counts.
  pub total-evict_groups :
      (group_ttl max_groups : ℕ) (now : Time) (groups : Assoc GroupBuffer)
      → Distinct groups
      → IgnoresQuiet f groups
      → total f (evict_groups group_ttl max_groups now groups) ≡ total f groups
  total-evict_groups t m now groups d q =
      (evict_groups-keeps (total-Rule (total f groups)) t m now groups d (q, refl)).1

lookup-retain :
    (t : GroupBuffer → Bool) (k : Bytes) (b : GroupBuffer) (groups : Assoc GroupBuffer)
    → b.has_alert ≡ true
    → SparesAlerts t
    → lookup k groups ≡ some b
    → lookup k (retain t groups) ≡ some b
unfolding lookup
lookup-retain t k b [] alert s e = cc
lookup-retain t k b ((j, w) ∷ groups) alert s e =
    ground (arith, s w, lookup-retain t k b groups alert s)

lookup-delete_alert :
    (j k : Bytes) (x b : GroupBuffer) (groups : Assoc GroupBuffer)
    → Distinct groups
    → b.has_alert ≡ true
    → x.has_alert ≡ false
    → lookup j groups ≡ some x
    → lookup k groups ≡ some b
    → lookup k (delete j groups) ≡ some b
lookup-delete_alert j k x b groups d alert quiet e p = elim (Bool-cases (str_eq j k)) [
  | inl same ↦ let e' : some x ≡ some b = cc ((str_eq_iff j k).0 same) in absurd (ground arith)
  | inr other ↦ lookup-delete j k groups d ∙ simp other p
]

alert-Rule :
    (k : Bytes) (b : GroupBuffer) → b.has_alert ≡ true → Rule (λ groups. lookup k groups ≡ some b)
alert-Rule k b alert = record {
  on_delete = λ j groups x d e q p. lookup-delete_alert j k x b groups d alert q e p;
  on_retain = λ t groups d s p. lookup-retain t k b groups alert s p;
}

-- A group with an alert stays as it is.
pub lookup-evict_groups :
    (group_ttl max_groups : ℕ) (now : Time) (groups : Assoc GroupBuffer) (k : Bytes)
    (b : GroupBuffer)
    → Distinct groups
    → lookup k groups ≡ some b
    → b.has_alert ≡ true
    → lookup k (evict_groups group_ttl max_groups now groups) ≡ some b
lookup-evict_groups t m now groups k b d e alert =
    evict_groups-keeps (alert-Rule k b alert) t m now groups d e
