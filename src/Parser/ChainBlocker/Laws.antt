-- ===== src/Parser/ChainBlocker/Laws.antt =====
-- internal/parser/parser.go: the entries of a chainBlocker after eviction.
use docker_monitor.Model.{Time}
use docker_monitor.Parser.ChainBlocker.{ChainBlocker, Item, evict_locked, evict_until, items_of}
use docker_monitor.Prelude.{
  Bool, Bool-cases, List, [], arith, count, inl, inr, leb, leb→le, length, ltb, none, refl, ℕ, ◌*◌,
  ◌+◌, ◌/◌, ◌<◌, ◌∷◌, ◌≡◌, ◌≤◌, ◌⊎◌,
}
use docker_monitor.Prelude.Assoc.{Assoc, Distinct, Fresh, delete, insert, lookup, retain}
use docker_monitor.Prelude.Assoc.Laws.{
  Distinct-delete, Distinct-retain, Fresh-retain, lookup-Fresh, lookup-delete,
}
use docker_monitor.Prelude.Bytes.{Bytes, str_eq, str_eq_iff, str_eq_refl, str_ne}
use docker_monitor.Prelude.Sort.{count-sort_by, sort_by}

-- Nothing but entries of the second map, with their values.
abbrev pub Within : Assoc Time → Assoc Time → Type 0
Within m n = (k : Bytes) → (lookup k m ≡ none) ⊎ (lookup k m ≡ lookup k n)

Within-trans : (l m n : Assoc Time) → Within l m → Within m n → Within l n
Within-trans l m n h h' k = ground (arith, h k, h' k)

lookup-retain :
    (p : Time → Bool) (m : Assoc Time)
    → Distinct m
    → (k : Bytes) → (lookup k (retain p m) ≡ none) ⊎ (lookup k (retain p m) ≡ lookup k m)
unfolding lookup
lookup-retain p [] d k = inl refl
lookup-retain p ((i, w) ∷ m) d k = ground (
  arith,
  lookup-retain p m d.1 k,
  str_eq_iff i k,
  lookup-Fresh i (retain p m) (Fresh-retain p i m d.0),
)

Within-delete : (k : Bytes) (m : Assoc Time) → Distinct m → Within (delete k m) m
Within-delete k m d j = ground (arith, lookup-delete k j m d)

pub length-delete_le : (k : Bytes) (m : Assoc Time) → length (delete k m) ≤ length m
unfolding delete
length-delete_le k [] = omega arith
length-delete_le k ((i, w) ∷ m) = ground (arith, length-delete_le k m)

pub length-insert_le :
    (k : Bytes) (v : Time) (m : Assoc Time) → length (insert k v m) ≤ length m + 1
unfolding insert
length-insert_le k v [] = omega arith
length-insert_le k v ((i, w) ∷ m) = ground (arith, length-insert_le k v m)

length-retain_le : (p : Time → Bool) (m : Assoc Time) → length (retain p m) ≤ length m
length-retain_le p [] = omega arith
length-retain_le p ((i, w) ∷ m) = ground (arith, length-retain_le p m)

-- Every entry is named by an item.
abbrev names : Bytes → Item → Bool
names k i = str_eq i.id k

abbrev Covered : List Item → Assoc Time → Type 0
Covered items [] = Unit
Covered items ((k, e) ∷ m) = (0 < count (names k) items) × Covered items m

Covered-more :
    (xs ys : List Item) (m : Assoc Time)
    → ((k : Bytes) → count (names k) xs ≤ count (names k) ys)
    → Covered xs m
    → Covered ys m
Covered-more xs ys [] le h = tt
Covered-more xs ys ((k, e) ∷ m) le h = (omega (arith, le k, h.0), Covered-more xs ys m le h.1)

Covered-items_of : (m : Assoc Time) → Covered (items_of m) m
unfolding items_of
Covered-items_of [] = tt
Covered-items_of ((k, e) ∷ m) = (
  ground (arith, str_eq_refl k),
  Covered-more (items_of m) (items_of ((k, e) ∷ m)) m (λ j. ground arith) (Covered-items_of m),
)

-- An item whose key is not there covers nothing.
Covered-skip :
    (i : Item) (items : List Item) (m : Assoc Time)
    → Fresh i.id m
    → Covered (i ∷ items) m
    → Covered items m
Covered-skip i items [] f h = tt
Covered-skip i items ((k, e) ∷ m) f h =
    (ground (arith, str_eq_iff i.id k, f.0, h.0), Covered-skip i items m f.1 h.1)

Fresh-delete_self : (k : Bytes) (m : Assoc Time) → Distinct m → Fresh k (delete k m)
unfolding delete
Fresh-delete_self k [] d = tt
Fresh-delete_self k ((i, w) ∷ m) d = elim (Bool-cases (str_eq i k)) [
  | inl same ↦ rw same (rw (← (str_eq_iff i k).0 same) d.0)
  | inr other ↦ rw other (str_ne i k other, Fresh-delete_self k m d.1)
]

Covered-delete :
    (k : Bytes) (items : List Item) (m : Assoc Time) → Covered items m → Covered items (delete k m)
unfolding delete
Covered-delete k items [] h = tt
Covered-delete k items ((i, w) ∷ m) h = elim (Bool-cases (str_eq i k)) [
  | inl same ↦ rw same h.1
  | inr other ↦ rw other (h.0, Covered-delete k items m h.1)
]

Covered-nil : (m : Assoc Time) → Covered [] m → length m ≡ 0
Covered-nil [] h = refl
Covered-nil ((k, e) ∷ m) h = omega (arith, h.0)

evict_until-length :
    (target : ℕ) (items : List Item) (m : Assoc Time)
    → Distinct m
    → Covered items m
    → length (evict_until target items m) ≤ target
unfolding evict_until
evict_until-length target [] m d h = omega (arith, Covered-nil m h)
evict_until-length target (i ∷ items) m d h = ground (
  arith,
  evict_until-length target items (delete i.id m) (Distinct-delete i.id m d) (
      Covered-skip i items (delete i.id m) (Fresh-delete_self i.id m d)
        (Covered-delete i.id (i ∷ items) m h)),
)

evict_until-Within :
    (target : ℕ) (items : List Item) (m : Assoc Time)
    → Distinct m
    → Distinct (evict_until target items m) × Within (evict_until target items m) m
unfolding evict_until
evict_until-Within target [] m d = (d, λ k. inr refl)
evict_until-Within target (i ∷ items) m d = elim (Bool-cases (ltb target (length m))) [
  | inl more ↦
      let (d', w) = evict_until-Within target items (delete i.id m) (Distinct-delete i.id m d) in
      rw more (d', Within-trans _ (delete i.id m) m w (Within-delete i.id m d))
  | inr fits ↦ rw fits (d, λ k. inr refl)
]

pub evict_locked-lem :
    (now : Time) (b : ChainBlocker)
    → Distinct b.entries
    → Distinct (evict_locked now b).entries
      × Within (evict_locked now b).entries b.entries
      × length (evict_locked now b).entries ≤ b.max_entries
unfolding evict_locked
evict_locked-lem now b d =
    let live = retain (λ exp. ltb now exp) b.entries in
    let live_distinct = Distinct-retain (λ exp. ltb now exp) b.entries d in
    let sorted = sort_by (λ (i : Item). i.exp) (items_of live) in
    let (d', w) = evict_until-Within (b.max_entries * 8 / 10) sorted live live_distinct in
    elim (Bool-cases (leb (length live) b.max_entries)) [
      | inl fits ↦
          rw fits (live_distinct, lookup-retain (λ exp. ltb now exp) b.entries d, leb→le _ _ fits)
      | inr many ↦ rw many (
        d',
        Within-trans _ live b.entries w (lookup-retain (λ exp. ltb now exp) b.entries d),
        omega (
          arith,
          evict_until-length (b.max_entries * 8 / 10) sorted live live_distinct (
              Covered-more (items_of live) sorted live
                (λ k. omega (arith, count-sort_by (λ (i : Item). i.exp) (names k) (items_of live)))
                (Covered-items_of live)),
        ),
      )
    ]
