-- ===== src/Store/BestEffort/Queue.antt =====
-- internal/store/best_effort_store.go: the calls of the store and the rounds of its worker, in any
-- order.
use docker_monitor.Model.{LogBatch, Sink}
use docker_monitor.Prelude.{
  Bool, Bool-cases, List, [], ap, false, if◌then◌else◌, inl, inr, length, ltb, not, refl, suc, true,
  zero, ℕ, ◌&&◌, ◌++◌, ◌∙◌, ◌∷◌, ◌≡◌,
}
use docker_monitor.Store.BestEffort.{BestEffort, append_batch, best_effort_queue_size, close, work}

-- The calls of the store and the rounds of its worker, in any order.
pub data Action : Type 0 where
  append : LogBatch → Action
  round : Action
  shut : Action

module _ {S : Type 0} (sink : Sink S) where
  abbrev pub act : Action → BestEffort S → BestEffort S
  act (append b) s = append_batch b s
  act round s = work sink s
  act shut s = close s

  abbrev pub act_all : List Action → BestEffort S → BestEffort S
  act_all [] s = s
  act_all (a ∷ actions) s = act_all actions (act a s)

  -- The batches that AppendBatch takes in, the others being dropped.
  abbrev pub is_taken : BestEffort S → Bool
  is_taken s = not s.closed && ltb (length s.queue) best_effort_queue_size

  abbrev pub taken : List Action → BestEffort S → List LogBatch
  taken [] s = []
  taken (append b ∷ actions) s =
      let rest = taken actions (append_batch b s) in if is_taken s then b ∷ rest else rest
  taken (round ∷ actions) s = taken actions (work sink s)
  taken (shut ∷ actions) s = taken actions (close s)

  -- The state of the sink after batches.
  abbrev pub sink_all : List LogBatch → S → S
  sink_all [] s = s
  sink_all (b ∷ bs) s = sink_all bs (sink b s).1

  sink_all-append :
      (xs ys : List LogBatch) (s : S) → sink_all (xs ++ ys) s ≡ sink_all ys (sink_all xs s)
  sink_all-append [] ys s = refl
  sink_all-append (x ∷ xs) ys s = sink_all-append xs ys (sink x s).1

  -- What the sink will have seen once the queue is worked off.
  abbrev pub settled : BestEffort S → S
  settled s = sink_all s.queue s.state

  settled-append :
      (b : LogBatch) (s : BestEffort S)
      → settled (append_batch b s) ≡ (if is_taken s then (sink b (settled s)).1 else settled s)
  unfolding append_batch
  settled-append b s = elim (Bool-cases s.closed) [
    | inl over ↦ rw over refl
    | inr running ↦ elim (Bool-cases (ltb (length s.queue) best_effort_queue_size)) [
      | inl room ↦ rw (running, room) (sink_all-append s.queue (b ∷ []) s.state)
      | inr crowded ↦ rw (running, crowded) refl
    ]
  ]

  settled-work : (s : BestEffort S) → settled (work sink s) ≡ settled s
  unfolding work
  settled-work s = go s.queue s.closed s.done s.state
    where
      go :
          (q : List LogBatch) (c d : Bool) (x : S)
          → settled (work sink (record { queue = q; closed = c; done = d; state = x }))
            ≡ sink_all q x
      go [] true d x = refl
      go [] false d x = refl
      go (b ∷ bs) c d x = refl

  -- In every order of calls and rounds: what the sink has been handed, with what still waits in the
  -- queue, is what it had been handed and what had waited before, and then exactly the batches that
  -- AppendBatch took in, in their order.
  pub act_all-settled :
      (actions : List Action) (s : BestEffort S)
      → settled (act_all actions s) ≡ sink_all (taken actions s) (settled s)
  unfolding close
  act_all-settled [] s = refl
  act_all-settled (append b ∷ actions) s = act_all-settled actions (append_batch b s) ∙ after_append
    where
      after_append :
          sink_all (taken actions (append_batch b s)) (settled (append_batch b s))
          ≡ sink_all (taken (append b ∷ actions) s) (settled s)
      after_append = elim (Bool-cases (is_taken s)) [
        | inl fits ↦ rw (settled-append b s, fits) refl
        | inr refused ↦ rw (settled-append b s, refused) refl
      ]
  act_all-settled (round ∷ actions) s =
      act_all-settled actions (work sink s)
      ∙ ap (sink_all (taken actions (work sink s))) (settled-work s)
  act_all-settled (shut ∷ actions) s = act_all-settled actions (close s)

  -- The worker alone.
  abbrev pub rounds : ℕ → List Action
  rounds zero = []
  rounds (suc n) = round ∷ rounds n

  -- Once the store is closed, one round of the worker for each batch in the queue and one more end
  -- it: it has handed over the whole queue, and is done.
  pub close-drains :
      (s : BestEffort S)
      → act_all (rounds (suc (length s.queue))) (close s)
        ≡ record { queue = []; closed = true; done = true; state = settled s }
  unfolding close work
  close-drains s = go s.queue s.done s.state
    where
      go :
          (q : List LogBatch) (d : Bool) (x : S)
          → act_all
              (rounds (suc (length q)))
              (record { queue = q; closed = true; done = d; state = x })
            ≡ record { queue = []; closed = true; done = true; state = sink_all q x }
      go [] d x = refl
      go (b ∷ bs) d x = go bs d (sink b x).1
