-- ===== src/Store/Multi/All.antt =====
-- internal/store/multi_store.go: AppendBatch for each sink on its own.
use docker_monitor.Model.{Errors, LogBatch}
use docker_monitor.Prelude.{List, [], ap, map, refl, sym, ◌++◌, ◌∙◌, ◌∷◌, ◌≡◌}
use docker_monitor.Store.Multi.{Member, append_batch}

module _ {S : Type 0} where
  -- The state of a sink that is handed batches one after the other.
  abbrev pub fed : Member S → List LogBatch → Member S
  fed m [] = m
  fed m (b ∷ bs) = fed (record m { state = (m.append b m.state).1 }) bs

  abbrev pub append_batches : List LogBatch → List (Member S) → List (Member S)
  append_batches [] sinks = sinks
  append_batches (b ∷ bs) sinks = append_batches bs (append_batch b sinks).1

  -- What a sink answers to a batch.
  abbrev pub answer : LogBatch → Member S → Errors
  answer b m = (m.append b m.state).0

  abbrev pub answers : LogBatch → List (Member S) → Errors
  answers b [] = []
  answers b (m ∷ sinks) = answer b m ++ answers b sinks

  next : LogBatch → Member S → Member S
  next b m = record m { state = (m.append b m.state).1 }

  append_batch-lem :
      (b : LogBatch) (sinks : List (Member S))
      → append_batch b sinks ≡ (answers b sinks, map (next b) sinks)
  unfolding append_batch next
  append_batch-lem b [] = refl
  append_batch-lem b (m ∷ sinks) = rw (append_batch-lem b sinks) refl

  map-fed :
      (b : LogBatch) (bs : List LogBatch) (sinks : List (Member S))
      → map (λ m. fed m bs) (map (next b) sinks) ≡ map (λ m. fed m (b ∷ bs)) sinks
  unfolding next
  map-fed b bs [] = refl
  map-fed b bs (m ∷ sinks) = ap (λ x. fed m (b ∷ bs) ∷ x) (map-fed b bs sinks)

  map_self : (sinks : List (Member S)) → map (λ m. fed m []) sinks ≡ sinks
  map_self [] = refl
  map_self (m ∷ sinks) = ap (λ x. m ∷ x) (map_self sinks)

  -- However the sinks answer, after any batches each of them is in the state that these batches,
  -- handed to it alone, bring it to; and the error of one more batch is made of all their answers.
  pub append_batches-each :
      (bs : List LogBatch) (sinks : List (Member S)) (b : LogBatch)
      → (append_batches bs sinks ≡ map (λ m. fed m bs) sinks)
        × ((append_batch b (append_batches bs sinks)).0 ≡ answers b (map (λ m. fed m bs) sinks))
  append_batches-each bs sinks b = (
    each bs sinks,
    ap (λ x. x.0) (append_batch-lem b (append_batches bs sinks)) ∙ ap (answers b) (each bs sinks),
  )
    where
      each :
          (bs : List LogBatch) (sinks : List (Member S))
          → append_batches bs sinks ≡ map (λ m. fed m bs) sinks
      each [] sinks = sym (map_self sinks)
      each (b ∷ bs) sinks =
          rw (append_batch-lem b sinks) (each bs (map (next b) sinks) ∙ map-fed b bs sinks)
