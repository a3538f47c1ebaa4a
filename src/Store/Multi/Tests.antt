-- ===== src/Store/Multi/Tests.antt =====
-- Two sinks that count batches, one of which fails.
use docker_monitor.Aggregator.{batch_from_single_event}
use docker_monitor.Model.{Errors, LogBatch, sample_event}
use docker_monitor.Prelude.{List, [], map, none, true, ℕ, ◌+◌, ◌∷◌, ◌≡◌}
use docker_monitor.Prelude.Bytes.{text}
use docker_monitor.Store.Multi.{Member, append_batch}
use docker_monitor.Store.Multi.All.{answers, append_batches, append_batches-each, fed}

abbrev counting : Errors → Member ℕ
counting e = record { append = λ b n. (e, n + 1); close = none; state = 0 }

abbrev both : List (Member ℕ)
both = counting [] ∷ counting (text "down" ∷ []) ∷ []

abbrev batch : LogBatch
batch = batch_from_single_event (sample_event (text "a") true 1) 2

append_batches-each_example :
    (append_batches (batch ∷ batch ∷ []) both ≡ map (λ m. fed m (batch ∷ batch ∷ [])) both)
    × ((append_batch batch (append_batches (batch ∷ batch ∷ []) both)).0
        ≡ answers batch (map (λ m. fed m (batch ∷ batch ∷ [])) both))
append_batches-each_example = append_batches-each (batch ∷ batch ∷ []) both batch
