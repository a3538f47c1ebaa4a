-- ===== src/Store/BestEffort/Tests.antt =====
-- A sink that counts batches.
use docker_monitor.Aggregator.{batch_from_single_event}
use docker_monitor.Model.{LogBatch, Sink, sample_event}
use docker_monitor.Prelude.{List, [], false, refl, true, ℕ, ◌+◌, ◌∷◌, ◌≡◌}
use docker_monitor.Prelude.Bytes.{text}
use docker_monitor.Store.BestEffort.{BestEffort, append_batch, close, work}
use docker_monitor.Store.BestEffort.Queue.{
  Action, act_all, act_all-settled, append, close-drains, round, rounds, settled, shut, sink_all,
  taken,
}

abbrev counter : Sink ℕ
counter b n = ([], n + 1)

abbrev batch : LogBatch
batch = batch_from_single_event (sample_event (text "a") true 1) 2

abbrev actions : List Action
actions = append batch ∷ append batch ∷ round ∷ shut ∷ append batch ∷ []

abbrev fresh_store : BestEffort ℕ
fresh_store = record { queue = []; closed = false; done = false; state = 0 }

two_taken : settled counter (act_all counter actions fresh_store) ≡ 2
unfolding append_batch work close
two_taken = refl

act_all-settled_example :
    settled counter (act_all counter actions fresh_store)
    ≡ sink_all counter (taken counter actions fresh_store) (settled counter fresh_store)
act_all-settled_example = act_all-settled counter actions fresh_store

abbrev waiting : BestEffort ℕ
waiting = record { queue = batch ∷ batch ∷ []; closed = false; done = false; state = 0 }

close-drains_example :
    act_all counter (rounds counter 3) (close waiting)
    ≡ record { queue = []; closed = true; done = true; state = settled counter waiting }
close-drains_example = close-drains counter waiting
