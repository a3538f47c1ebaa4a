-- ===== src/Store/BestEffort.antt =====
-- internal/store/best_effort_store.go: BestEffortStore, a queue of bounded length between those who
-- append and a worker that hands batches to a sink with state S.
pub mod Queue
mod Tests
use docker_monitor.Model.{LogBatch, Sink}
use docker_monitor.Prelude.{Bool, List, [], false, if◌then◌else◌, length, ltb, true, ℕ, ◌++◌, ◌∷◌}

-- bestEffortQueueSize
abbrev pub best_effort_queue_size : ℕ
best_effort_queue_size = 128

-- `queue` is the buffer of the channel, oldest first; `done` is whether workerDone is closed.
pub record BestEffort (S : Type 0) : Type 0 where
  pub queue : List LogBatch
  pub closed : Bool
  pub done : Bool
  pub state : S

module _ {S : Type 0} where
  -- NewBestEffortStore
  pub new_best_effort_store : S → BestEffort S
  new_best_effort_store s = record { queue = []; closed = false; done = false; state = s }

  -- AppendBatch, whose error is always nil. cloneLogBatch copies a value, and does nothing here.
  unfoldable pub append_batch : LogBatch → BestEffort S → BestEffort S
  append_batch batch s =
      if s.closed
      then s
      else if ltb (length s.queue) best_effort_queue_size
      then record s { queue = s.queue ++ batch ∷ [] }
      else s

  -- Close, up to the point where it waits for the worker.
  unfoldable pub close : BestEffort S → BestEffort S
  close s = record s { closed = true }

  -- One round of the worker's loop: it takes the oldest batch, or it ends on a closed, empty queue,
  -- or it waits. The sink's error is logged only.
  unfoldable pub work : Sink S → BestEffort S → BestEffort S
  work sink s = elim s.queue [
    | [] ↦ if s.closed then record s { done = true } else s
    | b ∷ bs ↦ record s { queue = bs; state = (sink b s.state).1 }
  ]
