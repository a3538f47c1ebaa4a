-- ===== src/Store/Multi.antt =====
-- internal/store/multi_store.go: MultiStore, which hands a batch to every sink. The sinks have states
-- of one type; a sink that is nil is none.
pub mod All
mod Tests
use docker_monitor.Model.{Errors, LogBatch, Sink}
use docker_monitor.Prelude.{List, Option, [], none, some, ◌++◌, ◌∷◌}

-- A sink in its state, and whether it can be closed: Close, with the error it answers.
pub record Member (S : Type 0) : Type 0 where
  pub append : Sink S
  pub close : Option (S → Errors × S)
  pub state : S

module _ {S : Type 0} where
  -- NewMultiStore
  unfoldable pub new_multi_store : List (Option (Member S)) → List (Member S)
  new_multi_store [] = []
  new_multi_store (none ∷ sinks) = new_multi_store sinks
  new_multi_store (some m ∷ sinks) = m ∷ new_multi_store sinks

  -- MultiStore.AppendBatch: an error does not keep the batch from the sinks after it.
  unfoldable pub append_batch : LogBatch → List (Member S) → Errors × List (Member S)
  append_batch batch [] = ([], [])
  append_batch batch (m ∷ sinks) =
      let (e, s) = m.append batch m.state in
      let (es, rest) = append_batch batch sinks in (e ++ es, record m { state = s } ∷ rest)

  abbrev pub close_member : Option (S → Errors × S) → S → Errors × S
  close_member none s = ([], s)
  close_member (some close) s = close s

  -- MultiStore.Close
  unfoldable pub close_all : List (Member S) → Errors × List (Member S)
  close_all [] = ([], [])
  close_all (m ∷ sinks) =
      let (e, s) = close_member m.close m.state in
      let (es, rest) = close_all sinks in (e ++ es, record m { state = s } ∷ rest)
