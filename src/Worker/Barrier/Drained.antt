-- ===== src/Worker/Barrier/Drained.antt =====
-- What an outcome of Ok says of a flush pass of src/worker.cpp.
use player_trace_sdk.Base.{ℕ, ◌<◌, All}
use player_trace_sdk.Queue
use player_trace_sdk.Worker.Core.{Shared, retry_front_ordinal}
use player_trace_sdk.Store.Interface.{EventStore}

module _ {S : Type 0} (store : EventStore S) where
  open store use {pending, count_up_to, in_transaction, counted_up_to}

  -- Everything admitted under an ordinal up to the barrier has left the queue, the retry buffer and the store.
  abbrev pub IsDrained : ℕ → Shared × S → Type 0
  IsDrained barrier (p, s) =
      (barrier < Queue.front_ordinal p.pipeline.queue)
      × (barrier < retry_front_ordinal p.core)
      × All (λ r. barrier < r.ordinal) (pending s)
