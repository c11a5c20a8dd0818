-- ===== src/Examples/Durable.antt =====
-- The theorems on the worker, with the store over a connection to SQLite in memory.
use player_trace_sdk.Base.{ℕ, ◌≡◌, ◌⊎◌, refl, true, false, List, [], ◌∷◌, Option, some, bytes_eq}
use player_trace_sdk.Types.{Status, ok, is_granted, SerializedEvent}
use player_trace_sdk.Store.Interface.{EventStore}
use player_trace_sdk.Store.Durable.{rows, status_of}
use player_trace_sdk.Store.Reads.{
  fetch_pending, prepare_fetch, row_limit, read_rows, sort_out, unusable, quarantine,
}
use player_trace_sdk.Validator.Keys.{is_empty}
use player_trace_sdk.Store.Transactions.{
  acknowledge, delete_ids, delete_ids_loop, bind_string, step_changes, transaction, or_rollback,
}
use player_trace_sdk.Store.Sqlite.{effect, remove_id}
use player_trace_sdk.Store.Durable.Events.{durable_events}
use player_trace_sdk.Worker.Core.{Shared}
use player_trace_sdk.Worker.Processing.{process_incoming}
use player_trace_sdk.Worker.Processing.Boundary.{Writes, at_lock, process_incoming-boundary}
use player_trace_sdk.Worker.Delivery.{
  deliver_round, safe_write, write_batch, note_fetch, acknowledge_batch,
}
use player_trace_sdk.Worker.Delivery.Progress.{
  Delivers, Removes, fetched_world, deliver_round-Delivers,
}
use player_trace_sdk.Worker.Loop.{World, Others}
use player_trace_sdk.Worker.Loop.Finishes.{Finishes}
use player_trace_sdk.Examples.Sample.{event}
use player_trace_sdk.Examples.Stores.{serialize, accept, worker, later}
use player_trace_sdk.Examples.Database.{Connection, memory, lookups, filled}

abbrev sqlite : EventStore Connection
sqlite = durable_events memory lookups

abbrev alone : Shared × Connection → Shared × Connection
alone x = x

-- One event in the worker's hand, and two rows stored.
abbrev held : Shared
held = record worker { pipeline = record worker.pipeline { outstanding = 4 } }

process_incoming-boundary_example :
    (rows memory (process_incoming sqlite serialize alone (event 3 ∷ []) (held, filled)).1
      ≡ rows memory filled)
    ⊎ ((is_granted held.pipeline.consent ≡ false)
        × (rows memory (process_incoming sqlite serialize alone (event 3 ∷ []) (held, filled)).1
            ≡ []))
    ⊎ Writes sqlite
        (event 3 ∷ [])
        (at_lock sqlite serialize alone (event 3 ∷ []) held filled)
        (process_incoming sqlite serialize alone (event 3 ∷ []) (held, filled)).1
process_incoming-boundary_example =
    process_incoming-boundary sqlite serialize alone (event 3 ∷ []) held filled

abbrev Accepted : Type 0
Accepted = List SerializedEvent

abbrev quiet : World Connection Accepted → World Connection Accepted
quiet x = x

delivered : (deliver_round sqlite accept quiet quiet (held, filled, [])).0 ≡ true
unfolding deliver_round write_batch note_fetch safe_write acknowledge_batch fetch_pending
    prepare_fetch row_limit read_rows sort_out unusable quarantine acknowledge delete_ids
    delete_ids_loop bind_string step_changes transaction or_rollback effect remove_id bytes_eq
    status_of
delivered = refl

deliver_round-Delivers_example :
    (let events = (fetch_pending memory lookups held.pipeline.config.batch_size filled).0.events in
      let x = fetched_world sqlite accept quiet quiet (held, filled, []) in
      (is_empty events ≡ false)
      × Delivers sqlite accept quiet quiet events x
      × Removes sqlite accept quiet quiet events
          (quiet (x.0, x.1, (safe_write accept events x.2).1)).1
          (deliver_round sqlite accept quiet quiet (held, filled, [])).1.1)
deliver_round-Delivers_example =
    deliver_round-Delivers sqlite accept quiet quiet held filled [] delivered

-- An event past the barrier is queued; nothing up to it is left.
abbrev barrier : ℕ
barrier = 2

abbrev nobody : Others Connection Accepted
nobody = record { at_lock = λ x. x; between = λ x. x; during = λ x. x; meanwhile = λ x. x }

abbrev flushed : Accepted → Option Status × Accepted
flushed k = (some ok, k)

-- Token 1 is submitted for everything up to ordinal 3, and a stop is requested.
abbrev asked : World Connection Accepted
asked = (
  record later { core = record later.core { flush_seq = 1; flush_barrier = 3; stop = true } },
  filled,
  [],
)
