-- ===== src/Worker/Barrier.antt =====
-- The end of a flush pass of src/worker.cpp: work_remains_at_or_below, and what `run` does from
-- safe_flush_sink to the outcome of the pass. The sink's flush is the argument `flush`.
pub mod Drained
use player_trace_sdk.Base.{
  ℕ, Bool, true, false, not, Option, none, some, ltb, leb, ◌==◌, if◌then◌else◌,
}
use player_trace_sdk.Types.{Status, ok, is_ok, timeout, storage_error, sink_error}
use player_trace_sdk.Queue
use player_trace_sdk.Worker.Core.{WorkerCore, Shared, retry_front_ordinal, note_error}
use player_trace_sdk.Store.Interface.{EventStore}

-- A sink that throws has failed; where there is no sink, the answer is `some ok`.
unfoldable pub safe_flush_sink : Option Status → Status
safe_flush_sink none = sink_error
safe_flush_sink (some status) = status

-- if (work_remains_at_or_below(barrier, &residual) && outcome.ok()) outcome = residual;
unfoldable pub pass_outcome : Option Status → Status → Status
pass_outcome none outcome = outcome
pass_outcome (some residual) outcome = if is_ok outcome then residual else outcome

module _ {S : Type 0} (store : EventStore S) where
  open store use {count_up_to}

  -- The reason why work remains, or `none` where none remains.
  unfoldable pub work_remains_at_or_below : ℕ → Shared × S → Option Status
  work_remains_at_or_below barrier (p, s) =
      if barrier == 0
      then none
      else if leb (Queue.front_ordinal p.pipeline.queue) barrier
      then some timeout
      else if leb (retry_front_ordinal p.core) barrier
      then some storage_error
      else let (counted, rows) = count_up_to barrier s in
        if not (is_ok counted) then some counted else if ltb 0 rows then some sink_error else none

  -- The outcome of the pass, with the error slot emptied.
  unfoldable pub conclude_pass : ℕ → Option Status → Shared × S → Status × Shared
  conclude_pass barrier flushed (p, s) =
      let sink_flush = safe_flush_sink flushed in
      let noted = if not (is_ok sink_flush) then note_error sink_flush p else p in
      let outcome = noted.core.pending_error in
      let emptied = record noted { core = record noted.core { pending_error = ok } } in
      (pass_outcome (work_remains_at_or_below barrier (emptied, s)) outcome, emptied)
