-- ===== src/Examples/Loops.antt =====
-- Tests of the loops of the worker, with one event queued and one stored.
use player_trace_sdk.Base.{◌≡◌, bytes_eq, ℕ, refl, true, List, [], length, Option, none, some}
use player_trace_sdk.Types.{Status, ok, internal, SerializedEvent}
use player_trace_sdk.Queue.{pop_wait, move_out, front_ordinal, size}
use player_trace_sdk.Pipeline.{release_outstanding, count_delivered, count_persisted}
use player_trace_sdk.Store.Interface.{insert_or_ignore, rows_up_to, is_ignored, has_id}
use player_trace_sdk.Worker.Core.{forget_errors, take_retry, retry_front_ordinal}
use player_trace_sdk.Worker.Tokens.{record_pass, answer, store, prune, flush_result, find}
use player_trace_sdk.Worker.Processing.{process_incoming, process_batch, screen, commit_batch}
use player_trace_sdk.Worker.Delivery.{
  deliver_all, deliver_round, note_fetch, write_batch, safe_write, acknowledge_batch,
}
use player_trace_sdk.Worker.Barrier.{
  conclude_pass, pass_outcome, safe_flush_sink, work_remains_at_or_below,
}
use player_trace_sdk.Worker.Loop.{
  World, Others, pass, pass_for, serve, settle, drain_loop, drain_round, work, take_batch,
}
use player_trace_sdk.Examples.Stores.{Disk, table, serialize, accept, later, disk}

abbrev Accepted : Type 0
Accepted = List SerializedEvent

abbrev nobody : Others Disk Accepted
nobody = record { at_lock = λ x. x; between = λ x. x; during = λ x. x; meanwhile = λ x. x }

abbrev flushed : Accepted → Option Status × Accepted
flushed k = (some ok, k)

-- Token 1 is submitted for everything up to ordinal 3, and a stop is requested.
abbrev asked : World Disk Accepted
asked = (
  record later { core = record later.core { flush_seq = 1; flush_barrier = 3; stop = true } },
  disk,
  [],
)

-- What the pass leaves in the sink, and the outcome of token 1.
abbrev results : Option (ℕ × World Disk Accepted) → ℕ × Status
results none = (0, internal)
results (some (handled, (p, s, k))) = (length k, flush_result 1 p.core)

-- The stored event and the queued one are delivered, and the flush is told Ok.
served : results (pass table serialize accept flushed nobody 9 0 asked) ≡ (2, ok)
unfolding pass pass_for serve settle drain_loop drain_round work take_batch pop_wait move_out
    forget_errors process_incoming process_batch screen commit_batch take_retry insert_or_ignore
    deliver_all deliver_round note_fetch write_batch safe_write acknowledge_batch conclude_pass
    pass_outcome safe_flush_sink work_remains_at_or_below front_ordinal retry_front_ordinal
    rows_up_to record_pass answer store prune flush_result find is_ignored has_id bytes_eq size
    release_outstanding count_delivered count_persisted
served = refl
