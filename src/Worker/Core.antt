-- ===== src/Worker/Core.antt =====
-- The state of WorkerCore, its retry buffer and its error slot (src/worker.cpp).
--
-- A method that holds one mutex, or one atomic access, is one step.
use player_trace_sdk.Validator.Keys.{is_empty}
use player_trace_sdk.Base.{ℕ, Bool, true, false, List, [], ◌∷◌, ◌++◌, length, ltb, if◌then◌else◌}
use player_trace_sdk.Base.Words.{u64_max}
use player_trace_sdk.Types.{Status, ok, is_ok, QueuedEvent}
use player_trace_sdk.Queue
use player_trace_sdk.Pipeline.{Pipeline, count_discarded_consent, release_outstanding, report_error}

-- `pass_results` is the std::map of the outcome of each flush token, in the order of the tokens.
pub record WorkerCore : Type 0 where
  pub retry : List QueuedEvent
  pub stop : Bool
  pub finished : Bool
  pub flush_seq : ℕ
  pub flush_done : ℕ
  pub flush_barrier : ℕ
  pub pending_error : Status
  pub terminal_status : Status
  pub pass_results : List (ℕ × Status)

abbrev pub init : WorkerCore
init = record {
  retry = [];
  stop = false;
  finished = false;
  flush_seq = 0;
  flush_done = 0;
  flush_barrier = 0;
  pending_error = ok;
  terminal_status = ok;
  pass_results = [];
}

-- What the worker and the client reach through `pipeline_`, but for the store.
pub record Shared : Type 0 where
  pub pipeline : Pipeline
  pub core : WorkerCore

unfoldable pub request_stop : Shared → Shared
request_stop s = record {
  pipeline = record s.pipeline { queue = Queue.kick s.pipeline.queue };
  core = record s.core { stop = true };
}

unfoldable pub forget_errors : Shared → Shared
forget_errors s = record s { core = record s.core { pending_error = ok } }

unfoldable pub discard_in_flight : Shared → Shared
discard_in_flight s =
    let dropped = length s.core.retry in
    let emptied = record s { core = record s.core { retry = [] } } in
    if ltb 0 dropped
    then record emptied {
      pipeline = release_outstanding dropped (count_discarded_consent dropped s.pipeline);
    }
    else emptied

unfoldable pub note_error : Status → Shared → Shared
note_error status s = record {
  pipeline = report_error status s.pipeline;
  core = if is_ok s.core.pending_error then record s.core { pending_error = status } else s.core;
}

abbrev front_or_none : List QueuedEvent → ℕ
front_or_none [] = u64_max
front_or_none (e ∷ es) = e.ordinal

unfoldable pub retry_front_ordinal : WorkerCore → ℕ
retry_front_ordinal c = front_or_none c.retry

-- The events taken, and the worker with an empty buffer.
unfoldable pub take_retry : WorkerCore → List QueuedEvent × WorkerCore
take_retry c = (c.retry, record c { retry = [] })

unfoldable pub hold_for_retry : List QueuedEvent → WorkerCore → WorkerCore
hold_for_retry batch c =
    if is_empty batch
    then c
    else if is_empty c.retry
    then record c { retry = batch }
    else record c { retry = batch ++ c.retry }
