-- ===== src/Worker/Loop.antt =====
-- The loops of `run` of src/worker.cpp: a pass over the queue, the drain of a flush, and the loop on
-- the request to stop.
--
-- What other threads do is the argument `others`: as process_incoming takes the store's lock, while a
-- batch is fetched and written, and in the gaps between the steps of a pass. `flush` is the sink's
-- flush: `none` where it throws. A loop on fuel answers `none` where the fuel runs out. Where an exception
-- ends the loop is not said: `leave` is what `run` does from then on, in whatever state.
pub mod Advance
pub mod Processed
pub mod Delivered
pub mod Drains
pub mod Passes
pub mod Finishes
use player_trace_sdk.Base.{
  ℕ, zero, suc, Bool, true, false, not, ◌||◌, List, [], ◌∷◌, length, ltb, Option, none, some,
  if◌then◌else◌,
}
use player_trace_sdk.Types.{is_ok, internal, Status, ok, Bytes, Event, QueuedEvent}
use player_trace_sdk.Validator.Keys.{is_empty}
use player_trace_sdk.Queue
use player_trace_sdk.Queue.{EventQueue}
use player_trace_sdk.Pipeline.{Pipeline, report_error, set_terminated}
use player_trace_sdk.Worker.Core.{WorkerCore, Shared, forget_errors}
use player_trace_sdk.Worker.Tokens.{record_pass, finish}
use player_trace_sdk.Worker.Processing.{process_incoming}
use player_trace_sdk.Worker.Delivery.{Sink, deliver_all}
use player_trace_sdk.Worker.Barrier.{work_remains_at_or_below, conclude_pass}
use player_trace_sdk.Store.Interface.{EventStore}

-- What the worker, the store and the sink are in.
abbrev pub World : Type 0 → Type 0 → Type 0
World S K = Shared × S × K

pub record Others (S K : Type 0) : Type 0 where
  pub at_lock : Shared × S → Shared × S
  pub between : World S K → World S K
  pub during : World S K → World S K
  pub meanwhile : World S K → World S K

-- pop_wait, from the moment its wait ends
unfoldable pub take_batch : Shared → List QueuedEvent × Shared
take_batch p =
    let (batch, q) = Queue.pop_wait p.pipeline.config.batch_size p.pipeline.queue in
    (batch, record p { pipeline = record p.pipeline { queue = q } })

-- What the barriers of `run` record, if an exception has ended the loop.
unfoldable pub caught : Bool → Shared → Shared
caught threw p =
    if threw then record p { core = record p.core { terminal_status = internal } } else p

-- Admission is closed for good where the exit was unexpected.
unfoldable pub close_admission : Shared → Shared
close_admission p =
    let terminal = p.core.terminal_status in
    if not (is_ok terminal)
    then record p { pipeline = report_error terminal (set_terminated p.pipeline) }
    else p

-- From the end of the loop on, with the tokens up to `handled` answered.
unfoldable pub leave : Bool → ℕ → Shared → Shared
leave threw handled p =
    let left = close_admission (caught threw p) in record left { core = finish handled left.core }

module _ {S K : Type 0} (store : EventStore S) (serialize : Event → Status × Bytes) (write : Sink K)
    (flush : K → Option Status × K) (others : Others S K) where
  open others use {at_lock, between, during, meanwhile}

  -- process_incoming and deliver_all on the events of one pop_wait: what was delivered, and was it any?
  unfoldable pub work : ℕ → List QueuedEvent → World S K → Option (Bool × World S K)
  work fuel batch (p, s, k) =
      let (p', s') = process_incoming store serialize at_lock batch (p, s) in
      deliver_all store write between during fuel false (meanwhile (p', s', k))

  abbrev pub goes_on : ℕ → List QueuedEvent → Bool × World S K → Bool
  goes_on queue_before more (delivered, (p, s, k)) =
      not (is_empty more) || delivered || ltb (Queue.size p.pipeline.queue) queue_before

  -- One round of the drain, and whether the drain goes on.
  unfoldable pub drain_round : ℕ → World S K → Option (Bool × World S K)
  drain_round fuel (p, s, k) =
      let (more, p') = take_batch p in
      elim (work fuel more (p', s, k)) [
        | none ↦ none
        | some r ↦ some (goes_on (Queue.size p.pipeline.queue) more r, r.1)
      ]

  unfoldable pub drain_loop : ℕ → ℕ → ℕ → World S K → Option (World S K)
  drain_loop barrier fuel zero x = none
  drain_loop barrier fuel (suc rounds) x =
      elim (work_remains_at_or_below store barrier (x.0, x.1)) [
        | none ↦ some x
        | some why ↦ elim (drain_round fuel x) [
          | none ↦ none
          | some (again, y) ↦ elim again [
            | false ↦ some y
            | true ↦ drain_loop barrier fuel rounds (meanwhile y)
          ]
        ]
      ]

  -- From the barrier to the record of the outcome, with the drained state.
  unfoldable pub settle : ℕ → ℕ → ℕ → World S K → World S K
  settle barrier handled want (p, s, k) =
      let (flushed, k') = flush k in
      let (p', s', k'') = meanwhile (p, s, k') in
      let (outcome, q) = conclude_pass store barrier flushed (p', s') in
      (record q { core = record_pass handled want outcome q.core }, s', k'')

  -- What a pass does for the tokens handled + 1, …, want, after its first delivery.
  unfoldable pub serve : ℕ → ℕ → ℕ → World S K → Option (World S K)
  serve fuel handled want x =
      let barrier = x.0.core.flush_barrier in
      elim (drain_loop barrier fuel fuel x) [
        | none ↦ none
        | some y ↦ some (settle barrier handled want y)
      ]

  -- One pass of the loop of `run`, after which the tokens up to the number returned are handled.
  unfoldable pub pass_for : ℕ → ℕ → Bool → World S K → Option (ℕ × World S K)
  pass_for fuel handled flush_pending (p, s, k) =
      let calm = if flush_pending then forget_errors p else p in
      let (p', s', k') = meanwhile (calm, s, k) in
      let (batch, p'') = take_batch p' in
      elim (work fuel batch (p'', s', k')) [
        | none ↦ none
        | some r ↦ elim flush_pending [
          | false ↦ some (handled, r.1)
          | true ↦ elim (serve fuel handled p.core.flush_seq (meanwhile r.1)) [
            | none ↦ none
            | some y ↦ some (p.core.flush_seq, y)
          ]
        ]
      ]

  -- A flush is pending if its token is not handled.
  unfoldable pub pass : ℕ → ℕ → World S K → Option (ℕ × World S K)
  pass fuel handled x = pass_for fuel handled (ltb handled x.0.core.flush_seq) x

  -- The loop, with a number of passes as fuel, and the exit from it.
  unfoldable pub run : ℕ → ℕ → ℕ → World S K → Option (World S K)
  run fuel zero handled x = none
  run fuel (suc passes) handled x = elim (pass fuel handled x) [
    | none ↦ none
    | some (handled', y) ↦ elim y.0.core.stop [
      | true ↦ some (leave false handled' y.0, y.1, y.2)
      | false ↦ run fuel passes handled' (meanwhile y)
    ]
  ]
