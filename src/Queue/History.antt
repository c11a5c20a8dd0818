-- ===== src/Queue/History.antt =====
-- Histories of calls of the queue (src/event_queue.cpp), against a first-in first-out buffer.
use player_trace_sdk.Base.{
  ℕ, ◌≤◌, ◌≡◌, List, [], ◌∷◌, ◌++◌, length, take, drop, length-append, length-drop,
  take-append-drop, arith, if◌then◌else◌, append_assoc, append-nil,
}
use player_trace_sdk.Types.{QueuedEvent}
use player_trace_sdk.Queue.{EventQueue, try_push, pop_wait, kick, clear}
use player_trace_sdk.Queue.Laws.{move_out-take-drop}

-- The calls that change the queue, by producers, the worker and a revocation.
pub data Call : Type 0 where
  push : QueuedEvent → Call
  pop : ℕ → Call
  wake : Call
  drop_all : Call

-- The queue with what it has accepted, given to the consumer and thrown away so far. The order
-- between what was given and what was thrown away is that of the calls.
pub record Trace : Type 0 where
  pub state : EventQueue
  pub accepted : List QueuedEvent
  pub removed : List QueuedEvent

unfoldable pub step : Call → Trace → Trace
step (push e) t =
    let (taken, q) = try_push e t.state in
    record t { state = q; accepted = if taken then t.accepted ++ e ∷ [] else t.accepted }
step (pop max) t =
    let (moved, q) = pop_wait max t.state in record t { state = q; removed = t.removed ++ moved }
step wake t = record t { state = kick t.state }
step drop_all t = record t { state = (clear t.state).1; removed = t.removed ++ t.state.queue }

unfoldable pub run : List Call → Trace → Trace
run [] t = t
run (c ∷ cs) t = run cs (step c t)

pub record IsFifo (t : Trace) : Type 0 where
  pub order : t.accepted ≡ t.removed ++ t.state.queue
  pub bounded : length t.state.queue ≤ t.state.capacity

step-IsFifo : (c : Call) (t : Trace) → IsFifo t → IsFifo (step c t)
unfolding step try_push pop_wait kick clear
step-IsFifo (push e) t f =
    ground
      (arith, append_assoc t.removed t.state.queue (e ∷ []), length-append t.state.queue (e ∷ []))
step-IsFifo (pop max) t f = ground (
  arith,
  move_out-take-drop max t.state.queue,
  append_assoc t.removed (take max t.state.queue) (drop max t.state.queue),
  take-append-drop max t.state.queue,
  length-drop max t.state.queue,
)
step-IsFifo wake t f = ground arith
step-IsFifo drop_all t f = ground (arith, append-nil (t.removed ++ t.state.queue))

-- Over every history of calls the queue is first in, first out: what was removed, followed by what
-- is queued, is exactly what was accepted, in the order of acceptance; and the capacity is kept.
pub run-IsFifo : (cs : List Call) (t : Trace) → IsFifo t → IsFifo (run cs t)
unfolding run
run-IsFifo [] t f = f
run-IsFifo (c ∷ cs) t f = run-IsFifo cs (step c t) (step-IsFifo c t f)
