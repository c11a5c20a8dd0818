-- ===== src/Examples/Queues.antt =====
-- The queue and the session.
use player_trace_sdk.Base.{◌≡◌, refl, List, [], ◌∷◌, arith}
use player_trace_sdk.Queue.History.{Call, push, pop, wake, drop_all, Trace, IsFifo, run, run-IsFifo}
use player_trace_sdk.Session.{Assigned, next, rollback}
use player_trace_sdk.Session.Laws.{rollback-next}
use player_trace_sdk.Examples.Sample.{event, queue, session}

abbrev trace : Trace
trace = record { state = queue; accepted = event 1 ∷ []; removed = [] }

abbrev calls : List Call
calls = push (event 2) ∷ wake ∷ pop 2 ∷ push (event 3) ∷ drop_all ∷ []

run-IsFifo_example : IsFifo (run calls trace)
run-IsFifo_example = run-IsFifo calls trace (record { order = refl; bounded = omega arith })

abbrev second : Assigned
second = record { session_id = 7 ∷ []; player_id = []; sequence = 2 }

rollback-next_example : rollback (7 ∷ []) 2 (next session).1 ≡ session
unfolding next
rollback-next_example = rollback-next session second (omega arith) refl
