-- ===== src/Examples/Workers.antt =====
-- Flush tokens.
use player_trace_sdk.Base.{◌≡◌, refl, [], ◌∷◌, some, arith}
use player_trace_sdk.Types.{ok, sink_error}
use player_trace_sdk.Worker.Core
use player_trace_sdk.Worker.Core.{WorkerCore}
use player_trace_sdk.Worker.Tokens.{find, flush_result, flush_ready, wait_flush, record_pass, prune}
use player_trace_sdk.Worker.Tokens.Retention.{
  IsAnswered, History, IsHonest, IsFiled, record_pass-IsFiled, wait_flush-ok,
}

-- Token 1 was answered with success; tokens 2 and 3 are asked for.
abbrev core : WorkerCore
core = record Core.init { flush_seq = 3; flush_done = 1; pass_results = (1, ok) ∷ [] }

core-IsAnswered : IsAnswered 1 core
core-IsAnswered = record {
  ascending = omega arith;
  known = omega arith;
  few = omega arith;
  issued = omega arith;
  no_wrap = omega arith;
}

abbrev past : History
past t = find t ((1, ok) ∷ [])

core-IsHonest : IsHonest past core
core-IsHonest = record { filed = λ t s h. h }

record_pass-IsFiled_example :
    IsFiled 1 3 sink_error core.pass_results (record_pass 1 3 sink_error core).pass_results
record_pass-IsFiled_example =
    record_pass-IsFiled 1 3 sink_error core core-IsAnswered (omega arith) (omega arith)

waited : wait_flush 1 core ≡ (some ok, record core { pass_results = (1, ok) ∷ [] })
unfolding wait_flush flush_ready flush_result find prune
waited = refl

wait_flush-ok_example : past 1 ≡ some ok
wait_flush-ok_example =
    wait_flush-ok past 1 core (record core { pass_results = (1, ok) ∷ [] }) core-IsHonest waited
