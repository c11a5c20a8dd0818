-- ===== src/Examples/Lifecycle.antt =====
-- The theorems of Client.Lifecycle at a client whose worker answers the first flush and then stops.
use player_trace_sdk.Base.{◌∷◌, [], ◌≡◌, ◌≤◌, ℕ, codes, refl, inl, true, false, some, codes, ℕ}
use player_trace_sdk.Types.{ok, is_ok, internal, timeout, stopping}
use player_trace_sdk.Worker.Core.{WorkerCore, request_stop}
use player_trace_sdk.Worker.Tokens.{
  find, record_pass, finish, answer, prune, store, submit_flush, wait_flush, flush_result,
  flush_ready,
}
use player_trace_sdk.Worker.Tokens.Retention.{History, IsHonest}
use player_trace_sdk.Client.State.{Impl, is_running, terminal_locked}
use player_trace_sdk.Client.Sessions.{start_session, end_session}
use player_trace_sdk.Client.Track.{track}
use player_trace_sdk.Client.Lifecycle.{
  flush, shutdown, with_lifecycle, await_flush, drain_and_stop, conclude, with_shared,
}
use player_trace_sdk.Client.Lifecycle.Among.{
  tracks, works, Steps, rest, then_step, shutdown-IsShut_among,
}
use player_trace_sdk.Client.Lifecycle.Shut.{submitted, flush-ok, IsShut, closed_refuses}
use player_trace_sdk.Client.Lifecycle.Died.{dead, dead_refuses}
use player_trace_sdk.Examples.Sample.{client, env, level_started, properties}

abbrev with_core : (WorkerCore → WorkerCore) → Impl → Impl
with_core f im = with_shared (record im.shared { core = f im.core }) im

-- The worker answers token 1 with Ok.
abbrev serve : Impl → Impl
serve = with_core (record_pass 0 1 ok)

-- The worker sees the request to stop and exits.
abbrev exit : Impl → Impl
exit = with_core (finish 1)

abbrev past : History
past t = find t ((1, ok) ∷ [])

served-IsHonest : IsHonest past (serve (submitted client)).core
unfolding record_pass answer prune store submit_flush find
served-IsHonest = record { filed = λ t s h. h }

flushed : (flush false serve client).0 ≡ ok
unfolding flush await_flush submit_flush wait_flush flush_ready flush_result record_pass answer
    prune store find terminal_locked
flushed = refl

flush-ok_example :
    (false ≡ false)
    × (is_running client.lifecycle ≡ true)
    × (terminal_locked client ≡ ok)
    × (past 1 ≡ some ok)
flush-ok_example = flush-ok past serve client served-IsHonest false flushed

-- Another thread tracks an event, and the worker answers the flush.
abbrev drained : Impl → Impl
drained im = serve (track env (λ x. x) level_started properties im).1

drained-Steps : (im : Impl) → Steps env im (drained im)
unfolding record_pass
drained-Steps im =
    let tracked = (track env (λ x. x) level_started properties im).1 in
    then_step im tracked (drained im)
      (then_step im im tracked (rest im) (tracks level_started properties im))
      (works tracked (drained im) refl (λ f. f))

exit-Steps : (im : Impl) → Steps env im (exit im)
unfolding finish
exit-Steps im = then_step im im (exit im) (rest im) (works im (exit im) refl (λ f. refl))

shutdown-IsShut_among_example : IsShut (shutdown false drained exit client).1
shutdown-IsShut_among_example =
    shutdown-IsShut_among env false drained exit client drained-Steps exit-Steps (inl refl)

-- A worker that stays inside a sink: shutdown times out, and admission is closed.
stuck :
    ((shutdown false (λ im. im) (λ im. im) client).0 ≡ timeout)
    × ((shutdown false (λ im. im) (λ im. im) client).1.lifecycle ≡ stopping)
unfolding shutdown drain_and_stop conclude await_flush submit_flush wait_flush flush_ready
    request_stop
stuck = (refl, refl)

abbrev closing : Impl
closing = with_lifecycle stopping client

closed_refuses_example :
    ((is_ok (track env (λ x. x) level_started properties closing).0 ≡ false)
      × ((track env (λ x. x) level_started properties closing).1 ≡ closing))
    × ((is_ok (start_session env exit exit level_started closing).0 ≡ false)
        × ((start_session env exit exit level_started closing).1 ≡ closing))
    × ((is_ok (end_session env closing).0 ≡ false) × ((end_session env closing).1 ≡ closing))
    × ((is_ok (flush false exit closing).0 ≡ false) × ((flush false exit closing).1 ≡ closing))
closed_refuses_example =
    closed_refuses env exit exit level_started level_started properties closing refl

abbrev gone : Impl
gone = dead 0 client

dead_refuses_example :
    ((is_ok (track env (λ x. x) (codes "level_started") [] gone).0 ≡ false)
      × ((track env (λ x. x) (codes "level_started") [] gone).1 ≡ gone))
    × ((is_ok (start_session env (λ x. x) (λ x. x) [] gone).0 ≡ false)
        × ((start_session env (λ x. x) (λ x. x) [] gone).1 ≡ gone))
    × ((is_ok (end_session env gone).0 ≡ false) × ((end_session env gone).1 ≡ gone))
    × ((is_ok (flush false (λ x. x) gone).0 ≡ false) × ((flush false (λ x. x) gone).1 ≡ gone))
    × ((t : ℕ)
        → t ≤ client.shared.core.flush_seq
        → (wait_flush t gone.shared.core).0 ≡ some internal)
    × ((conclude (some ok) gone).0 ≡ internal)
dead_refuses_example =
    dead_refuses env (λ x. x) (λ x. x) (codes "level_started") [] [] client 0 (some ok)
