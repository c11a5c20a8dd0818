-- ===== src/Client/Lifecycle/Died.antt =====
-- A client whose worker was ended by an exception (src/worker.cpp, src/client.cpp).
use player_trace_sdk.Base.{ℕ, Option, ◌≤◌, ◌≡◌, true, false, some, arith}
use player_trace_sdk.Types.{Status, is_ok, internal, Bytes, Properties}
use player_trace_sdk.Pipeline.{report_error, set_terminated}
use player_trace_sdk.Worker.Tokens.{finish, wait_flush, flush_ready}
use player_trace_sdk.Worker.Loop.{caught, close_admission, leave}
use player_trace_sdk.Client.State.{Environment, Impl, terminal_locked}
use player_trace_sdk.Client.Admission.{admit_locked}
use player_trace_sdk.Client.Sessions.{start_session, end_session}
use player_trace_sdk.Client.Track.{track}
use player_trace_sdk.Client.Lifecycle.{flush, conclude, shutdown_status, with_shared}

-- The client, once its worker has left the loop on an exception.
abbrev pub dead : ℕ → Impl → Impl
dead handled im = with_shared (leave true handled im.shared) im

-- Once an exception has ended the worker's loop, in whatever state, nobody is told Ok any more: track,
-- start_session, end_session and flush fail and change nothing, every token that was submitted is
-- answered with Internal, and so does a shutdown that waits for the exit.
pub dead_refuses :
    (env : Environment) (w1 w2 : Impl → Impl) (name player_id : Bytes) (ps : Properties) (im : Impl)
    (handled : ℕ) (outcome : Option Status)
    → ((is_ok (track env (λ x. x) name ps (dead handled im)).0 ≡ false)
        × ((track env (λ x. x) name ps (dead handled im)).1 ≡ dead handled im))
      × ((is_ok (start_session env w1 w2 player_id (dead handled im)).0 ≡ false)
          × ((start_session env w1 w2 player_id (dead handled im)).1 ≡ dead handled im))
      × ((is_ok (end_session env (dead handled im)).0 ≡ false)
          × ((end_session env (dead handled im)).1 ≡ dead handled im))
      × ((is_ok (flush false w1 (dead handled im)).0 ≡ false)
          × ((flush false w1 (dead handled im)).1 ≡ dead handled im))
      × ((t : ℕ)
          → t ≤ im.shared.core.flush_seq
          → (wait_flush t (dead handled im).shared.core).0 ≡ some internal)
      × ((conclude outcome (dead handled im)).0 ≡ internal)
unfolding track start_session end_session flush admit_locked terminal_locked leave caught
    close_admission finish wait_flush flush_ready conclude shutdown_status set_terminated
    report_error
dead_refuses env w1 w2 name player_id ps im handled outcome = (
  (ground arith, ground arith),
  (ground arith, ground arith),
  (ground arith, ground arith),
  (ground arith, ground arith),
  λ t h. ground (arith, h),
  ground arith,
)
