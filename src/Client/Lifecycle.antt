-- ===== src/Client/Lifecycle.antt =====
-- flush, shutdown and wait_for_worker_exit of src/client.cpp, with wait_and_join of src/worker.cpp.
--
-- Whether the caller is the worker's own thread is the argument `on_worker`. What other threads do
-- until a wait ends, by its condition or by its timeout, is a function argument: `wait`, `drain` for
-- the final flush of shutdown and `stop` for the exit of the worker. request_sink_cancel only calls the sink.
pub mod Shut
pub mod Among
pub mod Died
use player_trace_sdk.Base.{ℕ, Bool, true, false, not, Option, none, some, if◌then◌else◌}
use player_trace_sdk.Types.{
  Status, ok, is_ok, sink_error, already_shutdown, timeout, internal, LifecycleState, running,
  stopping, stopped,
}
use player_trace_sdk.Worker.Core
use player_trace_sdk.Worker.Core.{WorkerCore, Shared}
use player_trace_sdk.Worker.Tokens.{submit_flush, wait_flush}
use player_trace_sdk.Client.State.{Impl, is_running, terminal_locked}

abbrev pub with_shared : Shared → Impl → Impl
with_shared s im = record im { shared = s }

abbrev pub with_lifecycle : LifecycleState → Impl → Impl
with_lifecycle state im = record im { lifecycle = state }

-- The status left by wait_flush: what it wrote, or `unanswered` where its timeout came first.
abbrev pub outcome_or : Status → Option Status → Status
outcome_or unanswered none = unanswered
outcome_or unanswered (some status) = status

-- wait_flush on the client's worker.
unfoldable pub await_flush : ℕ → Impl → Option Status × Impl
await_flush token im =
    let (outcome, core) = wait_flush token im.core in
    (outcome, with_shared (record im.shared { core = core }) im)

unfoldable pub flush : Bool → (Impl → Impl) → Impl → Status × Impl
flush on_worker wait im =
    if on_worker
    then (internal, im)
    else if not (is_running im.lifecycle)
    then (already_shutdown, im)
    else let terminal = terminal_locked im in
      if not (is_ok terminal)
      then (terminal, im)
      else let (token, submitted) = submit_flush im.ordinal im.shared in
        let (outcome, later) = await_flush token (wait (with_shared submitted im)) in
        (outcome_or timeout outcome, later)

abbrev pub is_stopped : LifecycleState → Bool
is_stopped stopped = true
is_stopped _ = false

-- What shutdown does not report: a drain that a sink refused, or that never ran.
abbrev pub is_tolerated : Status → Bool
is_tolerated sink_error = true
is_tolerated already_shutdown = true
is_tolerated _ = false

-- From terminal_status() to the end of shutdown.
unfoldable pub shutdown_status : Status → Status → Status
shutdown_status terminal persist_status =
    if not (is_ok terminal)
    then terminal
    else if not (is_ok persist_status)
    then (if is_tolerated persist_status then ok else persist_status)
    else ok

-- The final flush of shutdown and the request to stop.
unfoldable pub drain_and_stop : (Impl → Impl) → Impl → Option Status × Impl
drain_and_stop drain im =
    let (token, submitted) = submit_flush im.ordinal im.shared in
    let (outcome, later) = await_flush token (drain (with_shared submitted im)) in
    (outcome, with_shared (Core.request_stop later.shared) later)

-- From wait_and_join to the end of shutdown, where `ended` is the state as the wait ends.
unfoldable pub conclude : Option Status → Impl → Status × Impl
conclude outcome ended = if not ended.core.finished then (timeout, ended) else (
  shutdown_status ended.core.terminal_status (outcome_or ok outcome),
  with_lifecycle stopped ended,
)

unfoldable pub shutdown : Bool → (Impl → Impl) → (Impl → Impl) → Impl → Status × Impl
shutdown on_worker drain stop im =
    if on_worker
    then (
      internal,
      with_shared (Core.request_stop im.shared)
          (if is_running im.lifecycle then with_lifecycle stopping im else im),
    )
    else if is_stopped im.lifecycle
    then (ok, im)
    else let (outcome, asked) = drain_and_stop drain (with_lifecycle stopping im) in
      conclude outcome (stop asked)

unfoldable pub wait_for_worker_exit : Bool → (Impl → Impl) → Impl → Bool × Impl
wait_for_worker_exit on_worker wait im =
    if on_worker
    then (false, im)
    else let ended = wait im in
      if not ended.core.finished
      then (false, ended)
      else (true, if is_running ended.lifecycle then ended else with_lifecycle stopped ended)
