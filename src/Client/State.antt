-- ===== src/Client/State.antt =====
-- The state of Client::Impl (src/client.cpp), and what it takes from outside.
--
-- Ids and times come from the environment: `uuid n` is the n-th id that the generator returns, and
-- `now n` the n-th time that the clock returns; the state counts how many were taken. `seconds` is
-- the division of a duration by 1000.0.
use player_trace_sdk.Base.{ℕ, Bool, true, false, if◌then◌else◌}
use player_trace_sdk.Base.Int.{ℤ}
use player_trace_sdk.Types.{Status, ok, is_ok, internal, Bytes, LifecycleState, running}
use player_trace_sdk.Validator.Keys.{Validator}
use player_trace_sdk.Session
use player_trace_sdk.Session.{SessionManager}
use player_trace_sdk.Config.{Config}
use player_trace_sdk.Pipeline
use player_trace_sdk.Pipeline.{Pipeline}
use player_trace_sdk.Worker.Core
use player_trace_sdk.Worker.Core.{WorkerCore, Shared}

pub record Environment : Type 0 where
  pub uuid : ℕ → Bytes
  pub now : ℕ → ℤ
  pub seconds : ℤ → ℕ

pub record Impl : Type 0 where
  pub validator : Validator
  pub session : SessionManager
  pub max_pending_events : ℕ
  pub shared : Shared
  pub open shared use *
  pub lifecycle : LifecycleState
  pub ordinal : ℕ
  pub purge_required : Bool
  pub ids_taken : ℕ
  pub times_taken : ℕ

abbrev pub is_running : LifecycleState → Bool
is_running running = true
is_running _ = false

-- The constructor, with what ClientInternal::create recovered from the store.
unfoldable pub construct : Config → ℕ → ℕ → Impl
construct config initial_outstanding initial_ordinal = record {
  validator = record {
    max_name_length = config.max_name_length;
    max_properties = config.max_properties;
    max_string_length = config.max_string_length;
    max_player_id_length = config.max_player_id_length;
  };
  session = Session.init;
  max_pending_events = config.max_pending_events;
  shared = record {
    pipeline = Pipeline.reset_outstanding initial_outstanding (Pipeline.init config);
    core = Core.init;
  };
  lifecycle = running;
  ordinal = initial_ordinal;
  purge_required = false;
  ids_taken = 0;
  times_taken = 0;
}

-- Writes of one part.
abbrev pub with_pipeline : Pipeline → Impl → Impl
with_pipeline p im = record im { shared = record im.shared { pipeline = p } }

abbrev pub with_session : SessionManager → Impl → Impl
with_session s im = record im { session = s }

-- terminal_locked
unfoldable pub terminal_locked : Impl → Status
terminal_locked im =
    if im.pipeline.terminated
    then (if is_ok im.core.terminal_status then internal else im.core.terminal_status)
    else ok
