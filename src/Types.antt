-- ===== src/Types.antt =====
-- The public value types: include/playertrace/result.hpp, consent.hpp, event.hpp, sink.hpp, and
-- the lifecycle of src/internal/pipeline.hpp.
--
-- A std::string is the list of its bytes. A `double` is its IEEE-754 bit pattern. A Status is its
-- error code: the human-readable message is left out, since no code of the library reads one back.
pub mod Names
use player_trace_sdk.Base.{ℕ, Bool, true, false, List}
use player_trace_sdk.Base.Int.{ℤ}

pub data ErrorCode : Type 0 where
  ok invalid_config invalid_event_name invalid_property reserved_key : ErrorCode
  value_too_large too_many_properties duplicate_key queue_full storage_full : ErrorCode
  consent_denied not_started already_shutdown storage_error sink_error : ErrorCode
  timeout internal : ErrorCode

abbrev pub Status : Type 0
Status = ErrorCode

-- Status::ok().
abbrev pub is_ok : Status → Bool
is_ok ok = true
is_ok _ = false

pub data ConsentState : Type 0 where
  unknown denied granted : ConsentState

abbrev pub is_granted : ConsentState → Bool
is_granted granted = true
is_granted _ = false

pub data LogLevel : Type 0 where
  debug info warn error : LogLevel

pub data LifecycleState : Type 0 where
  running stopping stopped : LifecycleState

abbrev pub Bytes : Type 0
Bytes = List ℕ

pub data PropertyValue : Type 0 where
  bool : Bool → PropertyValue
  int : ℤ → PropertyValue
  double : ℕ → PropertyValue
  string : Bytes → PropertyValue

abbrev pub Property : Type 0
Property = Bytes × PropertyValue

abbrev pub Properties : Type 0
Properties = List Property

pub record Event : Type 0 where
  pub event_id : Bytes
  pub app_id : Bytes
  pub name : Bytes
  pub schema_version : ℕ
  pub timestamp_ms : ℤ
  pub session_id : Bytes
  pub player_id : Bytes
  pub sequence : ℕ
  pub properties : Properties

-- kEventSchemaVersion
abbrev pub event_schema_version : ℕ
event_schema_version = 1

pub record QueuedEvent : Type 0 where
  pub event : Event
  pub ordinal : ℕ
  pub consent_generation : ℕ

pub record SerializedEvent : Type 0 where
  pub event_id : Bytes
  pub json : Bytes
