-- ===== src/Types/Names.antt =====
-- The printers of src/event.cpp.
use text.Mathlib.Text.{◌==◌}
use player_trace_sdk.Base.{String, ◌≡◌, refl, sym, ap, ◌∙◌, if◌then◌else◌}
use player_trace_sdk.Types.{
  ErrorCode, ok, invalid_config, invalid_event_name, invalid_property, reserved_key,
  value_too_large, too_many_properties, duplicate_key, queue_full, storage_full, consent_denied,
  not_started, already_shutdown, storage_error, sink_error, timeout, internal, ConsentState,
  unknown, denied, granted, LogLevel, debug, info, warn, error,
}

pub code_to_string : ErrorCode → String
code_to_string ok = "Ok"
code_to_string invalid_config = "InvalidConfig"
code_to_string invalid_event_name = "InvalidEventName"
code_to_string invalid_property = "InvalidProperty"
code_to_string reserved_key = "ReservedKey"
code_to_string value_too_large = "ValueTooLarge"
code_to_string too_many_properties = "TooManyProperties"
code_to_string duplicate_key = "DuplicateKey"
code_to_string queue_full = "QueueFull"
code_to_string storage_full = "StorageFull"
code_to_string consent_denied = "ConsentDenied"
code_to_string not_started = "NotStarted"
code_to_string already_shutdown = "AlreadyShutdown"
code_to_string storage_error = "StorageError"
code_to_string sink_error = "SinkError"
code_to_string timeout = "Timeout"
code_to_string internal = "Internal"

pub consent_to_string : ConsentState → String
consent_to_string unknown = "Unknown"
consent_to_string denied = "Denied"
consent_to_string granted = "Granted"

pub level_to_string : LogLevel → String
level_to_string debug = "Debug"
level_to_string info = "Info"
level_to_string warn = "Warn"
level_to_string error = "Error"

-- A reader of the identifiers, for the proof below.
read_code : String → ErrorCode
read_code s =
    if s == "Ok"
    then ok
    else if s == "InvalidConfig"
    then invalid_config
    else if s == "InvalidEventName"
    then invalid_event_name
    else if s == "InvalidProperty"
    then invalid_property
    else if s == "ReservedKey"
    then reserved_key
    else if s == "ValueTooLarge"
    then value_too_large
    else if s == "TooManyProperties"
    then too_many_properties
    else if s == "DuplicateKey"
    then duplicate_key
    else if s == "QueueFull"
    then queue_full
    else if s == "StorageFull"
    then storage_full
    else if s == "ConsentDenied"
    then consent_denied
    else if s == "NotStarted"
    then not_started
    else if s == "AlreadyShutdown"
    then already_shutdown
    else if s == "StorageError"
    then storage_error
    else if s == "SinkError"
    then sink_error
    else if s == "Timeout"
    then timeout
    else internal

read_code-code_to_string : (c : ErrorCode) → read_code (code_to_string c) ≡ c
unfolding read_code code_to_string
read_code-code_to_string ok = refl
read_code-code_to_string _ = refl

-- Two error codes with one printed identifier are the same code: the identifiers written to logs
-- tell every code apart.
pub code_to_string-injective : (a b : ErrorCode) → code_to_string a ≡ code_to_string b → a ≡ b
code_to_string-injective a b h =
    sym (read_code-code_to_string a) ∙ ap read_code h ∙ read_code-code_to_string b
