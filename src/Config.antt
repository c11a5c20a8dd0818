-- ===== src/Config.antt =====
-- The configuration of include/playertrace/config.hpp and its check, validate_config of
-- src/client.cpp.
--
-- The sink is the model's own parameter where it is used; the log and error callbacks change nothing
-- of the library's state.
pub mod Laws
use player_trace_sdk.Base.{
  ℕ, ◌*◌, Bool, true, false, not, ◌&&◌, ◌||◌, List, [], ◌∷◌, Option, length, ltb, leb, ◌==◌,
  if◌then◌else◌,
}
use player_trace_sdk.Base.Int.{ℤ, pos, negsuc}
use player_trace_sdk.Types.{ConsentState, Status, ok, invalid_config, Bytes, PropertyValue}
use player_trace_sdk.Validator.Keys.{is_empty}

-- The user's filter: whether a property is kept, or `none` where it throws.
abbrev pub PropertyFilter : Type 0
PropertyFilter = Bytes → PropertyValue → Option Bool

pub record Config : Type 0 where
  pub app_id : Bytes
  pub storage_path : Bytes
  pub consent : ConsentState
  pub max_queue_size : ℕ
  pub batch_size : ℕ
  pub batch_interval : ℤ
  pub max_pending_events : ℕ
  pub max_name_length : ℕ
  pub max_properties : ℕ
  pub max_string_length : ℕ
  pub max_player_id_length : ℕ
  pub property_filter : Option PropertyFilter

-- kMaxConfigCount
abbrev pub max_config_count : ℕ
max_config_count = 100000000

unfoldable pub app_id_char : ℕ → Bool
app_id_char c =
    (leb b'A' c && leb c b'Z')
    || (leb b'a' c && leb c b'z')
    || (leb b'0' c && leb c b'9')
    || (c == b'.')
    || (c == b'-')
    || (c == b'_')

-- The loop over the characters of app_id.
unfoldable pub app_id_chars : Bytes → Bool
app_id_chars [] = true
app_id_chars (c ∷ cs) = app_id_char c && app_id_chars cs

-- batch_interval <= 0
abbrev pub not_positive : ℤ → Bool
not_positive (pos n) = n == 0
not_positive (negsuc n) = true

-- The loop over `counts`: one of them is too large.
unfoldable pub any_too_large : List ℕ → Bool
any_too_large [] = false
any_too_large (value ∷ rest) = ltb max_config_count value || any_too_large rest

abbrev pub counts : Config → List ℕ
counts c =
    c.max_queue_size ∷ c.batch_size ∷ c.max_pending_events ∷ c.max_properties ∷ c.max_name_length
    ∷ c.max_string_length ∷ c.max_player_id_length ∷ []

unfoldable pub validate_config : Config → Status
validate_config config =
    if is_empty config.app_id
    then invalid_config
    else if ltb 64 (length config.app_id)
    then invalid_config
    else if not (app_id_chars config.app_id)
    then invalid_config
    else if is_empty config.storage_path
    then invalid_config
    else if config.batch_size == 0
    then invalid_config
    else if config.max_queue_size == 0
    then invalid_config
    else if config.max_pending_events == 0
    then invalid_config
    else if config.max_name_length == 0
    then invalid_config
    else if config.max_string_length == 0
    then invalid_config
    else if config.max_player_id_length == 0
    then invalid_config
    else if not_positive config.batch_interval
    then invalid_config
    else if any_too_large (counts config)
    then invalid_config
    else if ltb config.max_queue_size config.batch_size
    then invalid_config
    else ok
