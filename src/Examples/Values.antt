-- ===== src/Examples/Values.antt =====
-- Validation, configuration and names.
use player_trace_sdk.Base.{◌≡◌, ◌↔◌, refl, true, false, [], ◌∷◌, arith}
use player_trace_sdk.Types.{ok}
use player_trace_sdk.Validator.Utf8.{is_valid_utf8}
use player_trace_sdk.Validator.Utf8.Sound.{Spells}
use player_trace_sdk.Validator.Utf8.Complete.{is_valid_utf8_iff}
use player_trace_sdk.Validator.Properties.{validate_properties}
use player_trace_sdk.Validator.Properties.Laws.{IsPropertyMap, validate_properties_iff}
use player_trace_sdk.Config.{validate_config}
use player_trace_sdk.Config.Laws.{IsConfig, validate_config_iff}
use player_trace_sdk.Examples.Sample.{config, limits, properties}

euro : is_valid_utf8 (0xE2 ∷ 0x82 ∷ 0xAC ∷ []) ≡ true
unfolding is_valid_utf8
euro = refl

surrogate : is_valid_utf8 (0xED ∷ 0xA0 ∷ 0x80 ∷ []) ≡ false
unfolding is_valid_utf8
surrogate = refl

is_valid_utf8_iff_example :
    (is_valid_utf8 (0xE2 ∷ 0x82 ∷ 0xAC ∷ []) ≡ true) ↔ Spells (0xE2 ∷ 0x82 ∷ 0xAC ∷ [])
is_valid_utf8_iff_example = is_valid_utf8_iff (0xE2 ∷ 0x82 ∷ 0xAC ∷ []) (omega arith)

validate_properties_iff_example :
    (validate_properties limits properties ≡ ok) ↔ IsPropertyMap limits properties
validate_properties_iff_example = validate_properties_iff limits properties (omega arith)

validate_config_iff_example : (validate_config config ≡ ok) ↔ IsConfig config
validate_config_iff_example = validate_config_iff config
