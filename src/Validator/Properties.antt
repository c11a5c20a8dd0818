-- ===== src/Validator/Properties.antt =====
-- EventValidator::validate_properties of src/event_validator.cpp.
pub mod Laws
use player_trace_sdk.Base.{
  ℕ, ◌/◌, ◌%◌, ◌^◌, Bool, true, false, not, List, [], ◌∷◌, length, ltb, ◌==◌, if◌then◌else◌,
}
use player_trace_sdk.Types.{
  Status, ok, is_ok, value_too_large, invalid_property, reserved_key, duplicate_key,
  too_many_properties, Bytes, PropertyValue, bool, int, double, string, Property, Properties,
}
use player_trace_sdk.Validator.Utf8.{is_valid_utf8}
use player_trace_sdk.Validator.Keys.{Validator, is_reserved_key, contains, validate_identifier}

-- std::isfinite of an IEEE-754 binary64: the exponent bits are not all ones.
unfoldable pub is_finite : ℕ → Bool
is_finite d = not (d / 2 ^ 52 % 2048 == 2047)

module _ (v : Validator) where
  -- The switch on value.type().
  unfoldable pub check_value : PropertyValue → Status
  check_value (string s) =
      if ltb v.max_string_length (length s)
      then value_too_large
      else if not (is_valid_utf8 s)
      then invalid_property
      else ok
  check_value (double d) = if not (is_finite d) then invalid_property else ok
  check_value (bool b) = ok
  check_value (int i) = ok

  -- The loop over the properties; `seen` holds the keys before them.
  unfoldable pub check_properties : List Bytes → Properties → Status
  check_properties seen [] = ok
  check_properties seen ((key, value) ∷ rest) =
      let name_status = validate_identifier v key invalid_property in
      let value_status = check_value value in
      let others = check_properties (key ∷ seen) rest in
      if not (is_ok name_status)
      then name_status
      else if is_reserved_key key
      then reserved_key
      else if contains seen key
      then duplicate_key
      else if not (is_ok value_status)
      then value_status
      else others

  unfoldable pub validate_properties : Properties → Status
  unfolding check_properties
  validate_properties properties =
      if ltb v.max_properties (length properties)
      then too_many_properties
      else check_properties [] properties
