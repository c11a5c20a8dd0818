-- ===== src/Client/Track.antt =====
-- track and apply_filter of src/client.cpp.
pub mod Accepted
use player_trace_sdk.Base.{
  ℕ, Bool, true, false, not, List, [], ◌∷◌, Option, none, some, ◌==◌, if◌then◌else◌,
}
use player_trace_sdk.Types.{Status, ok, is_ok, consent_denied, Bytes, Property, Properties}
use player_trace_sdk.Validator.Keys.{validate_name}
use player_trace_sdk.Validator.Properties.{validate_properties}
use player_trace_sdk.Config.{PropertyFilter}
use player_trace_sdk.Client.State.{Environment, Impl}
use player_trace_sdk.Client.Admission.{admit_locked}

-- The filter's answer; one that throws drops the property.
abbrev pub keeps : PropertyFilter → Property → Bool
keeps filter kv = elim (filter kv.0 kv.1) [ none ↦ false | some keep ↦ keep ]

-- The loop over the properties.
unfoldable pub filter_properties : PropertyFilter → Properties → Properties
filter_properties filter [] = []
filter_properties filter (kv ∷ rest) =
    let kept = filter_properties filter rest in if keeps filter kv then kv ∷ kept else kept

unfoldable pub apply_filter : Option PropertyFilter → Properties → Properties
unfolding filter_properties
apply_filter none properties = properties
apply_filter (some filter) properties = filter_properties filter properties

-- What other threads do between the reading of the generation and the taking of the admission lock
-- is the argument `between`.
unfoldable pub track : Environment → (Impl → Impl) → Bytes → Properties → Impl → Status × Impl
track env between name properties im =
    let entry_generation = im.pipeline.consent_generation in
    let name_status = validate_name im.validator name in
    let prop_status = validate_properties im.validator properties in
    let filtered = apply_filter im.pipeline.config.property_filter properties in
    let later = between im in
    if not (is_ok name_status)
    then (name_status, later)
    else if not (is_ok prop_status)
    then (prop_status, later)
    else if not (later.pipeline.consent_generation == entry_generation)
    then (consent_denied, later)
    else admit_locked env name filtered later
