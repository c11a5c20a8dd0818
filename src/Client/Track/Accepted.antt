-- ===== src/Client/Track/Accepted.antt =====
-- track and apply_filter of src/client.cpp: what an accepted event has passed.
use player_trace_sdk.Base.{◌≡◌, inl, inr, Bool, true, false, [], ◌∷◌, arith, All, Bool-cases}
use player_trace_sdk.Types.{Status, ok, is_ok, invalid_event_name, Bytes, Property, Properties}
use player_trace_sdk.Validator.Keys.{validate_name}
use player_trace_sdk.Validator.Keys.Laws.{IsIdentifier, validate_identifier_cases}
use player_trace_sdk.Validator.Properties.{validate_properties}
use player_trace_sdk.Validator.Properties.Laws.{
  IsPropertyMap, PropertyBytes, validate_properties_iff,
}
use player_trace_sdk.Config.{PropertyFilter}
use player_trace_sdk.Client.State.{Environment, Impl}
use player_trace_sdk.Client.Admission.{admit_locked}
use player_trace_sdk.Client.Admission.Accept.{IsOpen, Admits, admit_locked_cases}
use player_trace_sdk.Client.Admission.Invariant.{IsValid}
use player_trace_sdk.Client.Track.{keeps, filter_properties, apply_filter, track}

-- `kept` is `all` without some entries, each of which satisfies `P`, in the same order.
pub data Selects (P : Property → Bool) : Properties → Properties → Type 0 where
  nil : Selects P [] []
  keep :
      (p : Property) {kept all : Properties}
      → P p ≡ true
      → Selects P kept all
      → Selects P (p ∷ kept) (p ∷ all)
  drop :
      (p : Property) {kept all : Properties}
      → P p ≡ false
      → Selects P kept all
      → Selects P kept (p ∷ all)

-- The filter keeps, in their order, exactly the properties for which the user's callback returned
-- true; where it returned false or threw, the property is dropped.
pub filter_properties-Selects :
    (f : PropertyFilter) (ps : Properties) → Selects (keeps f) (filter_properties f ps) ps
unfolding filter_properties
filter_properties-Selects f [] = nil
filter_properties-Selects f (p ∷ ps) = elim (Bool-cases (keeps f p)) [
  | inl e ↦ rw e (keep p e (filter_properties-Selects f ps))
  | inr e ↦ rw e (drop p e (filter_properties-Selects f ps))
]

module _ (env : Environment) (between : Impl → Impl) (name : Bytes) (ps : Properties)
    (im : Impl) where
  abbrev tracked : Status × Impl
  tracked = track env between name ps im

  track-ok-gates :
      tracked.0 ≡ ok
      → (is_ok (validate_name im.validator name) ≡ true)
        × (is_ok (validate_properties im.validator ps) ≡ true)
        × ((between im).pipeline.consent_generation ≡ im.pipeline.consent_generation)
        × (tracked
            ≡ admit_locked env name
                (apply_filter im.pipeline.config.property_filter ps)
                (between im))
  unfolding track
  track-ok-gates h = (ground arith, ground arith, ground arith, ground arith)

  -- An accepted event has a name and an original property map that meet the rules; no consent was
  -- revoked since the call began; every gate was open; and what is queued, as the only change, is the
  -- event with the filtered properties under the next sequence number and ordinal.
  pub track-ok :
      All PropertyBytes ps
      → IsValid (between im)
      → tracked.0 ≡ ok
      → IsIdentifier im.validator name
        × IsPropertyMap im.validator ps
        × ((between im).pipeline.consent_generation ≡ im.pipeline.consent_generation)
        × IsOpen (between im)
        × Admits env name
            (apply_filter im.pipeline.config.property_filter ps)
            (between im)
            tracked.1
  unfolding validate_name
  track-ok bytes v h =
      let (good_name, good_props, same, e) = track-ok-gates h in
      let map_ok = validate_properties_iff im.validator ps bytes in
      elim (admit_locked_cases env name (apply_filter im.pipeline.config.property_filter ps)
        (between im) (let cap = v.small_cap in omega arith)) [
          | inr (_, r, _) ↦ absurd (r.0 (ground arith))
          | inl (o, _, a) ↦ (
            elim (validate_identifier_cases im.validator name invalid_event_name) [
              | inl (_, good) ↦ good
              | inr (bad, _) ↦ absurd (ground arith)
            ],
            map_ok.0 (ground arith),
            same,
            o,
            rw e a,
          )
        ]
