-- ===== src/Validator/Properties/Laws.antt =====
-- Which property maps are accepted: the rules of event_validator.hpp, stated without the checker.
use player_trace_sdk.Base.{
  ℕ, ◌/◌, ◌%◌, ◌^◌, ◌≤◌, ◌≡◌, ◌≢◌, ◌↔◌, ◌⊎◌, inl, inr, refl, sym, subst, true, List, [], ◌∷◌, ◌++◌,
  length, ltb, arith, All, Bool-cases, codes, bytes_eq, bytes_eq_iff, ◌∙◌,
}
use player_trace_sdk.Types.{
  ok, is_ok, invalid_property, Bytes, PropertyValue, bool, int, double, string, Property,
  Properties,
}
use player_trace_sdk.Validator.Utf8.Sound.{IsByte, Spells}
use player_trace_sdk.Validator.Utf8.Complete.{is_valid_utf8_iff}
use player_trace_sdk.Validator.Keys.{
  Validator, is_reserved_key, contains, has_pt_prefix, reserved, validate_identifier,
}
use player_trace_sdk.Validator.Keys.Laws.{IsIdentifier, validate_identifier_cases}
use player_trace_sdk.Validator.Properties.{
  is_finite, check_value, check_properties, validate_properties,
}

abbrev pub In : Bytes → List Bytes → Type 0
In k [] = ⊥
In k (j ∷ js) = (j ≡ k) ⊎ In k js

pub contains_iff : (ks : List Bytes) (k : Bytes) → (contains ks k ≡ true) ↔ In k ks
unfolding contains
contains_iff [] k = (λ h. ground arith, λ h. absurd h)
contains_iff (j ∷ js) k =
    let here = bytes_eq_iff j k in
    let there = contains_iff js k in
    (
      λ h. elim (Bool-cases (bytes_eq j k)) [
        | inl e ↦ inl (here.0 e)
        | inr e ↦ inr (there.0 (ground arith))
      ],
      λ h. elim h [ inl e ↦ ground (arith, here.1 e) | inr m ↦ ground (arith, there.1 m) ],
    )

-- A name of a top-level field, or a key with the prefix pt_.
abbrev pub IsReserved : Bytes → Type 0
IsReserved key = In key reserved ⊎ ((rest : Bytes) × (key ≡ codes "pt_" ++ rest))

has_pt_prefix_iff :
    (key : Bytes) → (has_pt_prefix key ≡ true) ↔ ((rest : Bytes) × (key ≡ codes "pt_" ++ rest))
unfolding has_pt_prefix
has_pt_prefix_iff [] = (λ h. ground arith, λ (r, e). ground arith)
has_pt_prefix_iff (a ∷ []) = (λ h. ground arith, λ (r, e). ground arith)
has_pt_prefix_iff (a ∷ b ∷ []) = (λ h. ground arith, λ (r, e). ground arith)
has_pt_prefix_iff (a ∷ b ∷ c ∷ rest) = (λ h. (rest, ground arith), λ (r, e). ground arith)

pub is_reserved_key_iff : (key : Bytes) → (is_reserved_key key ≡ true) ↔ IsReserved key
unfolding is_reserved_key
is_reserved_key_iff key =
    let listed = contains_iff reserved key in
    let prefixed = has_pt_prefix_iff key in
    (
      λ h. elim (Bool-cases (contains reserved key)) [
        | inl e ↦ inl (listed.0 e)
        | inr e ↦ inr (prefixed.0 (rw e at h))
      ],
      λ h. elim h [
        | inl m ↦ rw (listed.1 m)
        | inr p ↦ elim (Bool-cases (contains reserved key)) [
          | inl e ↦ rw e
          | inr e ↦ rw e (prefixed.1 p)
        ]
      ],
    )

-- A double that is neither an infinity nor a NaN.
abbrev pub IsFinite : ℕ → Type 0
IsFinite d = d / 2 ^ 52 % 2048 ≢ 2047

abbrev pub ValueBytes : PropertyValue → Type 0
ValueBytes (string s) = All IsByte s
ValueBytes _ = Unit

abbrev pub PropertyBytes : Property → Type 0
PropertyBytes p = ValueBytes p.1

module _ (v : Validator) where
  abbrev pub IsValue : PropertyValue → Type 0
  IsValue (bool b) = Unit
  IsValue (int i) = Unit
  IsValue (double d) = IsFinite d
  IsValue (string s) = (length s ≤ v.max_string_length) × Spells s

  check_value_iff :
      (value : PropertyValue)
      → ValueBytes value
      → (is_ok (check_value v value) ≡ true) ↔ IsValue value
  unfolding check_value is_finite
  check_value_iff (bool b) h = (λ e. tt, λ e. refl)
  check_value_iff (int i) h = (λ e. tt, λ e. refl)
  check_value_iff (double d) h = (λ e. ground arith, λ e. ground arith)
  check_value_iff (string s) h =
      let text = is_valid_utf8_iff s h in
      (λ e. (ground arith, text.0 (ground arith)), λ e. ground (arith, text.1 e.1))

  check-IsIdentifier_iff :
      (key : Bytes)
      → (is_ok (validate_identifier v key invalid_property) ≡ true) ↔ IsIdentifier v key
  check-IsIdentifier_iff key = elim (validate_identifier_cases v key invalid_property) [
    | inl (e, good) ↦ (λ h. good, λ h. rw e)
    | inr (e, bad) ↦ (λ h. absurd (ground arith), λ h. absurd (bad h))
  ]

  abbrev pub IsProperty : Property → Type 0
  IsProperty p = IsIdentifier v p.0 × (¬ IsReserved p.0) × IsValue p.1

  -- Every key differs from the keys before it and from those of `seen`.
  abbrev Fresh : List Bytes → Properties → Type 0
  Fresh seen [] = Unit
  Fresh seen (p ∷ ps) = (¬ In p.0 seen) × Fresh (p.0 ∷ seen) ps

  accept_head :
      (seen : List Bytes) (p : Property) (ps : Properties)
      → ValueBytes p.1
      → IsProperty p
      → ¬ In p.0 seen
      → check_properties v seen (p ∷ ps) ≡ check_properties v (p.0 ∷ seen) ps
  unfolding check_properties
  accept_head seen (key, value) ps b (i, r, x) f = ground (
    arith,
    (check-IsIdentifier_iff key).1 i,
    not_reserved,
    not_seen,
    (check_value_iff value b).1 x,
  )
    where
      not_reserved : is_reserved_key key ≢ true
      not_reserved e = r ((is_reserved_key_iff key).0 e)

      not_seen : contains seen key ≢ true
      not_seen e = f ((contains_iff seen key).0 e)

  reject_head :
      (seen : List Bytes) (p : Property) (ps : Properties)
      → ValueBytes p.1
      → check_properties v seen (p ∷ ps) ≡ ok
      → IsProperty p × (¬ In p.0 seen) × (check_properties v (p.0 ∷ seen) ps ≡ ok)
  unfolding check_properties
  reject_head seen (key, value) ps b h = (
    (
      (check-IsIdentifier_iff key).0 (ground arith),
      λ r. ground (arith, (is_reserved_key_iff key).1 r),
      (check_value_iff value b).0 (ground arith),
    ),
    λ m. ground (arith, (contains_iff seen key).1 m),
    ground arith,
  )

  check_properties_iff :
      (seen : List Bytes) (ps : Properties)
      → All PropertyBytes ps
      → (check_properties v seen ps ≡ ok) ↔ (All IsProperty ps × Fresh seen ps)
  check_properties_iff seen [] b = (λ h. (tt, tt), λ h. unfold check_properties in refl)
  check_properties_iff seen (p ∷ ps) b =
      let rest = check_properties_iff (p.0 ∷ seen) ps b.1 in
      (
        λ h.
            let (good, new, e) = reject_head seen p ps b.0 h in
            let (all, fresh) = rest.0 e in ((good, all), (new, fresh)),
        λ (all, fresh). accept_head seen p ps b.0 all.0 fresh.0 ∙ rest.1 (all.1, fresh.1),
      )

abbrev pub NoDuplicates : List Bytes → Type 0
NoDuplicates [] = Unit
NoDuplicates (k ∷ ks) = (¬ In k ks) × NoDuplicates ks

abbrev pub keys : Properties → List Bytes
keys [] = []
keys (p ∷ ps) = p.0 ∷ keys ps

abbrev Avoids : List Bytes → Properties → Type 0
Avoids seen ps = (k : Bytes) → In k (keys ps) → ¬ In k seen

module _ (v : Validator) where
  Fresh-iff :
      (seen : List Bytes) (ps : Properties)
      → Fresh v seen ps ↔ (Avoids seen ps × NoDuplicates (keys ps))
  Fresh-iff seen [] = (λ h. (λ k m. absurd m, tt), λ h. tt)
  Fresh-iff seen (p ∷ ps) =
      let rest = Fresh-iff (p.0 ∷ seen) ps in
      (
        λ (new, fresh).
            let (avoids, distinct) = rest.0 fresh in
            (
              λ k m s. elim m [
                | inl e ↦ new (subst (λ j. In j seen) (sym e) s)
                | inr m' ↦ avoids k m' (inr s)
              ],
              (λ m. avoids p.0 m (inl refl), distinct),
            ),
        λ (avoids, distinct). (
          avoids p.0 (inl refl),
          rest.1 (
            λ k m s. elim s [
              | inl e ↦ distinct.0 (subst (λ j. In j (keys ps)) (sym e) m)
              | inr s' ↦ avoids k (inr m) s'
            ],
            distinct.1,
          ),
        ),
      )

  -- The rules for the property map of an event.
  pub record IsPropertyMap (ps : Properties) : Type 0 where
    pub few : length ps ≤ v.max_properties
    pub each : All (IsProperty v) ps
    pub distinct : NoDuplicates (keys ps)

  -- A property map is accepted exactly when it has at most max_properties entries, every key is an
  -- identifier and not reserved, no key stands twice, every string is short enough and well-formed
  -- UTF-8, and every double is finite.
  pub validate_properties_iff :
      (ps : Properties) → All PropertyBytes ps → (validate_properties v ps ≡ ok) ↔ IsPropertyMap ps
  unfolding validate_properties
  validate_properties_iff ps b =
      let loop = check_properties_iff v [] ps b in
      let fresh = Fresh-iff [] ps in
      elim (Bool-cases (ltb v.max_properties (length ps))) [
        | inl many ↦ (λ h. absurd (ground arith), λ r. absurd (ground (arith, r.few)))
        | inr few ↦ rw few (
          λ h.
              let (all, f) = loop.0 h in
              record { few = ground arith; each = all; distinct = (fresh.0 f).1 },
          λ r. loop.1 (r.each, fresh.1 (λ k m s. s, r.distinct)),
        )
      ]
