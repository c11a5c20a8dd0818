-- ===== src/Validator/Keys/Laws.antt =====
-- Which identifiers and player ids src/event_validator.cpp accepts, and the codes of the others.
use player_trace_sdk.Validator.Utf8.{is_valid_utf8}
use player_trace_sdk.Validator.Utf8.Complete.{is_valid_utf8_iff}
use player_trace_sdk.Validator.Utf8.Sound.{IsByte, Spells}
use player_trace_sdk.Base.{
  ℕ, ◌≤◌, ◌≡◌, ◌↔◌, ◌⊎◌, true, [], ◌∷◌, arith, All, refl, inl, length, inr, Bool-cases, ltb, ◌<◌,
}
use player_trace_sdk.Types.{Bytes, ErrorCode, ok, value_too_large, invalid_property}
use player_trace_sdk.Validator.Keys.{
  is_first_char, is_rest_char, all_rest, Validator, validate_identifier, validate_player_id,
}

-- [A-Za-z_]
abbrev pub IsFirst : ℕ → Type 0
IsFirst c = ((65 ≤ c) × (c ≤ 90)) ⊎ ((97 ≤ c) × (c ≤ 122)) ⊎ (c ≡ 95)

-- [A-Za-z0-9._-]
abbrev pub IsRest : ℕ → Type 0
IsRest c = IsFirst c ⊎ ((48 ≤ c) × (c ≤ 57)) ⊎ (c ≡ 46) ⊎ (c ≡ 45)

pub is_first_char_iff : (c : ℕ) → (is_first_char c ≡ true) ↔ IsFirst c
unfolding is_first_char
is_first_char_iff c = (λ h. ground arith, λ h. ground arith)

pub is_rest_char_iff : (c : ℕ) → (is_rest_char c ≡ true) ↔ IsRest c
unfolding is_rest_char
is_rest_char_iff c = (λ h. ground arith, λ h. ground arith)

pub all_rest_iff : (cs : Bytes) → (all_rest cs ≡ true) ↔ All IsRest cs
unfolding all_rest
all_rest_iff [] = (λ h. tt, λ h. refl)
all_rest_iff (c ∷ cs) = (
  λ h. ((is_rest_char_iff c).0 (ground arith), (all_rest_iff cs).0 (ground arith)),
  λ h. ground (arith, (is_rest_char_iff c).1 h.0, (all_rest_iff cs).1 h.1),
)

-- The rule of event_validator.hpp for names and property keys.
abbrev pub IsIdentifier : Validator → Bytes → Type 0
IsIdentifier v [] = ⊥
IsIdentifier v (c ∷ cs) = (length (c ∷ cs) ≤ v.max_name_length) × IsFirst c × All IsRest cs

IsFirst-IsRest : (c : ℕ) → IsFirst c → is_rest_char c ≡ true
IsFirst-IsRest c h = (is_rest_char_iff c).1 (inl h)

module _ (v : Validator) where
  -- An identifier is accepted exactly when it has one to max_name_length characters, starts with a
  -- letter or an underscore and goes on with letters, digits, underscores, dots and dashes; any
  -- other is refused with the code that the caller gave.
  pub validate_identifier_cases :
      (id : Bytes) (bad : ErrorCode)
      → ((validate_identifier v id bad ≡ ok) × IsIdentifier v id)
        ⊎ ((validate_identifier v id bad ≡ bad) × (¬ IsIdentifier v id))
  unfolding validate_identifier all_rest
  validate_identifier_cases [] bad = inr (refl, λ h. h)
  validate_identifier_cases (c ∷ cs) bad = elim (Bool-cases (is_first_char c)) [
    | inr f ↦ inr (ground arith, λ h. ground (arith, (is_first_char_iff c).1 h.1))
    | inl f ↦ elim (Bool-cases (all_rest cs)) [
      | inr r ↦ inr (ground arith, λ h. ground (arith, (all_rest_iff cs).1 h.2))
      | inl r ↦ elim (Bool-cases (ltb v.max_name_length (length (c ∷ cs)))) [
        | inl long ↦ inr (ground arith, λ h. ground arith)
        | inr fits ↦ inl (
          ground (arith, IsFirst-IsRest c ((is_first_char_iff c).0 f)),
          (ground arith, (is_first_char_iff c).0 f, (all_rest_iff cs).0 r),
        )
      ]
    ]
  ]

  -- What a player id must be.
  abbrev pub IsPlayerId : Bytes → Type 0
  IsPlayerId id = (length id ≤ v.max_player_id_length) × Spells id

  -- A player id is accepted exactly when it is empty, or no longer than max_player_id_length and
  -- well-formed UTF-8; too long an id is refused as too large before its encoding is looked at.
  pub validate_player_id_cases :
      (id : Bytes)
      → All IsByte id
      → ((validate_player_id v id ≡ ok) × ((id ≡ []) ⊎ IsPlayerId id))
        ⊎ ((validate_player_id v id ≡ value_too_large) × (v.max_player_id_length < length id))
        ⊎ ((validate_player_id v id ≡ invalid_property) × (¬ Spells id))
  unfolding validate_player_id
  validate_player_id_cases [] b = inl (refl, inl refl)
  validate_player_id_cases (c ∷ cs) b =
      let id = c ∷ cs in
      elim (Bool-cases (ltb v.max_player_id_length (length id))) [
        | inl long ↦ inr (inl (ground arith, ground arith))
        | inr fits ↦ elim (Bool-cases (is_valid_utf8 id)) [
          | inl good ↦ inl (ground arith, inr (ground arith, (is_valid_utf8_iff id b).0 good))
          | inr bad ↦ inr (inr (ground arith, λ s. ground (arith, (is_valid_utf8_iff id b).1 s)))
        ]
      ]
