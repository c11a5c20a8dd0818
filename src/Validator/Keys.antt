-- ===== src/Validator/Keys.antt =====
-- Identifiers, reserved keys and player ids of src/event_validator.cpp.
pub mod Laws
use player_trace_sdk.Base.{
  ℕ, ◌≤◌, ◌<◌, ◌≡◌, Bool, true, false, not, ◌&&◌, ◌||◌, List, [], ◌∷◌, length, ltb, leb, ◌==◌,
  if◌then◌else◌, codes, bytes_eq,
}
use player_trace_sdk.Types.{
  ErrorCode, Status, ok, is_ok, value_too_large, invalid_property, invalid_event_name, Bytes,
}
use player_trace_sdk.Validator.Utf8.{is_valid_utf8}

pub record Validator : Type 0 where
  pub max_name_length : ℕ
  pub max_properties : ℕ
  pub max_string_length : ℕ
  pub max_player_id_length : ℕ

-- std::string::empty, and so of any sequence.
abbrev pub is_empty {ℓ} : {A : Type ℓ} → List A → Bool
is_empty [] = true
is_empty (x ∷ xs) = false

unfoldable pub is_first_char : ℕ → Bool
is_first_char c = (leb b'A' c && leb c b'Z') || (leb b'a' c && leb c b'z') || (c == b'_')

unfoldable pub is_rest_char : ℕ → Bool
unfolding is_first_char
is_rest_char c = is_first_char c || (leb b'0' c && leb c b'9') || (c == b'.') || (c == b'-')

-- Membership in a set of strings.
unfoldable pub contains : List Bytes → Bytes → Bool
contains [] key = false
contains (k ∷ ks) key = bytes_eq k key || contains ks key

abbrev pub reserved : List Bytes
reserved =
    codes "event_id"
    ∷ codes "app_id"
    ∷ codes "name"
    ∷ codes "schema_version"
    ∷ codes "timestamp"
    ∷ codes "timestamp_ms"
    ∷ codes "session_id"
    ∷ codes "player_id"
    ∷ codes "seq"
    ∷ codes "properties"
    ∷ []

-- key.size() >= 3 and key[0], key[1], key[2] are "pt_".
unfoldable pub has_pt_prefix : Bytes → Bool
has_pt_prefix (a ∷ b ∷ c ∷ rest) = (a == b'p') && (b == b't') && (c == b'_')
has_pt_prefix _ = false

unfoldable pub is_reserved_key : Bytes → Bool
is_reserved_key key = if contains reserved key then true else has_pt_prefix key

-- The loop over the characters of an identifier.
unfoldable pub all_rest : Bytes → Bool
all_rest [] = true
all_rest (c ∷ cs) = is_rest_char c && all_rest cs

-- id.front() of a string that is not empty.
abbrev pub front_ok : Bytes → Bool
front_ok [] = false
front_ok (c ∷ cs) = is_first_char c

module _ (v : Validator) where
  unfoldable pub validate_identifier : Bytes → ErrorCode → Status
  validate_identifier id bad_code =
      if is_empty id
      then bad_code
      else if ltb v.max_name_length (length id)
      then bad_code
      else if not (front_ok id)
      then bad_code
      else if not (all_rest id)
      then bad_code
      else ok

  unfoldable pub validate_name : Bytes → Status
  unfolding validate_identifier
  validate_name name = validate_identifier name invalid_event_name

  unfoldable pub validate_player_id : Bytes → Status
  validate_player_id player_id =
      if is_empty player_id
      then ok
      else if ltb v.max_player_id_length (length player_id)
      then value_too_large
      else if not (is_valid_utf8 player_id)
      then invalid_property
      else ok
