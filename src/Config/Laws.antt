-- ===== src/Config/Laws.antt =====
-- Which configurations validate_config of src/client.cpp accepts.
use player_trace_sdk.Base.{
  ℕ, ◌≤◌, ◌<◌, ◌≡◌, ◌≢◌, ◌↔◌, ◌⊎◌, refl, true, false, List, [], ◌∷◌, length, arith, All,
}
use player_trace_sdk.Base.Int.{ℤ, pos, negsuc}
use player_trace_sdk.Types.{ok, Bytes}
use player_trace_sdk.Validator.Keys.{is_empty}
use player_trace_sdk.Config.{
  Config, app_id_char, app_id_chars, not_positive, any_too_large, counts, validate_config,
  max_config_count,
}

-- [A-Za-z0-9._-]
abbrev pub IsAppIdChar : ℕ → Type 0
IsAppIdChar c =
    ((65 ≤ c) × (c ≤ 90))
    ⊎ ((97 ≤ c) × (c ≤ 122))
    ⊎ ((48 ≤ c) × (c ≤ 57))
    ⊎ (c ≡ 46)
    ⊎ (c ≡ 45)
    ⊎ (c ≡ 95)

app_id_chars_iff : (cs : Bytes) → (app_id_chars cs ≡ true) ↔ All IsAppIdChar cs
unfolding app_id_chars app_id_char
app_id_chars_iff [] = (λ h. tt, λ h. refl)
app_id_chars_iff (c ∷ cs) =
    let rest = app_id_chars_iff cs in
    (λ h. (ground arith, rest.0 (ground arith)), λ h. ground (arith, rest.1 h.1))

abbrev IsCount : ℕ → Type 0
IsCount n = n ≤ max_config_count

any_too_large_iff : (ns : List ℕ) → (any_too_large ns ≡ false) ↔ All IsCount ns
unfolding any_too_large
any_too_large_iff [] = (λ h. tt, λ h. refl)
any_too_large_iff (n ∷ ns) =
    let rest = any_too_large_iff ns in
    (λ h. (ground arith, rest.0 (ground arith)), λ h. ground (arith, rest.1 h.1))

-- The documented rules.
pub record IsConfig (c : Config) : Type 0 where
  pub app_id_present : c.app_id ≢ []
  pub app_id_short : length c.app_id ≤ 64
  pub app_id_characters : All IsAppIdChar c.app_id
  pub storage_path_present : c.storage_path ≢ []
  pub batch_size_positive : 0 < c.batch_size
  pub max_pending_positive : 0 < c.max_pending_events
  pub max_name_positive : 0 < c.max_name_length
  pub max_string_positive : 0 < c.max_string_length
  pub max_player_id_positive : 0 < c.max_player_id_length
  pub interval_positive : (n : ℕ) × (c.batch_interval ≡ pos n) × (0 < n)
  pub supported : All IsCount (counts c)
  pub batch_fits : c.batch_size ≤ c.max_queue_size

is_empty_iff : (xs : Bytes) → (is_empty xs ≡ false) ↔ (xs ≢ [])
is_empty_iff [] = (λ h. absurd (ground arith), λ h. absurd (h refl))
is_empty_iff (x ∷ xs) = (λ h e. ground arith, λ h. refl)

not_positive_iff : (i : ℤ) → (not_positive i ≡ false) ↔ ((n : ℕ) × (i ≡ pos n) × (0 < n))
not_positive_iff (pos n) = (λ h. (n, refl, ground arith), λ (m, e, p). ground arith)
not_positive_iff (negsuc n) = (λ h. absurd (ground arith), λ (m, e, p). ground arith)

-- The tests of validate_config, all passed.
abbrev Passes : Config → Type 0
Passes c =
    (is_empty c.app_id ≡ false)
    × (length c.app_id ≤ 64)
    × (app_id_chars c.app_id ≡ true)
    × (is_empty c.storage_path ≡ false)
    × (0 < c.batch_size)
    × (0 < c.max_pending_events)
    × (0 < c.max_name_length)
    × (0 < c.max_string_length)
    × (0 < c.max_player_id_length)
    × (not_positive c.batch_interval ≡ false)
    × (any_too_large (counts c) ≡ false)
    × (c.batch_size ≤ c.max_queue_size)

validate_config_iff_Passes : (c : Config) → (validate_config c ≡ ok) ↔ Passes c
unfolding validate_config
validate_config_iff_Passes c = (
  λ h. (
    ground arith,
    ground arith,
    ground arith,
    ground arith,
    ground arith,
    ground arith,
    ground arith,
    ground arith,
    ground arith,
    ground arith,
    ground arith,
    ground arith,
  ),
  λ h. ground arith,
)

-- A configuration is accepted exactly when it meets all the documented rules.
pub validate_config_iff : (c : Config) → (validate_config c ≡ ok) ↔ IsConfig c
validate_config_iff c =
    let tests = validate_config_iff_Passes c in
    (
      λ h.
          let p = tests.0 h in
          record {
            app_id_present = (is_empty_iff c.app_id).0 p.0;
            app_id_short = p.1;
            app_id_characters = (app_id_chars_iff c.app_id).0 p.2;
            storage_path_present = (is_empty_iff c.storage_path).0 p.3;
            batch_size_positive = p.4;
            max_pending_positive = p.5;
            max_name_positive = p.6;
            max_string_positive = p.7;
            max_player_id_positive = p.8;
            interval_positive = (not_positive_iff c.batch_interval).0 p.9;
            supported = (any_too_large_iff (counts c)).0 p.10;
            batch_fits = p.11;
          },
      λ r. tests.1 (
        (is_empty_iff c.app_id).1 r.app_id_present,
        r.app_id_short,
        (app_id_chars_iff c.app_id).1 r.app_id_characters,
        (is_empty_iff c.storage_path).1 r.storage_path_present,
        r.batch_size_positive,
        r.max_pending_positive,
        r.max_name_positive,
        r.max_string_positive,
        r.max_player_id_positive,
        (not_positive_iff c.batch_interval).1 r.interval_positive,
        (any_too_large_iff (counts c)).1 r.supported,
        r.batch_fits,
      ),
    )
