-- ===== src/Serializer.antt =====
-- JsonSerializer of src/json_serializer.cpp: iso8601_utc and serialize.
--
-- gmtime_r is the argument `gmtime`, and `dump` what the JSON library prints of an object with these
-- members in their order: `none` where it throws. snprintf writes a number as
-- `padded` does: with zeros up to the width, and with all its digits beyond it.
pub mod Timestamp
use player_trace_sdk.Base.{
  ℕ, zero, suc, ◌+◌, ◌-◌, ◌*◌, ◌/◌, ◌%◌, Bool, true, false, not, ◌&&◌, ◌||◌, List, [], ◌∷◌, ◌++◌,
  Option, none, some, leb, ◌==◌, bytes_eq, codes, if◌then◌else◌,
}
use player_trace_sdk.Base.Int.{ℤ, pos, negsuc, pos_part, neg_part, sub_ℕ}
use player_trace_sdk.Types.{Status, ok, internal, Bytes, PropertyValue, Properties, Event}
use player_trace_sdk.Validator.Keys.{is_empty}

-- -n
abbrev pub negate : ℕ → ℤ
negate zero = pos 0
negate (suc n) = negsuc n

-- Seconds and milliseconds. C++ divides towards zero, and the remainder has the sign of `epoch_ms`.
unfoldable pub split : ℤ → ℤ × ℕ
split (pos n) = (pos (n / 1000), n % 1000)
split (negsuc n) =
    let seconds = suc n / 1000 in
    let rest = suc n % 1000 in
    if rest == 0 then (negate seconds, 0) else (negsuc seconds, 1000 - rest)

-- std::tm
pub record Tm : Type 0 where
  pub tm_year : ℤ
  pub tm_mon : ℤ
  pub tm_mday : ℤ
  pub tm_hour : ℤ
  pub tm_min : ℤ
  pub tm_sec : ℤ

abbrev pub plus : ℤ → ℕ → ℤ
plus z n = sub_ℕ (pos_part z + n) (neg_part z)

unfoldable pub within : ℕ → ℕ → ℤ → Bool
within low high (pos n) = leb low n && leb n high
within low high (negsuc n) = false

unfoldable pub is_in_bounds : Tm → ℕ → Bool
is_in_bounds tm millis =
    within 0 9999 (plus tm.tm_year 1900)
    && within 1 12 (plus tm.tm_mon 1)
    && within 1 31 tm.tm_mday
    && within 0 23 tm.tm_hour
    && within 0 59 tm.tm_min
    && within 0 60 tm.tm_sec
    && leb millis 999

abbrev pub digit : ℕ → ℕ
digit n = 48 + n % 10

-- The decimal digits, at least `width` of them. The first number is fuel: ten digits hold an int.
unfoldable pub digits : ℕ → ℕ → ℕ → Bytes
digits zero width n = []
digits (suc fuel) width n =
    let rest = digits fuel (width - 1) (n / 10) in
    if leb n 0 && leb width 0 then [] else rest ++ digit n ∷ []

-- %0*d of a number that is not negative.
abbrev pub padded : ℕ → ℕ → Bytes
padded width n = digits 10 width n

abbrev pub epoch : Bytes
epoch = codes "1970-01-01T00:00:00.000Z"

unfoldable pub printed : Tm → ℕ → Bytes
printed tm millis =
    padded 4 (pos_part (plus tm.tm_year 1900))
    ++ codes "-"
    ++ padded 2 (pos_part (plus tm.tm_mon 1))
    ++ codes "-"
    ++ padded 2 (pos_part tm.tm_mday)
    ++ codes "T"
    ++ padded 2 (pos_part tm.tm_hour)
    ++ codes ":"
    ++ padded 2 (pos_part tm.tm_min)
    ++ codes ":"
    ++ padded 2 (pos_part tm.tm_sec)
    ++ codes "."
    ++ padded 3 millis
    ++ codes "Z"

-- What stands for a member of the object.
pub data Member : Type 0 where
  text : Bytes → Member
  unsigned : ℕ → Member
  signed : ℤ → Member
  object : Properties → Member

-- props[key] = value
unfoldable pub assign : Bytes → PropertyValue → Properties → Properties
assign key value [] = (key, value) ∷ []
assign key value ((k, v) ∷ props) =
    if bytes_eq k key then (k, value) ∷ props else (k, v) ∷ assign key value props

unfoldable pub assign_all : Properties → Properties → Properties
assign_all props [] = props
assign_all props ((key, value) ∷ rest) = assign_all (assign key value props) rest

module _ (gmtime : ℤ → Option Tm) where
  unfoldable pub iso8601_utc : ℤ → Bytes
  iso8601_utc epoch_ms =
      let (secs, millis) = split epoch_ms in
      elim (gmtime secs) [
        | none ↦ epoch
        | some tm ↦ if not (is_in_bounds tm millis) then epoch else printed tm millis
      ]

  unfoldable pub members : Event → List (Bytes × Member)
  members e =
      (codes "event_id", text e.event_id)
        ∷ (codes "app_id", text e.app_id)
        ∷ (codes "name", text e.name)
        ∷ (codes "schema_version", unsigned e.schema_version)
        ∷ (codes "timestamp_ms", signed e.timestamp_ms)
        ∷ (codes "timestamp", text (iso8601_utc e.timestamp_ms))
        ∷ (codes "session_id", text e.session_id)
        ∷ (if is_empty e.player_id then [] else (codes "player_id", text e.player_id) ∷ [])
      ++ (codes "seq", unsigned e.sequence)
        ∷ (codes "properties", object (assign_all [] e.properties))
        ∷ []

  unfoldable pub serialize : (List (Bytes × Member) → Option Bytes) → Event → Status × Bytes
  serialize dump e = elim (dump (members e)) [ none ↦ (internal, []) | some json ↦ (ok, json) ]
