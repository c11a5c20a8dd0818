-- ===== src/Examples/Timestamps.antt =====
-- Timestamps, with a calendar that knows one instant.
use player_trace_sdk.Base.{◌≡◌, ◌<◌, ◌+◌, ◌*◌, refl, Option, none, some, codes}
use player_trace_sdk.Base.Int.{ℤ, pos, negsuc, pos_part, neg_part}
use player_trace_sdk.Serializer.{Tm, split, iso8601_utc, is_in_bounds, within, printed, digits}
use player_trace_sdk.Serializer.Timestamp.{split_lem}

-- One second before 1970.
abbrev calendar : ℤ → Option Tm
calendar (pos n) = none
calendar (negsuc n) = some (record {
  tm_year = pos 69;
  tm_mon = pos 11;
  tm_mday = pos 31;
  tm_hour = pos 23;
  tm_min = pos 59;
  tm_sec = pos 59;
})

-- One millisecond before 1970.
split_lem_example :
    ((split (negsuc 0)).1 < 1000)
    × (pos_part (split (negsuc 0)).0 * 1000 + (split (negsuc 0)).1 + 1
        ≡ 0 + neg_part (split (negsuc 0)).0 * 1000)
split_lem_example = split_lem (negsuc 0)

before_epoch :
    (iso8601_utc calendar (negsuc 0) ≡ codes "1969-12-31T23:59:59.999Z")
    × (iso8601_utc calendar (pos 5) ≡ codes "1970-01-01T00:00:00.000Z")
unfolding iso8601_utc split is_in_bounds within printed digits
before_epoch = (refl, refl)
