-- ===== src/Serializer/Timestamp.antt =====
-- What iso8601_utc of src/json_serializer.cpp prints, whatever gmtime_r answers.
use player_trace_sdk.Base.{
  ℕ, zero, suc, ◌+◌, ◌*◌, ◌/◌, ◌%◌, ◌<◌, ◌≤◌, ◌≡◌, refl, Bool, true, false, ◌&&◌, [], ◌∷◌, ◌++◌,
  leb, ◌==◌, ==_iff, inl, inr, Bool-cases, codes, arith, if◌then◌else◌,
}
use player_trace_sdk.Base.Int.{ℤ, pos, negsuc, pos_part, neg_part}
use player_trace_sdk.Types.{Bytes}
use player_trace_sdk.Serializer.{negate, split}

-- A byte that the pattern allows: any digit for 0, and itself otherwise.
unfoldable pub fits : ℕ → ℕ → Bool
fits p b = if p == 48 then leb 48 b && leb b 57 else b == p

unfoldable pub matches : Bytes → Bytes → Bool
matches [] [] = true
matches [] (b ∷ bytes) = false
matches (p ∷ pattern) [] = false
matches (p ∷ pattern) (b ∷ bytes) = fits p b && matches pattern bytes

abbrev pub timestamp_pattern : Bytes
timestamp_pattern = codes "0000-00-00T00:00:00.000Z"

abbrev zeros : ℕ → Bytes
zeros zero = []
zeros (suc n) = zeros n ++ 48 ∷ []

-- 10 ^ width
abbrev limit : ℕ → ℕ
limit zero = 1
limit (suc width) = 10 * limit width

negate-parts : (n : ℕ) → (pos_part (negate n) ≡ 0) × (neg_part (negate n) ≡ n)
negate-parts zero = (refl, refl)
negate-parts (suc n) = (refl, refl)

-- The milliseconds are below 1000, and with the seconds they are the time: the division is floored,
-- also before 1970.
pub split_lem :
    (ms : ℤ)
    → ((split ms).1 < 1000)
      × (pos_part (split ms).0 * 1000 + (split ms).1 + neg_part ms
          ≡ pos_part ms + neg_part (split ms).0 * 1000)
unfolding split
split_lem (pos n) = (omega arith, omega arith)
split_lem (negsuc n) = elim (Bool-cases (suc n % 1000 == 0)) [
  | inl z ↦
      let p = negate-parts (suc n / 1000) in
      let e = (==_iff (suc n % 1000) 0).0 z in rw z (omega arith, omega (arith, e, p))
  | inr z ↦
      let some_rest : 1 ≤ suc n % 1000 = ground (arith, z) in
      rw z (omega (arith, some_rest), omega (arith, some_rest))
]
