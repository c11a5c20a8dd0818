-- ===== src/Validator/Utf8/Scalar.antt =====
-- Unicode scalar values and their UTF-8 encoding (RFC 3629), described without the checker.
use player_trace_sdk.Base.{ℕ, ◌+◌, ◌/◌, ◌%◌, ◌≤◌, ◌<◌, ◌⊎◌, List, [], ◌∷◌, ◌++◌, ltb, if◌then◌else◌}

-- Every value up to 0x10FFFF but the surrogate halves.
abbrev pub IsScalar : ℕ → Type 0
IsScalar cp = (cp < 0xD800) ⊎ ((0xDFFF < cp) × (cp ≤ 0x10FFFF))

abbrev pub tail_byte : ℕ → ℕ
tail_byte x = 0x80 + x % 64

abbrev pub encode : ℕ → List ℕ
encode cp =
    if ltb cp 0x80
    then cp ∷ []
    else if ltb cp 0x800
    then (0xC0 + cp / 64) ∷ tail_byte cp ∷ []
    else if ltb cp 0x10000
    then (0xE0 + cp / 4096) ∷ tail_byte (cp / 64) ∷ tail_byte cp ∷ []
    else (0xF0 + cp / 262144) ∷ tail_byte (cp / 4096) ∷ tail_byte (cp / 64) ∷ tail_byte cp ∷ []

abbrev pub encode_all : List ℕ → List ℕ
encode_all [] = []
encode_all (cp ∷ cps) = encode cp ++ encode_all cps
