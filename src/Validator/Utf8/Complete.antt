-- ===== src/Validator/Utf8/Complete.antt =====
-- is_valid_utf8 of src/event_validator.cpp on encodings of scalar values.
use player_trace_sdk.Base.Bits.{and-e0, and-f0, and-f8, and-c0, and-1f, and-0f, and-07}
use player_trace_sdk.Base.{
  ℕ, zero, suc, ◌+◌, ◌*◌, ◌/◌, ◌%◌, ◌<◌, ◌≤◌, ◌≡◌, refl, ◌↔◌, inl, inr, true, List, [], ◌∷◌, ◌++◌,
  Bool-cases, sym, ◌∙◌, length, length-append, ltb, some, arith, All, subst,
}
use player_trace_sdk.Validator.Utf8.{multibyte, valid_from, is_valid_utf8, continuation}
use player_trace_sdk.Validator.Utf8.Scalar.{IsScalar, encode, encode_all, tail_byte}
use player_trace_sdk.Validator.Utf8.Sound.{IsByte, Spells, valid_from-Spells, join_lem}

continuation-tail :
    (k cp x : ℕ) (rest : List ℕ)
    → cp < 67108864
    → continuation (suc k) cp (tail_byte x ∷ rest) ≡ continuation k (cp * 64 + x % 64) rest
unfolding continuation
continuation-tail k cp x rest h =
    ground (arith, and-c0 (tail_byte x) (omega arith), join_lem cp (tail_byte x) h (omega arith))

multibyte-two :
    (cp : ℕ) (rest : List ℕ)
    → 0x80 ≤ cp
    → cp < 0x800
    → multibyte (0xC0 + cp / 64) (tail_byte cp ∷ rest) ≡ some rest
unfolding multibyte
multibyte-two cp rest lo hi =
    let c = 0xC0 + cp / 64 in
    let b : c < 256 = omega arith in
    ground (arith, and-e0 c b, and-1f c b, continuation-tail 0 (c % 32) cp rest (omega arith))

multibyte-three :
    (cp : ℕ) (rest : List ℕ)
    → IsScalar cp
    → 0x800 ≤ cp
    → cp < 0x10000
    → multibyte (0xE0 + cp / 4096) (tail_byte (cp / 64) ∷ tail_byte cp ∷ rest) ≡ some rest
unfolding multibyte
multibyte-three cp rest s lo hi =
    let c = 0xE0 + cp / 4096 in
    let b : c < 256 = omega arith in
    ground (
      arith,
      and-e0 c b,
      and-f0 c b,
      and-0f c b,
      continuation-tail 1 (c % 16) (cp / 64) (tail_byte cp ∷ rest) (omega arith),
      continuation-tail 0 (c % 16 * 64 + cp / 64 % 64) cp rest (omega arith),
    )

multibyte-four :
    (cp : ℕ) (rest : List ℕ)
    → IsScalar cp
    → 0x10000 ≤ cp
    → multibyte
        (0xF0 + cp / 262144)
        (tail_byte (cp / 4096) ∷ tail_byte (cp / 64) ∷ tail_byte cp ∷ rest)
      ≡ some rest
unfolding multibyte
multibyte-four cp rest s lo =
    let c = 0xF0 + cp / 262144 in
    let b : c < 256 = omega arith in
    ground (
      arith,
      and-e0 c b,
      and-f0 c b,
      and-f8 c b,
      and-07 c b,
      continuation-tail 2 (c % 8) (cp / 4096) (tail_byte (cp / 64) ∷ tail_byte cp ∷ rest)
          (omega arith),
      continuation-tail 1 (c % 8 * 64 + cp / 4096 % 64) (cp / 64) (tail_byte cp ∷ rest)
          (omega arith),
      continuation-tail 0 ((c % 8 * 64 + cp / 4096 % 64) * 64 + cp / 64 % 64) cp rest (omega arith),
    )

-- One round on the encoding of a scalar value leaves what stands behind it.
valid_from-encode :
    (fuel cp : ℕ) (rest : List ℕ)
    → IsScalar cp
    → valid_from (suc fuel) (encode cp ++ rest) ≡ valid_from fuel rest
unfolding valid_from
valid_from-encode fuel cp rest s = elim (Bool-cases (ltb cp 0x80)) [
  | inl one ↦ ground arith
  | inr h1 ↦ elim (Bool-cases (ltb cp 0x800)) [
    | inl two ↦ ground (arith, multibyte-two cp rest (ground arith) (ground arith))
    | inr h2 ↦ elim (Bool-cases (ltb cp 0x10000)) [
      | inl three ↦ ground (arith, multibyte-three cp rest s (ground arith) (ground arith))
      | inr four ↦ ground (arith, multibyte-four cp rest s (ground arith))
    ]
  ]
]

valid_from-encode_all :
    (fuel : ℕ) (cps : List ℕ)
    → All IsScalar cps
    → length (encode_all cps) < fuel
    → valid_from fuel (encode_all cps) ≡ true
valid_from-encode_all zero cps all h = absurd (omega arith)
valid_from-encode_all (suc fuel) [] all h = unfold valid_from in refl
valid_from-encode_all (suc fuel) (cp ∷ cps) all h =
    valid_from-encode fuel cp (encode_all cps) all.0
    ∙ valid_from-encode_all fuel cps all.1
        (ground (arith, length-append (encode cp) (encode_all cps)))

-- On a string of bytes the check succeeds exactly when the string is the UTF-8 encoding of a list of
-- Unicode scalar values: no surrogate half, no overlong form, nothing above U+10FFFF, no stray,
-- missing or truncated continuation.
pub is_valid_utf8_iff :
    (text : List ℕ) → All IsByte text → (is_valid_utf8 text ≡ true) ↔ Spells text
unfolding is_valid_utf8
is_valid_utf8_iff text b = (
  valid_from-Spells (suc (length text)) text b,
  λ (cps, all, e).
      subst (λ t. valid_from (suc (length t)) t ≡ true) (sym e)
        (valid_from-encode_all (suc (length (encode_all cps))) cps all (omega arith)),
)
