-- ===== src/Validator/Utf8.antt =====
-- EventValidator::is_valid_utf8 of src/event_validator.cpp.
--
-- The index `i` of the loop is the list of the bytes from it on; one round reads a lead byte and
-- its continuation bytes. Fuel: one more than the number of bytes, since every round takes one.
pub mod Scalar
pub mod Sound
pub mod Complete
use player_trace_sdk.Base.{
  ℕ, zero, suc, ◌+◌, ◌*◌, ◌%◌, ◌^◌, Bool, true, false, ◌&&◌, List, [], ◌∷◌, Option, none, some,
  length, ltb, leb, ◌==◌, if◌then◌else◌, bit_and, bit_or,
}

-- The number of continuation bytes that a lead byte asks for, and the bits that it carries.
pub lead : ℕ → Option (ℕ × ℕ)
lead c =
    if bit_and c 0xE0 == 0xC0
    then some (1, bit_and c 0x1F)
    else if bit_and c 0xF0 == 0xE0
    then some (2, bit_and c 0x0F)
    else if bit_and c 0xF8 == 0xF0
    then some (3, bit_and c 0x07)
    else none

-- cp = (cp << 6) | (cc & 0x3F), over uint32_t.
pub join : ℕ → ℕ → ℕ
join cp cc = bit_or (cp * 64 % 2 ^ 32) (bit_and cc 0x3F)

-- The loop over k, which returns the code point and the bytes behind it.
pub continuation : ℕ → ℕ → List ℕ → Option (ℕ × List ℕ)
continuation zero cp p = some (cp, p)
continuation (suc k) cp [] = none
continuation (suc k) cp (cc ∷ p) =
    if bit_and cc 0xC0 == 0x80 then continuation k (join cp cc) p else none

-- The overlong encodings, the surrogate halves and the values out of range.
pub accepted : ℕ → ℕ → Bool
accepted extra cp =
    if (extra == 1) && ltb cp 0x80
    then false
    else if (extra == 2) && ltb cp 0x800
    then false
    else if (extra == 3) && ltb cp 0x10000
    then false
    else if ltb 0x10FFFF cp
    then false
    else if leb 0xD800 cp && leb cp 0xDFFF
    then false
    else true

-- One round on a byte that is not ASCII: the bytes behind the sequence, if it is accepted.
pub multibyte : ℕ → List ℕ → Option (List ℕ)
unfolding lead continuation accepted join
multibyte c p = elim (lead c) [
  | none ↦ none
  | some (extra, bits) ↦ if ltb (length p) extra then none else elim (continuation extra bits p) [
    | none ↦ none
    | some (cp, rest) ↦ if accepted extra cp then some rest else none
  ]
]

pub valid_from : ℕ → List ℕ → Bool
unfolding multibyte
valid_from zero p = false
valid_from (suc fuel) [] = true
valid_from (suc fuel) (c ∷ p) =
    let ascii = valid_from fuel p in
    if ltb c 0x80
    then ascii
    else elim (multibyte c p) [ none ↦ false | some rest ↦ valid_from fuel rest ]

unfoldable pub is_valid_utf8 : List ℕ → Bool
unfolding valid_from
is_valid_utf8 text = valid_from (suc (length text)) text
