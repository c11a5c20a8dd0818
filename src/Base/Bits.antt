-- ===== src/Base/Bits.antt =====
-- Masks of a byte, by evaluation over all bytes; a disjunction of separate bits is a sum.
use Prim.Native.Nat.{
  ℕ, zero, suc, ◌+◌, ◌*◌, ◌/◌, ◌%◌, ◌≤◌, ◌<◌, max, bit_and, bit_or, digits, bit_or-bitwise,
}
use mathlib.Core.Path.{◌≡◌, refl, ap, ◌∙◌}
use mathlib.Core.Bool.{Bool, true, ◌&&◌}
use mathlib.Core.Logic.{◌⊎◌, inl, inr}
use native.Mathlib.Omega.{arith}
use player_trace_sdk.Base.Tests.{◌==◌, ==_iff}

-- Do two functions on numbers give the same value at each of 0, ..., n - 1?
pub same_upto : (ℕ → ℕ) → (ℕ → ℕ) → ℕ → Bool
same_upto f g zero = true
same_upto f g (suc n) = same_upto f g n && (f n == g n)

-- A table of 256 equations, as one fact about every byte.
byte_table : (f g : ℕ → ℕ) (n : ℕ) → same_upto f g n ≡ true → (c : ℕ) → c < n → f c ≡ g c
unfolding same_upto
byte_table f g zero t c h = absurd (omega arith)
byte_table f g (suc n) t c h =
    ground (arith, ==_iff (f n) (g n), byte_table f g n (ground arith) c, ap f, ap g)

module _ (c : ℕ) (byte : c < 256) where
  pub and-e0 : bit_and c 0xE0 ≡ c / 32 * 32
  unfolding same_upto
  and-e0 = byte_table (λ c. bit_and c 0xE0) (λ c. c / 32 * 32) 256 refl c byte

  pub and-f0 : bit_and c 0xF0 ≡ c / 16 * 16
  unfolding same_upto
  and-f0 = byte_table (λ c. bit_and c 0xF0) (λ c. c / 16 * 16) 256 refl c byte

  pub and-f8 : bit_and c 0xF8 ≡ c / 8 * 8
  unfolding same_upto
  and-f8 = byte_table (λ c. bit_and c 0xF8) (λ c. c / 8 * 8) 256 refl c byte

  pub and-c0 : bit_and c 0xC0 ≡ c / 64 * 64
  unfolding same_upto
  and-c0 = byte_table (λ c. bit_and c 0xC0) (λ c. c / 64 * 64) 256 refl c byte

  pub and-1f : bit_and c 0x1F ≡ c % 32
  unfolding same_upto
  and-1f = byte_table (λ c. bit_and c 0x1F) (λ c. c % 32) 256 refl c byte

  pub and-0f : bit_and c 0x0F ≡ c % 16
  unfolding same_upto
  and-0f = byte_table (λ c. bit_and c 0x0F) (λ c. c % 16) 256 refl c byte

  pub and-07 : bit_and c 0x07 ≡ c % 8
  unfolding same_upto
  and-07 = byte_table (λ c. bit_and c 0x07) (λ c. c % 8) 256 refl c byte

  pub and-3f : bit_and c 0x3F ≡ c % 64
  unfolding same_upto
  and-3f = byte_table (λ c. bit_and c 0x3F) (λ c. c % 64) 256 refl c byte

-- `twice_by k c` is c << k, and `width k` is 1 << k.
twice_by : ℕ → ℕ → ℕ
twice_by zero c = c
twice_by (suc k) c = twice_by k c * 2

width : ℕ → ℕ
width zero = 1
width (suc k) = width k * 2

-- The digits of a number joined with none are its own.
join-none : (fuel c : ℕ) → c ≤ fuel → digits (λ b. b) max fuel c 0 ≡ c
join-none zero c enough = omega arith
join-none (suc fuel) zero enough = refl
join-none (suc fuel) (suc c) enough =
    let rest = join-none fuel (suc c / 2) (omega arith) in omega (arith, rest)

none-join : (fuel b : ℕ) → digits (λ b. b) max fuel 0 b ≡ b
none-join zero b = refl
none-join (suc fuel) b = refl

-- An even number keeps the last digit of the other one.
join-even :
    (fuel c m x : ℕ)
    → m ≡ c * 2
    → digits (λ b. b) max (suc fuel) m x ≡ digits (λ b. b) max fuel c (x / 2) * 2 + x % 2
join-even fuel c zero x even =
    let none : c ≡ 0 = omega arith in
    let rest : digits (λ b. b) max fuel c (x / 2) ≡ x / 2 =
      ap (λ (t : ℕ). digits (λ b. b) max fuel t (x / 2)) none ∙ none-join fuel (x / 2) in
    omega (arith, rest)
join-even fuel c (suc m) x even =
    let half : suc m / 2 ≡ c = omega arith in
    let rest = ap (λ (t : ℕ). digits (λ b. b) max fuel t (x / 2)) half in omega (arith, rest)

zero_or_suc : (n : ℕ) → (n ≡ 0) ⊎ ((m : ℕ) × (n ≡ suc m))
zero_or_suc zero = inl refl
zero_or_suc (suc n) = inr (n, refl)

-- Where a number ends in k zeros, joining k digits to it is a sum.
join-apart :
    (k c x fuel : ℕ)
    → twice_by k c ≤ fuel
    → x < width k
    → digits (λ b. b) max fuel (twice_by k c) x ≡ twice_by k c + x
unfolding twice_by width
join-apart zero c x fuel enough small =
    let none : x ≡ 0 = omega arith in
    ap (digits (λ b. b) max fuel c) none ∙ join-none fuel c enough ∙ omega arith
join-apart (suc k) c x fuel enough small = elim (zero_or_suc fuel) [
  | inl none ↦
      let first : twice_by k c * 2 ≡ 0 = omega arith in
      ap (λ (t : ℕ). digits (λ b. b) max fuel t x) first ∙ none-join fuel x ∙ omega arith
  | inr (less, eq) ↦
      let rest = join-apart k c (x / 2) less (omega arith) (omega arith) in
      ap (λ (t : ℕ). digits (λ b. b) max t (twice_by k c * 2) x) eq
      ∙ join-even less (twice_by k c) (twice_by k c * 2) x refl
      ∙ omega (arith, rest)
]

-- (c << 6) | x, where x has six bits.
pub or-shift : (c x : ℕ) → x < 64 → bit_or (c * 64) x ≡ c * 64 + x
unfolding twice_by width
or-shift c x h =
    let shifted : c * 64 ≡ twice_by 6 c = omega arith in
    ap (λ (t : ℕ). bit_or t x) shifted
    ∙ bit_or-bitwise (twice_by 6 c) x
    ∙ join-apart 6 c x (twice_by 6 c) (omega arith) h
    ∙ omega arith
