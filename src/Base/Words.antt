-- ===== src/Base/Words.antt =====
-- uint64_t and std::size_t arithmetic, with its wrap-around.
use Prim.Native.Nat.{ℕ, ◌+◌, ◌%◌, ◌<◌}
use mathlib.Core.Path.{◌≡◌}
use native.Mathlib.Omega.{arith}

abbrev pub u64_mod : ℕ
u64_mod = 18446744073709551616

-- std::numeric_limits<std::uint64_t>::max()
abbrev pub u64_max : ℕ
u64_max = 18446744073709551615

abbrev pub add64 : ℕ → ℕ → ℕ
add64 a b = (a + b) % u64_mod

pub add64_exact : (a b : ℕ) → a + b < u64_mod → add64 a b ≡ a + b
add64_exact a b h = omega arith
