-- ===== src/PathRegistry.antt =====
-- The process-wide registry of claimed paths: src/path_registry.cpp, built with std::filesystem on a
-- POSIX system. The file system's functions are the record FileSystem.
pub mod Exclusive
pub mod Lifetimes
use player_trace_sdk.Base.{
  ℕ, Bool, true, false, not, List, [], ◌∷◌, Option, none, some, codes, bytes_eq, ◌==◌,
  if◌then◌else◌,
}
use player_trace_sdk.Types.{Bytes}
use player_trace_sdk.Validator.Keys.{contains}

-- `absolute` and `weakly_canonical` of std::filesystem: `none` where the call throws, and `some none` where it
-- sets its error code.
pub record FileSystem : Type 0 where
  pub absolute : Bytes → Option (Option Bytes)
  pub weakly_canonical : Bytes → Option (Option Bytes)
  pub lexically_normal : Bytes → Bytes

unfoldable pub is_in_memory : Bytes → Bool
is_in_memory path = bytes_eq path (codes ":memory:")

-- The path made canonical, where `p` is the absolute one.
canonical : FileSystem → Bytes → Bytes → Option (Option Bytes) → Bytes
canonical fs path p none = path
canonical fs path p (some none) = fs.lexically_normal p
canonical fs path p (some (some c)) = c

from_absolute : FileSystem → Bytes → Option (Option Bytes) → Bytes
unfolding canonical
from_absolute fs path none = path
from_absolute fs path (some none) = path
from_absolute fs path (some (some p)) = canonical fs path p (fs.weakly_canonical p)

unfoldable pub normalize : FileSystem → Bytes → Bytes
unfolding from_absolute
normalize fs path = from_absolute fs path (fs.absolute path)

pub record PathClaim : Type 0 where
  pub key : Bytes
  pub held : Bool

abbrev pub unclaimed : PathClaim
unclaimed = record { key = []; held = false }

-- The std::set of the claimed keys.
abbrev pub Registry : Type 0
Registry = List Bytes

-- registry().erase(key)
unfoldable pub erase : Bytes → Registry → Registry
erase key [] = []
erase key (k ∷ rest) = let others = erase key rest in if bytes_eq k key then others else k ∷ others

unfoldable pub release : PathClaim × Registry → PathClaim × Registry
release (claim, registry) =
    if not claim.held then (claim, registry) else (unclaimed, erase claim.key registry)

unfoldable pub acquire : FileSystem → Bytes → PathClaim × Registry → Bool × PathClaim × Registry
acquire fs path before =
    let (claim, registry) = release before in
    let key = normalize fs path in
    if is_in_memory path
    then (true, claim, registry)
    else if contains registry key
    then (false, claim, registry)
    else (true, record { key = key; held = true }, key ∷ registry)

-- The move assignment of a claim that is not the object itself: the claim that is moved to, and what
-- is left of the other one.
unfoldable pub move : PathClaim → PathClaim × Registry → PathClaim × PathClaim × Registry
move other before =
    let (released, registry) = release before in
    (record { key = other.key; held = other.held }, record { key = []; held = false }, registry)
