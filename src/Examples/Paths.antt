-- ===== src/Examples/Paths.antt =====
-- The theorem on claimed paths, where component 0 holds a path that component 1 asks for, too.
use player_trace_sdk.Base.{◌≡◌, refl, true, false, [], some, codes, bytes_eq, arith}
use player_trace_sdk.Types.{Bytes}
use player_trace_sdk.Validator.Keys.{contains}
use player_trace_sdk.PathRegistry.{
  move, FileSystem, unclaimed, acquire, release, normalize, is_in_memory,
}
use player_trace_sdk.PathRegistry.Exclusive.{World, IsExclusive, acquire_at}
use player_trace_sdk.PathRegistry.Lifetimes.{
  move_at, acquires, moves, here, further, Reaches-IsExclusive,
}

-- Every path is absolute and canonical.
abbrev pub files : FileSystem
files = record {
  absolute = λ p. some (some p);
  weakly_canonical = λ p. some (some p);
  lexically_normal = λ p. p;
}

abbrev database : Bytes
database = codes "game.db"

abbrev empty : World
empty = ((λ i. unclaimed), [])

empty-IsExclusive : IsExclusive empty
empty-IsExclusive = record {
  registered = λ i h. absurd (ground arith);
  distinct = λ i j h. absurd (ground arith);
}

abbrev claimed : World
claimed = (acquire_at files 0 database empty).1

-- Component 1 asks for the path in vain, then component 0 moves its claim to component 2.
abbrev moved : World
moved = move_at 2 0 (acquire_at files 1 database claimed).1

Reaches-IsExclusive_example : IsExclusive moved
Reaches-IsExclusive_example =
    Reaches-IsExclusive files empty-IsExclusive
      (further (further (further here (acquires 0 database)) (acquires 1 database)) (moves 2 0))

-- Now it is component 2 that holds it.
holder : ((moved.0 0).held ≡ false) × ((moved.0 1).held ≡ false) × ((moved.0 2).held ≡ true)
unfolding move_at move acquire release normalize is_in_memory contains bytes_eq
holder = (refl, refl, refl)

-- The second component is refused the path, but not one in memory.
refused : (acquire_at files 1 database claimed).0 ≡ false
unfolding acquire release normalize is_in_memory contains bytes_eq
refused = refl

in_memory : (acquire_at files 1 (codes ":memory:") claimed).0 ≡ true
unfolding acquire release is_in_memory contains bytes_eq
in_memory = refl

-- A name like file::memory: is an ordinary one: only one component gets it.
abbrev uri : Bytes
uri = codes "file::memory:"

uri_refused : (acquire_at files 1 uri (acquire_at files 0 uri empty).1).0 ≡ false
unfolding acquire release normalize is_in_memory contains bytes_eq
uri_refused = refl
