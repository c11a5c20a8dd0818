-- ===== src/PathRegistry/Lifetimes.antt =====
-- The claims of all components of a process, over any sequence of what src/path_registry.cpp and
-- src/internal/path_registry.hpp let them do.
use player_trace_sdk.Base.{
  ℕ, ◌≡◌, refl, sym, ap, ◌∙◌, ◌⊎◌, inl, inr, true, false, arith, Bool-cases, bytes_eq, ◌==◌, ==_iff,
  if◌then◌else◌,
}
use player_trace_sdk.Types.{Bytes}
use player_trace_sdk.Validator.Keys.{contains}
use player_trace_sdk.PathRegistry.{FileSystem, PathClaim, Registry, unclaimed, move}
use player_trace_sdk.PathRegistry.Exclusive.{
  World, IsExclusive, write, release_at, acquire_at, acquire-IsExclusive, release-IsExclusive,
  kept-registered,
}

-- The claim of component `j` is moved to component `i`; a claim moved to itself stays.
unfoldable pub move_at : ℕ → ℕ → World → World
move_at i j (claims, registry) =
    if i == j
    then (claims, registry)
    else let (mine, theirs, registry') = move (claims j) (claims i, registry) in
      (write j theirs (write i mine claims), registry')

-- A component is made or moves, claims a path, or releases its claim, as its destructor does.
pub data Step (fs : FileSystem) (w : World) : World → Type 0 where
  acquires : (i : ℕ) (path : Bytes) → Step fs w (acquire_at fs i path w).1
  releases : (i : ℕ) → Step fs w (release_at i w)
  moves : (i j : ℕ) → Step fs w (move_at i j w)

pub data Reaches (fs : FileSystem) (w : World) : World → Type 0 where
  here : Reaches fs w w
  further : {v u : World} → Reaches fs w v → Step fs v u → Reaches fs w u

module _ (i j : ℕ) (claims : ℕ → PathClaim) (registry : Registry) (apart : (i == j) ≡ false) where
  abbrev moved : ℕ → PathClaim
  moved = write j unclaimed (write i (claims j) claims)

  -- A claim that is held after the move is the one that was moved, or was there.
  moved-held :
      (k : ℕ)
      → (moved k).held ≡ true
      → (((i == k) ≡ true) × ((claims j).held ≡ true) × ((moved k).key ≡ (claims j).key))
        ⊎ (((i == k) ≡ false)
            × ((j == k) ≡ false)
            × ((claims k).held ≡ true)
            × ((moved k).key ≡ (claims k).key))
  moved-held k h = elim (Bool-cases (j == k)) [
    | inl e ↦ absurd (ground arith)
    | inr e ↦ elim (Bool-cases (i == k)) [
      | inl f ↦ inl (f, ground arith, rw (e, f) refl)
      | inr f ↦ inr (f, e, ground arith, rw (e, f) refl)
    ]
  ]

  moved-IsExclusive :
      IsExclusive (claims, registry) → IsExclusive (moved, (release_at i (claims, registry)).1)
  moved-IsExclusive inv = record {
    registered = λ k h. elim (moved-held k h) [
      | inl (f, held, same) ↦
          ap (contains (release_at i (claims, registry)).1) same
          ∙ kept-registered i j claims registry inv apart held
      | inr (f, e, held, same) ↦
          ap (contains (release_at i (claims, registry)).1) same
          ∙ kept-registered i k claims registry inv f held
    ];
    distinct = λ k l hk hl e. elim (moved-held k hk) [
      | inl (fk, held_k, same_k) ↦ elim (moved-held l hl) [
        | inl (fl, held_l, same_l) ↦ sym ((==_iff i k).0 fk) ∙ (==_iff i l).0 fl
        | inr (fl, el, held_l, same_l) ↦
            let clash = inv.distinct j l held_k held_l (
              ap (λ x. bytes_eq x (claims l).key) (sym same_k)
              ∙ ap (bytes_eq (moved k).key) (sym same_l)
              ∙ e) in
            absurd (ground (arith, el, clash))
      ]
      | inr (fk, ek, held_k, same_k) ↦ elim (moved-held l hl) [
        | inl (fl, held_l, same_l) ↦
            let clash = inv.distinct k j held_k held_l (
              ap (λ x. bytes_eq x (claims j).key) (sym same_k)
              ∙ ap (bytes_eq (moved k).key) (sym same_l)
              ∙ e) in
            absurd (ground (arith, ek, clash))
        | inr (fl, el, held_l, same_l) ↦ inv.distinct k l held_k held_l (
            ap (λ x. bytes_eq x (claims l).key) (sym same_k)
            ∙ ap (bytes_eq (moved k).key) (sym same_l)
            ∙ e)
      ]
    ];
  }

move_at-IsExclusive : (i j : ℕ) (w : World) → IsExclusive w → IsExclusive (move_at i j w)
unfolding move_at move
move_at-IsExclusive i j (claims, registry) inv = elim (Bool-cases (i == j)) [
  | inl e ↦ rw e inv
  | inr e ↦ rw e (moved-IsExclusive i j claims registry e inv)
]

Step-IsExclusive : (fs : FileSystem) {w u : World} → Step fs w u → IsExclusive w → IsExclusive u
Step-IsExclusive fs {w} (acquires i path) inv = acquire-IsExclusive fs i path w inv
Step-IsExclusive fs {w} (releases i) inv = release-IsExclusive i w inv
Step-IsExclusive fs {w} (moves i j) inv = move_at-IsExclusive i j w inv

-- Whatever the components of a process, exclusive at the beginning, do with their claims, one after
-- the other (claiming a path with success or not, releasing, moving a claim to another object), no
-- two of them ever hold one normalized path, and every held path is registered.
pub Reaches-IsExclusive :
    (fs : FileSystem) {w u : World} → IsExclusive w → Reaches fs w u → IsExclusive u
Reaches-IsExclusive fs inv here = inv
Reaches-IsExclusive fs inv (further reached step) =
    Step-IsExclusive fs step (Reaches-IsExclusive fs inv reached)
