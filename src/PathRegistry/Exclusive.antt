-- ===== src/PathRegistry/Exclusive.antt =====
-- The claims of several components (src/path_registry.cpp), with one registry between them.
use player_trace_sdk.Base.{
  ℕ, ◌≡◌, ◌≢◌, refl, sym, ap, subst, ◌∙◌, ◌⊎◌, inl, inr, Bool, true, false, [], ◌∷◌, arith,
  Bool-cases, bytes_eq, bytes_eq_iff, bytes_eq_refl, ◌==◌, ==_iff, if◌then◌else◌,
}
use player_trace_sdk.Types.{Bytes}
use player_trace_sdk.Validator.Keys.{contains}
use player_trace_sdk.PathRegistry.{
  FileSystem, PathClaim, Registry, erase, release, acquire, normalize, is_in_memory,
}

contains-erase :
    (a b : Bytes) (registry : Registry)
    → bytes_eq a b ≡ false
    → contains registry b ≡ true
    → contains (erase a registry) b ≡ true
unfolding contains erase
contains-erase a b [] n h = h
contains-erase a b (k ∷ rest) n h = elim (Bool-cases (bytes_eq k a)) [
  | inl e ↦
      let same = (bytes_eq_iff k a).0 e in
      let other : bytes_eq k b ≡ false = ap (λ x. bytes_eq x b) same ∙ n in
      rw e (contains-erase a b rest n (ground arith))
  | inr e ↦ rw e (ground (arith, contains-erase a b rest n))
]

-- The claims of the live components, by the number of the component, with the registry.
abbrev pub World : Type 0
World = (ℕ → PathClaim) × Registry

-- Each held key is registered, and no two components hold one key.
pub record IsExclusive (w : World) : Type 0 where
  pub registered : (i : ℕ) → (w.0 i).held ≡ true → contains w.1 (w.0 i).key ≡ true
  pub distinct :
      (i j : ℕ)
      → (w.0 i).held ≡ true
      → (w.0 j).held ≡ true
      → bytes_eq (w.0 i).key (w.0 j).key ≡ true
      → i ≡ j

abbrev pub write : ℕ → PathClaim → (ℕ → PathClaim) → ℕ → PathClaim
write i claim claims j = if i == j then claim else claims j

-- PathClaim::release and PathClaim::acquire on component `i`.
abbrev pub release_at : ℕ → World → World
release_at i (claims, registry) =
    let (claim, registry') = release (claims i, registry) in (write i claim claims, registry')

abbrev pub acquire_at : FileSystem → ℕ → Bytes → World → Bool × World
acquire_at fs i path (claims, registry) =
    let (got, claim, registry') = acquire fs path (claims i, registry) in
    (got, (write i claim claims, registry'))

-- A component that still holds a claim after `i` has released its own is another one.
pub released-held :
    (i j : ℕ) (claims : ℕ → PathClaim) (registry : Registry)
    → ((release_at i (claims, registry)).0 j).held ≡ true
    → ((i == j) ≡ false)
      × ((claims j).held ≡ true)
      × ((release_at i (claims, registry)).0 j ≡ claims j)
unfolding release
released-held i j claims registry h = elim (Bool-cases (i == j)) [
  | inl e ↦ absurd (ground arith)
  | inr e ↦ (e, ground arith, rw e refl)
]

pub kept-registered :
    (i j : ℕ) (claims : ℕ → PathClaim) (registry : Registry)
    → IsExclusive (claims, registry)
    → (i == j) ≡ false
    → (claims j).held ≡ true
    → contains (release_at i (claims, registry)).1 (claims j).key ≡ true
unfolding release
kept-registered i j claims registry inv other h = elim (Bool-cases (claims i).held) [
  | inr idle ↦ rw idle (inv.registered j h)
  | inl active ↦ elim (Bool-cases (bytes_eq (claims i).key (claims j).key)) [
    | inl same ↦ let e = inv.distinct i j active h same in absurd (ground (arith, (==_iff i j).1 e))
    | inr apart ↦
        rw active (contains-erase (claims i).key (claims j).key registry apart (inv.registered j h))
  ]
]

-- Releasing a claim leaves the others exclusive.
pub release-IsExclusive : (i : ℕ) (w : World) → IsExclusive w → IsExclusive (release_at i w)
release-IsExclusive i (claims, registry) inv = record {
  registered = λ j h.
      let (other, held, same) = released-held i j claims registry h in
      ap (λ (c : PathClaim). contains (release_at i (claims, registry)).1 c.key) same
      ∙ kept-registered i j claims registry inv other held;
  distinct = λ j k hj hk e.
      let (_, held_j, same_j) = released-held i j claims registry hj in
      let (_, held_k, same_k) = released-held i k claims registry hk in
      inv.distinct j k held_j held_k (
        sym (
          ap (λ (c : PathClaim). bytes_eq c.key ((release_at i (claims, registry)).0 k).key) same_j
          ∙ ap (λ (c : PathClaim). bytes_eq (claims j).key c.key) same_k)
        ∙ e);
}

module _ (i : ℕ) (key : Bytes) (claims : ℕ → PathClaim) (registry : Registry)
    (inv : IsExclusive (claims, registry)) (new : contains registry key ≡ false) where
  abbrev claim : PathClaim
  claim = record { key = key; held = true }

  not_taken : (j : ℕ) → (claims j).held ≡ true → bytes_eq key (claims j).key ≡ false
  not_taken j h = elim (Bool-cases (bytes_eq key (claims j).key)) [
    | inr e ↦ e
    | inl e ↦
        let same = ap (contains registry) ((bytes_eq_iff key (claims j).key).0 e) in
        absurd (ground (arith, inv.registered j h, same))
  ]

  clash : (j : ℕ) → (claims j).held ≡ true → key ≢ (claims j).key
  clash j h e = ground (arith, not_taken j h, (bytes_eq_iff key (claims j).key).1 e)

  new_registered : contains (key ∷ registry) key ≡ true
  unfolding contains
  new_registered = ground (arith, bytes_eq_refl key)

  old_registered : (k : Bytes) → contains registry k ≡ true → contains (key ∷ registry) k ≡ true
  unfolding contains
  old_registered k h = ground arith

  added-held :
      (j : ℕ)
      → (write i claim claims j).held ≡ true
      → (((i == j) ≡ true) × ((write i claim claims j).key ≡ key))
        ⊎ (((i == j) ≡ false)
            × ((claims j).held ≡ true)
            × ((write i claim claims j).key ≡ (claims j).key))
  added-held j h = elim (Bool-cases (i == j)) [
    | inl e ↦ inl (e, rw e refl)
    | inr e ↦ inr (e, ground arith, rw e refl)
  ]

  add-IsExclusive : IsExclusive (write i claim claims, key ∷ registry)
  add-IsExclusive = record {
    registered = λ j h. elim (added-held j h) [
      | inl (e, k) ↦ ap (contains (key ∷ registry)) k ∙ new_registered
      | inr (e, held, k) ↦
          ap (contains (key ∷ registry)) k ∙ old_registered (claims j).key (inv.registered j held)
    ];
    distinct = λ j k hj hk e. elim (added-held j hj) [
      | inl (ej, kj) ↦ elim (added-held k hk) [
        | inl (ek, kk) ↦ sym ((==_iff i j).0 ej) ∙ (==_iff i k).0 ek
        | inr (ek, held, kk) ↦ absurd (clash k held (sym kj ∙ (bytes_eq_iff _ _).0 e ∙ kk))
      ]
      | inr (ej, held, kj) ↦ elim (added-held k hk) [
        | inl (ek, kk) ↦ absurd (clash j held (sym kk ∙ sym ((bytes_eq_iff _ _).0 e) ∙ kj))
        | inr (ek, held', kk) ↦
            inv.distinct j k held held'
              ((bytes_eq_iff _ _).1 (sym kj ∙ (bytes_eq_iff _ _).0 e ∙ kk))
      ]
    ];
  }

write_at :
    (i : ℕ) (c d : PathClaim) (claims : ℕ → PathClaim) (j : ℕ)
    → write i c (write i d claims) j ≡ write i c claims j
write_at i c d claims j = elim (Bool-cases (i == j)) [ inl e ↦ rw e refl | inr e ↦ rw e refl ]

write-write :
    (i : ℕ) (c d : PathClaim) (claims : ℕ → PathClaim)
    → write i c (write i d claims) ≡ write i c claims
write-write i c d claims = λ t. λ j. write_at i c d claims j t

-- Whatever component acquires whatever path, and whether it succeeds or is refused, no two
-- live components hold one normalized path afterwards, and every held path is registered.
pub acquire-IsExclusive :
    (fs : FileSystem) (i : ℕ) (path : Bytes) (w : World)
    → IsExclusive w
    → IsExclusive (acquire_at fs i path w).1
unfolding acquire
acquire-IsExclusive fs i path (claims, registry) inv =
    let released = release-IsExclusive i (claims, registry) inv in
    let registry' = (release_at i (claims, registry)).1 in
    elim (Bool-cases (is_in_memory path)) [
      | inl memory ↦ rw memory released
      | inr e ↦ elim (Bool-cases (contains registry' (normalize fs path))) [
        | inl taken ↦ rw (e, taken) released
        | inr new ↦
            rw (e, new)
              (subst (λ (c : ℕ → PathClaim). IsExclusive (c, normalize fs path ∷ registry'))
                (write-write i (record { key = normalize fs path; held = true })
                  (release (claims i, registry)).0 claims)
                (add-IsExclusive i (normalize fs path) (release_at i (claims, registry)).0 registry'
                  released new))
      ]
    ]
