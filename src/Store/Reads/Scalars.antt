-- ===== src/Store/Reads/Scalars.antt =====
-- count, count_up_to, max_ordinal and revocation_pending of src/sqlite_store.cpp.
use player_trace_sdk.Base.{
  ℕ, ◌≡◌, refl, ap, ◌∙◌, inl, inr, true, false, Option, none, some, Bool-cases, codes, arith,
  length, map,
}
use player_trace_sdk.Base.Int.{pos_part}
use player_trace_sdk.Types.{Bytes}
use player_trace_sdk.Store.Action.{Action, ◌>>=◌, ◌>>◌, return, try}
use player_trace_sdk.Store.Sqlite.{Sqlite, Tables, Row, Call, prepare, bind_int, bind_text, has_key}
use player_trace_sdk.Store.Transactions.{revocation_key, no_fault}
use player_trace_sdk.Store.Transactions.Atomic.{fault-on, fault-off}
use player_trace_sdk.Store.Reads.{
  Queries, Unmoved, Scalar, count_events, max_of_ordinals, count_below, scalar_answer, ask,
  scalar_uint64, count, max_ordinal, count_up_to, revocation_pending, rows_up_to, Row,
  greatest_ordinal,
}

module _ {D : Type 0} (db : Sqlite D) where
  open db use {call, fault, autocommit, committed, current, idle, quiet}

  -- An scalar_answer is about the committed tables, and nothing has moved.
  abbrev pub Seen : {A : Type 0} → (Tables → A) → D → Option A → D → Type 0
  Seen value d none d' = Unmoved db d d'
  Seen value d (some a) d' = Unmoved db d d' × (a ≡ value (committed d))

  abbrev pub Sees : {A : Type 0} → Action D A → (Tables → A) → Type 0
  Sees m value = (d : D) → autocommit d ≡ true → Seen value d (m d).0 (m d).1

  later :
      {A : Type 0} (value : Tables → A) (d d' : D) (r : Option A) (d'' : D)
      → Unmoved db d d'
      → Seen value d' r d''
      → Seen value d r d''
  later value d d' none d'' (a, c, e) (a', c', e') = (a' ∙ a, c' ∙ c, e' ∙ e)
  later value d d' (some x) d'' (a, c, e) ((a', c', e'), v) =
      ((a' ∙ a, c' ∙ c, e' ∙ e), v ∙ ap value c)

  pub call-good :
      {A : Type 0} (c : Call) (m : Action D A) (d : D)
      → (call c d).0 ≡ true
      → (try (call c) >> m) d ≡ m (call c d).1
  call-good c m d good = ground arith

  pub call-bad :
      {A : Type 0} (c : Call) (m : Action D A) (d : D)
      → (call c d).0 ≡ false
      → (try (call c) >> m) d ≡ (none, (call c d).1)
  call-bad c m d bad = ground arith

  pub Sees-call :
      {A : Type 0} (c : Call) (m : Action D A) (value : Tables → A)
      → Sees m value
      → Sees (try (call c) >> m) value
  Sees-call c m value s d out = elim (Bool-cases (call c d).0) [
    | inl good ↦
        let d' = (call c d).1 in
        rw (call-good c m d good)
          (later value d d' (m d').0 (m d').1 (quiet c d) (s d' ((quiet c d).0 ∙ out)))
    | inr bad ↦ rw (call-bad c m d bad) (quiet c d)
  ]

  pub Sees-try : (c : Call) → Sees (try (call c)) (λ _. tt)
  Sees-try c d out = elim (Bool-cases (call c d).0) [
    | inl good ↦ rw good (quiet c d, refl)
    | inr bad ↦ rw bad (quiet c d)
  ]

  pub Sees-no_fault :
      {A : Type 0} (operation : Bytes) (m : Action D A) (value : Tables → A)
      → Sees m value
      → Sees (no_fault db operation >> m) value
  Sees-no_fault operation m value s d out = elim (Bool-cases (fault operation d)) [
    | inl e ↦ rw (fault-on db operation m d e) (refl, refl, refl)
    | inr e ↦ rw (fault-off db operation m d e) (s d out)
  ]

  answered :
      {A B : Type 0} (f : A → B) (value : Tables → B) (d : D) (r : Option A) (d' : D)
      → autocommit d ≡ true
      → Unmoved db d d'
      → ((a : A) → r ≡ some a → f a ≡ value (current d))
      → Seen value d
          (((λ _. (r, d')) >>= λ a. return (f a)) d).0
          (((λ _. (r, d')) >>= λ a. return (f a)) d).1
  answered f value d none d' out u v = u
  answered f value d (some a) d' out u v = (u, v a refl ∙ ap value (idle d out))

  unchanged :
      {A : Type 0} (value : Tables → A) (d : D) (r : Option A) (d' : D)
      → autocommit d ≡ true
      → Unmoved db d d'
      → ((a : A) → r ≡ some a → a ≡ value (current d))
      → Seen value d r d'
  unchanged value d none d' out u v = u
  unchanged value d (some a) d' out u v = (u, v a refl ∙ ap value (idle d out))

  module _ (queries : Queries db) where
    open queries use {
      bound, bound_by, scalar, scalar_quiet, scalar_value, probe, probe_quiet, found,
    }

    -- A query without a parameter.
    Sees-unbound :
        (q : Scalar) (value : Tables → ℕ)
        → ((n : ℕ) (t : Tables) → scalar_answer q n t ≡ value t)
        → Sees (scalar_uint64 db queries q none) value
    unfolding scalar_uint64
    Sees-unbound q value any = Sees-call (prepare (codes "scalar")) _ value (λ d out.
        answered pos_part value d (scalar q d).0 (scalar q d).1 out (scalar_quiet q d)
          (λ v e. ap pos_part (scalar_value q v d e) ∙ any (bound d) (current d)))

    -- A query with a parameter, which is bound first.
    after_bind : Scalar → Action D ℕ
    after_bind q = ask db queries (scalar q) >>= (λ v. return (pos_part v))

    Sees-bind :
        (q : Scalar) (n : ℕ) → Sees (try (call (bind_int 1 n)) >> after_bind q) (scalar_answer q n)
    unfolding after_bind
    Sees-bind q n d out = elim (Bool-cases (call (bind_int 1 n) d).0) [
      | inr bad ↦ rw (call-bad (bind_int 1 n) (after_bind q) d bad) (quiet (bind_int 1 n) d)
      | inl good ↦
          let d' = (call (bind_int 1 n) d).1 in
          let still = quiet (bind_int 1 n) d in
          rw (call-good (bind_int 1 n) (after_bind q) d good) (
            later (scalar_answer q n) d d' (after_bind q d').0 (after_bind q d').1 still (
              answered pos_part (scalar_answer q n) d' (scalar q d').0 (scalar q d').1
                (still.0 ∙ out) (scalar_quiet q d')
                (λ v e.
                  ap pos_part (scalar_value q v d' e)
                  ∙ ap (λ b. scalar_answer q b (current d')) (bound_by n d good))))
    ]

    Sees-bound :
        (q : Scalar) (n : ℕ) → Sees (scalar_uint64 db queries q (some n)) (scalar_answer q n)
    unfolding scalar_uint64 after_bind
    Sees-bound q n =
        Sees-call (prepare (codes "scalar")) (try (call (bind_int 1 n)) >> after_bind q)
          (scalar_answer q n) (Sees-bind q n)

    -- Outside of a transaction count, count_up_to, max_ordinal and revocation_pending change
    -- nothing, and the value of one that succeeds is, of the committed tables, the number of the
    -- rows, the number of those up to the barrier, the greatest ordinal (0 without rows), and whether
    -- the revocation marker is there.
    pub reads_lem :
        (barrier : ℕ)
        → Sees (count db queries) (λ t. length t.events)
          × Sees
              (count_up_to db queries barrier)
              (λ t. rows_up_to barrier (map (λ (r : Row). r.stored) t.events))
          × Sees (max_ordinal db queries) (λ t. greatest_ordinal t.events)
          × Sees (revocation_pending db queries) (λ t. has_key revocation_key t.meta)
    unfolding count count_up_to max_ordinal revocation_pending scalar_answer
    reads_lem barrier = (
      Sees-no_fault (codes "count") (scalar_uint64 db queries count_events none)
          (λ t. length t.events) (Sees-unbound count_events (λ t. length t.events) (λ n t. refl)),
      Sees-no_fault (codes "count") (scalar_uint64 db queries count_below (some barrier))
          (scalar_answer count_below barrier) (Sees-bound count_below barrier),
      Sees-unbound max_of_ordinals (λ t. greatest_ordinal t.events) (λ n t. refl),
      Sees-call (prepare (codes "SELECT 1 FROM schema_meta WHERE key=? LIMIT 1;")) _
          (λ t. has_key revocation_key t.meta)
          (Sees-call (bind_text 1 revocation_key) _ (λ t. has_key revocation_key t.meta)
            (λ d out.
              unchanged (λ t. has_key revocation_key t.meta) d (probe revocation_key d).0
                (probe revocation_key d).1 out (probe_quiet revocation_key d)
                (λ b e. found revocation_key b d e))),
    )
