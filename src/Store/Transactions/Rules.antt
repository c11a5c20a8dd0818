-- ===== src/Store/Transactions/Rules.antt =====
-- What an action inside of a transaction does to the two views of the connection, and rules for the
-- steps of src/sqlite_store.cpp.
use player_trace_sdk.Base.{
  ℕ, ◌≡◌, ◌+◌, refl, subst, ap, ◌∙◌, inl, inr, true, false, Option, none, some, Bool-cases, ltb,
  length, arith,
}
use player_trace_sdk.Types.{Bytes}
use player_trace_sdk.Store.Action.{Action, ◌>>=◌, ◌>>◌, return, try, run, read}
use player_trace_sdk.Store.Sqlite.{
  Sqlite, Tables, Change, effect, Call, bind_text, change, delete_event, delete_row,
}
use player_trace_sdk.Store.Transactions.{no_fault, bind_string, step_changes}

-- What a result says of the tables before and after.
abbrev pub Post : Type 0 → Type 1
Post A = A → Tables → Tables → Type 0

abbrev pub Same : {A : Type 0} → Post A
Same a t t' = t' ≡ t

abbrev pub Then : {A B : Type 0} → Post A → (A → Post B) → Post B
Then {A} P Q b t t'' = (a : A) × (t' : Tables) × P a t t' × Q a b t' t''

module _ {D : Type 0} (db : Sqlite D) where
  open db use {
    exec, step, call, fault, changes, autocommit, committed, current, idle, begin_ok, begin_failed,
    commit_ok, commit_failed, rolled_back, change_ok, change_failed, step_ok, step_failed, quiet,
    changed_by_id, changed_by_row, new_rowid,
  }

  -- A failure leaves the committed view; a success leaves it too, stays inside the transaction, and changes
  -- the view of the transaction as the postcondition says.
  abbrev pub Outcome : {A : Type 0} → Post A → D → Option A → D → Type 0
  Outcome P d none d' = committed d' ≡ committed d
  Outcome P d (some a) d' =
      (autocommit d' ≡ false) × (committed d' ≡ committed d) × P a (current d) (current d')

  pub record Runs {A : Type 0} (m : Action D A) (P : Post A) : Type 0 where
    pub outcome : (d : D) → autocommit d ≡ false → Outcome P d (m d).0 (m d).1

  extend :
      {A B : Type 0} (P : Post A) (Q : A → Post B) (a : A) (d d' : D) (r : Option B) (d'' : D)
      → committed d' ≡ committed d
      → P a (current d) (current d')
      → Outcome (Q a) d' r d''
      → Outcome (Then P Q) d r d''
  extend P Q a d d' none d'' c p o = o ∙ c
  extend P Q a d d' (some b) d'' c p (out, c', q) = (out, c' ∙ c, (a, current d', p, q))

  bind_outcome :
      {A B : Type 0} (f : A → Action D B) (P : Post A) (Q : A → Post B) (d : D) (r : Option A)
      (d' : D)
      → Outcome P d r d'
      → ((a : A) → Runs (f a) (Q a))
      → Outcome (Then P Q) d (((λ _. (r, d')) >>= f) d).0 (((λ _. (r, d')) >>= f) d).1
  bind_outcome f P Q d none d' o g = o
  bind_outcome f P Q d (some a) d' (inside, c, p) g =
      extend P Q a d d' (f a d').0 (f a d').1 c p ((g a).outcome d' inside)

  pub Runs->>= :
      {A B : Type 0} (m : Action D A) (f : A → Action D B) {P : Post A} {Q : A → Post B}
      → Runs m P
      → ((a : A) → Runs (f a) (Q a))
      → Runs (m >>= f) (Then P Q)
  Runs->>= m f {P} {Q} r g = record {
    outcome = λ d i. bind_outcome f P Q d (m d).0 (m d).1 (r.outcome d i) g;
  }

  weaken :
      {A : Type 0} (P Q : Post A) (d : D) (r : Option A) (d' : D)
      → ((a : A) (t t' : Tables) → P a t t' → Q a t t')
      → Outcome P d r d'
      → Outcome Q d r d'
  weaken P Q d none d' w o = o
  weaken P Q d (some a) d' w (i, c, p) = (i, c, w a (current d) (current d') p)

  pub Runs-weaken :
      {A : Type 0} {m : Action D A} {P Q : Post A}
      → Runs m P
      → ((a : A) (t t' : Tables) → P a t t' → Q a t t')
      → Runs m Q
  Runs-weaken {A} {m} {P} {Q} r w = record {
    outcome = λ d i. weaken P Q d (m d).0 (m d).1 w (r.outcome d i);
  }

  -- A step that touches no table, and then the rest.
  pub Runs-first :
      {A B : Type 0} (m : Action D A) (k : Action D B) {Q : Post B}
      → Runs m Same
      → Runs k Q
      → Runs (m >> k) Q
  Runs-first m k {Q} r g =
      Runs-weaken (Runs->>= m (λ _. k) r (λ _. g))
        (λ b t t'' h. subst (λ (x : Tables). Q b x t'') h.2 h.3)

  pub Runs-return : {A : Type 0} (a : A) → Runs (return a) (λ b t t'. (b ≡ a) × (t' ≡ t))
  Runs-return a = record { outcome = λ d i. (i, refl, (refl, refl)) }

  pub Runs-no_fault : (operation : Bytes) → Runs (no_fault db operation) Same
  Runs-no_fault operation = record {
    outcome = λ d i. elim (Bool-cases (fault operation d)) [
      | inl e ↦ rw e refl
      | inr e ↦ rw e (i, refl, refl)
    ];
  }

  pub Runs-call : (c : Call) → Runs (try (call c)) Same
  Runs-call c = record {
    outcome = λ d i.
        let (a, b, e) = quiet c d in
        elim (Bool-cases (call c d).0) [ inl good ↦ rw good (a ∙ i, b, e) | inr bad ↦ rw bad b ];
  }

  pub Runs-run : (c : Call) → Runs (run (call c)) Same
  Runs-run c = record { outcome = λ d i. let (a, b, e) = quiet c d in (a ∙ i, b, e) }

  pub Runs-bind_string : (index : ℕ) (value : Bytes) → Runs (bind_string db index value) Same
  unfolding bind_string
  Runs-bind_string index value = elim (Bool-cases (ltb 2147483647 (length value))) [
    | inl big ↦ rw big (record { outcome = λ d i. refl })
    | inr small ↦ rw small (Runs-call (bind_text index value))
  ]

  -- A statement takes effect, with the rowid that SQLite chose.
  abbrev pub Takes : {A : Type 0} → Change → Post A
  Takes c a t t' = (rowid : ℕ) × (t' ≡ effect rowid c t)

  pub Runs-step : (c : Change) → Runs (try (step c)) (Takes c)
  Runs-step c = record {
    outcome = λ d i. elim (Bool-cases (step c d).0) [
      | inl good ↦ let (a, b, e) = step_ok c d i good in rw good (a, b, (new_rowid d, e))
      | inr bad ↦ rw bad (step_failed c d bad)
    ];
  }

  pub Runs-change : (c : Change) → Runs (try (exec (change c))) (Takes c)
  Runs-change c = record {
    outcome = λ d i. elim (Bool-cases (exec (change c) d).0) [
      | inl good ↦ let (a, b, e) = change_ok c d i good in rw good (a, b, (new_rowid d, e))
      | inr bad ↦ rw bad (change_failed c d bad)
    ];
  }

  pub Runs-read : {A : Type 0} (f : D → A) → Runs (read f) Same
  Runs-read f = record { outcome = λ d i. (i, refl, refl) }

  step_changes-good :
      (c : Change) (d : D)
      → (step c d).0 ≡ true
      → step_changes db c d ≡ (some (changes (step c d).1), (step c d).1)
  unfolding step_changes
  step_changes-good c d good = ground arith

  step_changes-bad :
      (c : Change) (d : D) → (step c d).0 ≡ false → step_changes db c d ≡ (none, (step c d).1)
  unfolding step_changes
  step_changes-bad c d bad = ground arith

  pub Runs-step_by_id :
      (id : Bytes)
      → Runs (step_changes db (delete_event id)) (λ n t t'.
        Takes {A = ℕ} (delete_event id) n t t' × (n + length t'.events ≡ length t.events))
  unfolding effect
  Runs-step_by_id id = record {
    outcome = λ d i. elim (Bool-cases (step (delete_event id) d).0) [
      | inl good ↦
          let (a, b, e) = step_ok (delete_event id) d i good in
          let count = changed_by_id id d i good in
          let left = ap (λ (t : Tables). length t.events) e in
          rw (step_changes-good (delete_event id) d good)
            (a, b, ((new_rowid d, e), omega (arith, count, left)))
      | inr bad ↦
          rw (step_changes-bad (delete_event id) d bad) (step_failed (delete_event id) d bad)
    ];
  }

  pub Runs-step_by_row :
      (rowid : ℕ)
      → Runs (step_changes db (delete_row rowid)) (λ n t t'.
        Takes {A = ℕ} (delete_row rowid) n t t' × (n + length t'.events ≡ length t.events))
  unfolding effect
  Runs-step_by_row rowid = record {
    outcome = λ d i. elim (Bool-cases (step (delete_row rowid) d).0) [
      | inl good ↦
          let (a, b, e) = step_ok (delete_row rowid) d i good in
          let count = changed_by_row rowid d i good in
          let left = ap (λ (t : Tables). length t.events) e in
          rw (step_changes-good (delete_row rowid) d good)
            (a, b, ((new_rowid d, e), omega (arith, count, left)))
      | inr bad ↦
          rw (step_changes-bad (delete_row rowid) d bad) (step_failed (delete_row rowid) d bad)
    ];
  }
