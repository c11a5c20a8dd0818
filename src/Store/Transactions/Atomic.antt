-- ===== src/Store/Transactions/Atomic.antt =====
-- The transactions of src/sqlite_store.cpp as a whole: begin, body, commit or rollback.
use player_trace_sdk.Base.{
  ◌≡◌, refl, sym, subst, ◌∙◌, inl, inr, true, false, Option, none, some, Bool-cases, arith,
}
use player_trace_sdk.Store.Action.{Action, ◌>>=◌, ◌>>◌, return, try}
use player_trace_sdk.Store.Sqlite.{Sqlite, Tables, commit, rollback, begin_immediate}
use player_trace_sdk.Store.Transactions.{or_rollback, transaction, no_fault}
use player_trace_sdk.Store.Transactions.Rules.{Post, Runs, Outcome}
use player_trace_sdk.Types.{Bytes}

module _ {D : Type 0} (db : Sqlite D) where
  open db use {
    exec, fault, autocommit, committed, current, idle, begin_ok, begin_failed, commit_ok,
    commit_failed, rolled_back,
  }

  -- All or nothing: a failure leaves what is committed, and a success commits the effect.
  abbrev pub Result : {A : Type 0} → Post A → D → Option A → D → Type 0
  Result P d none d' = committed d' ≡ committed d
  Result P d (some a) d' = P a (committed d) (committed d')

  abbrev pub IsAtomic : {A : Type 0} → Action D A → Post A → Type 0
  IsAtomic m P = (d : D) → Result P d (m d).0 (m d).1

  commit-good :
      {A : Type 0} (a : A) (d : D)
      → (exec commit d).0 ≡ true
      → or_rollback db (try (exec commit) >> return a) d ≡ (some a, (exec commit d).1)
  unfolding or_rollback
  commit-good a d good = ground arith

  commit-bad :
      {A : Type 0} (a : A) (d : D)
      → (exec commit d).0 ≡ false
      → or_rollback db (try (exec commit) >> return a) d
        ≡ (none, (exec rollback (exec commit d).1).1)
  unfolding or_rollback
  commit-bad a d bad = ground arith

  begin-good :
      {A : Type 0} (body : Action D A) (d : D)
      → (exec begin_immediate d).0 ≡ true
      → transaction db body d
        ≡ or_rollback db (body >>= (λ a. try (exec commit) >> return a)) (exec begin_immediate d).1
  unfolding transaction
  begin-good body d good = ground arith

  begin-bad :
      {A : Type 0} (body : Action D A) (d : D)
      → (exec begin_immediate d).0 ≡ false
      → transaction db body d ≡ (none, (exec begin_immediate d).1)
  unfolding transaction
  begin-bad body d bad = ground arith

  committing :
      {A : Type 0} (a : A) (P : Post A) (d d' : D)
      → autocommit d' ≡ false
      → committed d' ≡ committed d
      → P a (committed d) (current d')
      → Result P d
          (or_rollback db (try (exec commit) >> return a) d').0
          (or_rollback db (try (exec commit) >> return a) d').1
  committing a P d d' inside c p = elim (Bool-cases (exec commit d').0) [
    | inl good ↦
        let (out, e) = commit_ok d' inside good in
        rw (commit-good a d' good) (subst (λ (t : Tables). P a (committed d) t) (sym e) p)
    | inr bad ↦ rw (commit-bad a d' bad) (rolled_back (exec commit d').1 ∙ commit_failed d' bad ∙ c)
  ]

  -- The same, as the tail of the body of a transaction.
  finishing :
      {A : Type 0} (P : Post A) (d d1 : D) (r : Option A) (d2 : D)
      → committed d1 ≡ committed d
      → current d1 ≡ committed d
      → Outcome db P d1 r d2
      → Result P d
          (or_rollback db ((λ _. (r, d2)) >>= (λ a. try (exec commit) >> return a)) d1).0
          (or_rollback db ((λ _. (r, d2)) >>= (λ a. try (exec commit) >> return a)) d1).1
  unfolding or_rollback
  finishing P d d1 none d2 c e o = rolled_back d2 ∙ o ∙ c
  finishing P d d1 (some a) d2 c e (inside, c2, p) =
      committing a P d d2 inside (c2 ∙ c) (subst (λ (t : Tables). P a t (current d2)) e p)

  pub transaction-IsAtomic :
      {A : Type 0} (body : Action D A) (P : Post A)
      → Runs db body P
      → IsAtomic (transaction db body) P
  unfolding or_rollback
  transaction-IsAtomic body P r d = elim (Bool-cases (exec begin_immediate d).0) [
    | inr bad ↦ rw (begin-bad body d bad) (begin_failed d bad).1
    | inl good ↦
        let d1 = (exec begin_immediate d).1 in
        let (out, inside, c, e) = begin_ok d good in
        rw (begin-good body d good)
          (finishing P d d1 (body d1).0 (body d1).1 c (e ∙ idle d out) (r.outcome d1 inside))
  ]

  pub fault-on :
      {A : Type 0} (operation : Bytes) (m : Action D A) (d : D)
      → fault operation d ≡ true
      → (no_fault db operation >> m) d ≡ (none, d)
  fault-on operation m d e = ground arith

  pub fault-off :
      {A : Type 0} (operation : Bytes) (m : Action D A) (d : D)
      → fault operation d ≡ false
      → (no_fault db operation >> m) d ≡ m d
  fault-off operation m d e = ground arith

  -- A fault before the transaction leaves everything.
  pub no_fault-IsAtomic :
      {A : Type 0} (operation : Bytes) (m : Action D A) (P : Post A)
      → IsAtomic m P
      → IsAtomic (no_fault db operation >> m) P
  no_fault-IsAtomic operation m P a d = elim (Bool-cases (fault operation d)) [
    | inl e ↦ rw (fault-on operation m d e) refl
    | inr e ↦ rw (fault-off operation m d e) (a d)
  ]

  weaken :
      {A : Type 0} (P Q : Post A) (d : D) (r : Option A) (d' : D)
      → ((a : A) (t t' : Tables) → P a t t' → Q a t t')
      → Result P d r d'
      → Result Q d r d'
  weaken P Q d none d' w o = o
  weaken P Q d (some a) d' w p = w a (committed d) (committed d') p

  pub IsAtomic-weaken :
      {A : Type 0} (m : Action D A) (P Q : Post A)
      → ((a : A) (t t' : Tables) → P a t t' → Q a t t')
      → IsAtomic m P
      → IsAtomic m Q
  IsAtomic-weaken m P Q w a d = weaken P Q d (m d).0 (m d).1 w (a d)

  -- A transaction that succeeded has ended.
  abbrev pub Ended : {A : Type 0} → Option A → D → Type 0
  Ended none d' = Unit
  Ended (some a) d' = autocommit d' ≡ true

  commit-Ended :
      {A : Type 0} (a : A) (d' : D)
      → autocommit d' ≡ false
      → Ended
          (or_rollback db (try (exec commit) >> return a) d').0
          (or_rollback db (try (exec commit) >> return a) d').1
  commit-Ended a d' inside = elim (Bool-cases (exec commit d').0) [
    | inl good ↦ rw (commit-good a d' good) (commit_ok d' inside good).0
    | inr bad ↦ rw (commit-bad a d' bad) tt
  ]

  finish-Ended :
      {A : Type 0} (P : Post A) (d1 : D) (r : Option A) (d2 : D)
      → Outcome db P d1 r d2
      → Ended
          (or_rollback db ((λ _. (r, d2)) >>= (λ a. try (exec commit) >> return a)) d1).0
          (or_rollback db ((λ _. (r, d2)) >>= (λ a. try (exec commit) >> return a)) d1).1
  unfolding or_rollback
  finish-Ended P d1 none d2 o = tt
  finish-Ended P d1 (some a) d2 (inside, _, _) = commit-Ended a d2 inside

  pub transaction-Ended :
      {A : Type 0} (body : Action D A) (P : Post A)
      → Runs db body P
      → (d : D) → Ended (transaction db body d).0 (transaction db body d).1
  unfolding or_rollback
  transaction-Ended body P r d = elim (Bool-cases (exec begin_immediate d).0) [
    | inr bad ↦ rw (begin-bad body d bad) tt
    | inl good ↦
        let d1 = (exec begin_immediate d).1 in
        let (out, inside, c, e) = begin_ok d good in
        rw (begin-good body d good)
          (finish-Ended P d1 (body d1).0 (body d1).1 (r.outcome d1 inside))
  ]

  pub no_fault-Ended :
      {A : Type 0} (operation : Bytes) (m : Action D A) (d : D)
      → Ended (m d).0 (m d).1
      → Ended ((no_fault db operation >> m) d).0 ((no_fault db operation >> m) d).1
  no_fault-Ended operation m d e = elim (Bool-cases (fault operation d)) [
    | inl h ↦ rw (fault-on operation m d h) tt
    | inr h ↦ rw (fault-off operation m d h) e
  ]
