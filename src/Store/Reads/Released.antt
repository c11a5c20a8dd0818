-- ===== src/Store/Reads/Released.antt =====
-- What fetch_pending of src/sqlite_store.cpp quarantines, in or outside of a transaction.
use player_trace_sdk.Base.{
  ℕ, ◌≡◌, ◌≤◌, ◌+◌, refl, ap, ◌∙◌, inl, inr, Bool, true, false, List, [], Option, none, some,
  length, Bool-cases, codes, arith,
}
use player_trace_sdk.Types.{storage_error, SerializedEvent, Bytes}
use player_trace_sdk.Validator.Keys.{is_empty}
use player_trace_sdk.Store.Interface.{FetchResult}
use player_trace_sdk.Store.Action.{Action, ◌>>◌, try}
use player_trace_sdk.Store.Sqlite.{Sqlite, Tables, Row, Call, prepare, bind_int}
use player_trace_sdk.Store.Transactions.{delete_rowids, no_fault}
use player_trace_sdk.Store.Transactions.Atomic.{fault-on, fault-off}
use player_trace_sdk.Store.Transactions.Deletes.{delete_rowids-IsAtomic}
use player_trace_sdk.Store.Reads.{
  Queries, sort_out, fetch_result, quarantine, read_rows, row_limit, prepare_fetch, fetch_pending,
}
use player_trace_sdk.Store.Reads.Scalars.{call-good, call-bad}
use player_trace_sdk.Store.Reads.Fetch.{released-by}

module _ {D : Type 0} (db : Sqlite D) (queries : Queries db) where
  open db use {call, fault, committed, quiet}
  open queries use {select, select_quiet}

  -- What is committed stays.
  abbrev Keeps : {A : Type 0} → Action D A → Type 0
  Keeps m = (d : D) → committed (m d).1 ≡ committed d

  Keeps-call : {A : Type 0} (c : Call) (m : Action D A) → Keeps m → Keeps (try (call c) >> m)
  Keeps-call c m k d = elim (Bool-cases (call c d).0) [
    | inl good ↦ rw (call-good db c m d good) (k (call c d).1 ∙ (quiet c d).1)
    | inr bad ↦ rw (call-bad db c m d bad) (quiet c d).1
  ]

  Keeps-try : (c : Call) → Keeps (try (call c))
  Keeps-try c d = (quiet c d).1

  Keeps-no_fault :
      {A : Type 0} (operation : Bytes) (m : Action D A)
      → Keeps m
      → Keeps (no_fault db operation >> m)
  Keeps-no_fault operation m k d = elim (Bool-cases (fault operation d)) [
    | inl e ↦ rw (fault-on db operation m d e) refl
    | inr e ↦ rw (fault-off db operation m d e) (k d)
  ]

  Keeps-prepare_fetch : (limit : ℕ) → Keeps (prepare_fetch db queries limit)
  unfolding prepare_fetch
  Keeps-prepare_fetch limit =
      let sql = codes "SELECT rowid, event_id, payload FROM events ORDER BY ordinal LIMIT ?;" in
      let bind = try (call (bind_int 1 (row_limit db queries limit))) in
      Keeps-no_fault (codes "prepare_fetch") (try (call (prepare sql)) >> bind)
        (Keeps-call (prepare sql) bind (Keeps-try (bind_int 1 (row_limit db queries limit))))

  -- As many committed rows as are reported as quarantined have gone.
  abbrev Releases : D → FetchResult × D → Type 0
  Releases d (f, d') = f.quarantined + length (committed d').events ≤ length (committed d).events

  same-Releases :
      (events : List SerializedEvent) (d d' : D)
      → committed d' ≡ committed d
      → Releases d (fetch_result db queries storage_error events 0, d')
  same-Releases events d d' same =
      let l = ap (λ (t : Tables). length t.events) same in omega (arith, l)

  quarantine-Releases :
      (events : List SerializedEvent) (corrupt : List ℕ) (d : D)
      → Releases d (quarantine db queries events corrupt d)
  unfolding quarantine
  quarantine-Releases events corrupt d = elim (Bool-cases (is_empty corrupt)) [
    | inl whole ↦ rw whole (omega arith)
    | inr bad ↦
        let r = (delete_rowids db corrupt d).0 in
        let d' = (delete_rowids db corrupt d).1 in
        rw bad (released-by db queries events corrupt r d d' (delete_rowids-IsAtomic db corrupt d))
  ]

  read_rows-Releases :
      (rows : List Row) (done : Bool) (d : D) → Releases d (read_rows db queries ((rows, done), d))
  unfolding read_rows
  read_rows-Releases rows true d =
      quarantine-Releases (sort_out db queries rows).0 (sort_out db queries rows).1 d
  read_rows-Releases rows false d = same-Releases (sort_out db queries rows).0 d d refl

  selected-Releases :
      (limit : ℕ) (d : D) (r : Option (Unit {0})) (d' : D)
      → committed d' ≡ committed d
      → Releases d (elim r as (λ _. FetchResult × D) [
        | none ↦ (fetch_result db queries storage_error [] 0, d')
        | some _ ↦ read_rows db queries (select (row_limit db queries limit) d')
      ])
  selected-Releases limit d none d' same = same-Releases [] d d' same
  selected-Releases limit d (some _) d' same =
      let n = row_limit db queries limit in
      let l = ap (λ (t : Tables). length t.events) ((select_quiet n d').1 ∙ same) in
      let fewer = read_rows-Releases (select n d').0.0 (select n d').0.1 (select n d').1 in
      omega (arith, fewer, l)

  pub fetch_pending-Releases : (limit : ℕ) (d : D) → Releases d (fetch_pending db queries limit d)
  unfolding fetch_pending
  fetch_pending-Releases limit d =
      selected-Releases limit d (prepare_fetch db queries limit d).0
        (prepare_fetch db queries limit d).1 (Keeps-prepare_fetch limit d)
