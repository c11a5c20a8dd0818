-- ===== src/Store/Reads.antt =====
-- The reads of src/sqlite_store.cpp: scalar_uint64, count, count_up_to, max_ordinal,
-- revocation_pending and fetch_pending.
--
-- A query is a parameter: what sqlite3_step answers for it, and what it reports of the tables.
pub mod Scalars
pub mod Fetch
pub mod Released
use player_trace_sdk.Base.{
  ℕ, ◌+◌, ◌^◌, ◌<◌, ◌≤◌, ◌≡◌, Bool, true, false, not, ◌||◌, List, [], ◌∷◌, map, Option, none, some,
  length, take, ltb, leb, ◌==◌, codes, if◌then◌else◌,
}
use player_trace_sdk.Base.Int.{ℤ, pos, pos_part}
use player_trace_sdk.Types.{Status, ok, storage_error, Bytes, SerializedEvent}
use player_trace_sdk.Validator.Keys.{is_empty}
use player_trace_sdk.Store.Interface.{StoredRecord, rows_up_to, FetchResult}
use player_trace_sdk.Store.Action.{Action, ◌>>=◌, ◌>>◌, return, try}
use player_trace_sdk.Store.Sqlite.{Sqlite, Tables, Row, Call, prepare, bind_int, bind_text, has_key}
use player_trace_sdk.Store.Transactions.{revocation_key, no_fault, delete_rowids}

-- COALESCE(MAX(ordinal), 0)
unfoldable pub greatest_ordinal : List Row → ℕ
greatest_ordinal [] = 0
greatest_ordinal (r ∷ rows) =
    let others = greatest_ordinal rows in
    if leb others r.stored.ordinal then r.stored.ordinal else others

pub data Scalar : Type 0 where
  count_events max_of_ordinals count_below : Scalar

-- The answer, given what is bound to the parameter of the statement.
unfoldable pub scalar_answer : Scalar → ℕ → Tables → ℕ
scalar_answer count_events barrier t = length t.events
scalar_answer max_of_ordinals barrier t = greatest_ordinal t.events
scalar_answer count_below barrier t = rows_up_to barrier (map (λ (r : Row). r.stored) t.events)

-- Is each ordinal at least the one before it?
unfoldable pub ascending : ℕ → List Row → Bool
ascending n [] = true
ascending n (r ∷ rows) =
    let rest = ascending r.stored.ordinal rows in if leb n r.stored.ordinal then rest else false

-- A read leaves the transaction and both views.
abbrev pub Unmoved : {D : Type 0} → Sqlite D → D → D → Type 0
Unmoved db d d' =
    (Sqlite.autocommit db d' ≡ Sqlite.autocommit db d)
    × (Sqlite.committed db d' ≡ Sqlite.committed db d)
    × (Sqlite.current db d' ≡ Sqlite.current db d)

-- `bound` is what sqlite3_bind_int64 bound to the first parameter. `scalar` is a step that answers SQLITE_ROW, with its first column; `probe` one that answers
-- SQLITE_ROW or SQLITE_DONE; `select` the rows of the steps, and whether SQLITE_DONE came last.
-- `in_order` is ORDER BY ordinal.
pub record Queries {D : Type 0} (db : Sqlite D) : Type 0 where
  pub bound : D → ℕ
  pub scalar : Scalar → D → Option ℤ × D
  pub probe : Bytes → D → Option Bool × D
  pub select : ℕ → D → (List Row × Bool) × D
  pub in_order : List Row → List Row
  pub is_valid_json : Bytes → Bool
  pub bound_by :
      (n : ℕ) (d : D)
      → (Sqlite.call db (bind_int 1 n) d).0 ≡ true
      → bound (Sqlite.call db (bind_int 1 n) d).1 ≡ n
  pub scalar_quiet : (q : Scalar) (d : D) → Unmoved db d (scalar q d).1
  pub scalar_value :
      (q : Scalar) (v : ℤ) (d : D)
      → (scalar q d).0 ≡ some v
      → v ≡ pos (scalar_answer q (bound d) (Sqlite.current db d))
  pub probe_quiet : (key : Bytes) (d : D) → Unmoved db d (probe key d).1
  pub found :
      (key : Bytes) (b : Bool) (d : D)
      → (probe key d).0 ≡ some b
      → b ≡ has_key key (Sqlite.current db d).meta
  pub select_quiet : (limit : ℕ) (d : D) → Unmoved db d (select limit d).1
  pub selected :
      (limit : ℕ) (d : D)
      → (select limit d).0.1 ≡ true
      → (select limit d).0.0 ≡ take limit (in_order (Sqlite.current db d).events)
  pub limited : (limit : ℕ) (d : D) → length (select limit d).0.0 ≤ limit
  pub ordered : (rows : List Row) → ascending 0 (in_order rows) ≡ true

module _ {D : Type 0} (db : Sqlite D) (queries : Queries db) where
  open db use {call}
  open queries use {scalar, probe, select, is_valid_json}

  -- A step that answers with a value, or fails.
  abbrev pub ask : {A : Type 0} → (D → Option A × D) → Action D A
  ask f d = f d

  unfoldable pub scalar_uint64 : Scalar → Option ℕ → Action D ℕ
  scalar_uint64 q none = do
    try (call (prepare (codes "scalar")))
    value ← ask (scalar q)
    return (pos_part value)
  scalar_uint64 q (some bound) = do
    try (call (prepare (codes "scalar")))
    try (call (bind_int 1 bound))
    value ← ask (scalar q)
    return (pos_part value)

  unfoldable pub count : Action D ℕ
  count = no_fault db (codes "count") >> scalar_uint64 count_events none

  unfoldable pub max_ordinal : Action D ℕ
  max_ordinal = scalar_uint64 max_of_ordinals none

  unfoldable pub count_up_to : ℕ → Action D ℕ
  count_up_to barrier = no_fault db (codes "count") >> scalar_uint64 count_below (some barrier)

  unfoldable pub revocation_pending : Action D Bool
  revocation_pending = do
    try (call (prepare (codes "SELECT 1 FROM schema_meta WHERE key=? LIMIT 1;")))
    try (call (bind_text 1 revocation_key))
    ask (probe revocation_key)

  -- A row that can never be acknowledged or written.
  unfoldable pub unusable : Row → Bool
  unusable r = is_empty r.stored.event_id || not (is_valid_json r.stored.payload)

  -- The loop of fetch_pending: the events, and the rowids of the unusable rows.
  unfoldable pub sort_out : List Row → List SerializedEvent × List ℕ
  unfolding unusable
  sort_out [] = ([], [])
  sort_out (r ∷ rows) =
      let (events, corrupt) = sort_out rows in
      if unusable r
      then (events, r.rowid ∷ corrupt)
      else (record { event_id = r.stored.event_id; json = r.stored.payload } ∷ events, corrupt)

  abbrev pub fetch_result : Status → List SerializedEvent → ℕ → FetchResult
  fetch_result s events n = record { status = s; events = events; quarantined = n }

  -- What is reported of the unusable rows, after delete_rowids.
  unfoldable pub quarantine_result : List SerializedEvent → List ℕ → Option ℕ → FetchResult
  quarantine_result events corrupt none = fetch_result storage_error events 0
  quarantine_result events corrupt (some removed) =
      if removed == length corrupt
      then fetch_result storage_error events removed
      else fetch_result storage_error events 0

  unfoldable pub quarantine : List SerializedEvent → List ℕ → D → FetchResult × D
  quarantine events corrupt d =
      if is_empty corrupt
      then (fetch_result ok events 0, d)
      else let (removed, d') = delete_rowids db corrupt d in
        (quarantine_result events corrupt removed, d')

  unfoldable pub read_rows : (List Row × Bool) × D → FetchResult × D
  read_rows ((rows, done), d) =
      let (events, corrupt) = sort_out rows in
      if not done then (fetch_result storage_error events 0, d) else quarantine events corrupt d

  -- At most the largest int.
  unfoldable pub row_limit : ℕ → ℕ
  row_limit limit = if ltb 2147483647 limit then 2147483647 else limit

  -- Up to the first row.
  unfoldable pub prepare_fetch : ℕ → Action D (Unit {0})
  unfolding row_limit
  prepare_fetch limit = do
    no_fault db (codes "prepare_fetch")
    try (
        call
          (prepare (codes "SELECT rowid, event_id, payload FROM events ORDER BY ordinal LIMIT ?;")))
    try (call (bind_int 1 (row_limit limit)))

  unfoldable pub fetch_pending : ℕ → D → FetchResult × D
  unfolding row_limit
  fetch_pending limit d =
      let (ready, d') = prepare_fetch limit d in
      elim ready [
        | none ↦ (fetch_result storage_error [] 0, d')
        | some _ ↦ read_rows (select (row_limit limit) d')
      ]
