-- ===== src/Store/Sqlite.antt =====
-- SQLite as src/sqlite_store.cpp uses it: a parameter, with its documented behaviour as laws.
--
-- A connection has a committed view and the view of its transaction, which are one outside of a
-- transaction (sqlite3_get_autocommit). A NULL event_id reads as the empty text (column_text); numbers stay below 2^63, so that
-- the casts to sqlite3_int64 keep them.
use player_trace_sdk.Base.{
  ℕ, ◌+◌, ◌≡◌, Bool, true, false, ◌||◌, List, [], ◌∷◌, ◌++◌, length, bytes_eq, ◌==◌, if◌then◌else◌,
}
use player_trace_sdk.Base.Int.{ℤ}
use player_trace_sdk.Types.{Bytes}
use player_trace_sdk.Validator.Keys.{is_empty, contains}
use player_trace_sdk.Store.Interface.{StoredRecord}

-- A row of `events`.
pub record Row : Type 0 where
  pub rowid : ℕ
  pub stored : StoredRecord

-- The names of the tables, and of the indexes.
pub record Objects : Type 0 where
  pub tables : List Bytes
  pub indexes : List Bytes

pub record Tables : Type 0 where
  pub objects : Objects
  pub events : List Row
  pub meta : List (Bytes × Bytes)

-- What a statement of the source does to the tables.
pub data Change : Type 0 where
  create_table create_index : Bytes → Change
  delete_events : Change
  delete_event : Bytes → Change
  delete_row : ℕ → Change
  insert_event : StoredRecord → Change
  put_meta : Bytes → Bytes → Change
  insert_meta : Bytes → Bytes → Change
  delete_meta : Bytes → Change

unfoldable pub has_row : Bytes → List Row → Bool
has_row id [] = false
has_row id (r ∷ rows) = bytes_eq id r.stored.event_id || has_row id rows

-- INSERT OR IGNORE INTO events, with the rowid that SQLite assigns.
unfoldable pub insert_row : ℕ → StoredRecord → List Row → List Row
insert_row rowid r rows =
    if is_empty r.event_id || has_row r.event_id rows
    then rows
    else rows ++ record { rowid = rowid; stored = r } ∷ []

-- DELETE FROM events WHERE event_id = ?
unfoldable pub remove_id : Bytes → List Row → List Row
remove_id id [] = []
remove_id id (r ∷ rows) =
    let others = remove_id id rows in if bytes_eq r.stored.event_id id then others else r ∷ others

-- DELETE FROM events WHERE rowid = ?
unfoldable pub remove_row : ℕ → List Row → List Row
remove_row rowid [] = []
remove_row rowid (r ∷ rows) =
    let others = remove_row rowid rows in if r.rowid == rowid then others else r ∷ others

-- SELECT 1 FROM schema_meta WHERE key = ?
unfoldable pub has_key : Bytes → List (Bytes × Bytes) → Bool
has_key key [] = false
has_key key ((k, v) ∷ meta) = bytes_eq k key || has_key key meta

-- DELETE FROM schema_meta WHERE key = ?
unfoldable pub remove_key : Bytes → List (Bytes × Bytes) → List (Bytes × Bytes)
remove_key key [] = []
remove_key key ((k, v) ∷ meta) =
    let others = remove_key key meta in if bytes_eq k key then others else (k, v) ∷ others

-- CREATE ... IF NOT EXISTS
unfoldable pub add_object : Bytes → List Bytes → List Bytes
add_object name objects = if contains objects name then objects else objects ++ name ∷ []

unfoldable pub effect : ℕ → Change → Tables → Tables
effect rowid (create_table name) t = record t {
  objects = record t.objects { tables = add_object name t.objects.tables };
}
effect rowid (create_index name) t = record t {
  objects = record t.objects { indexes = add_object name t.objects.indexes };
}
effect rowid delete_events t = record t { events = [] }
effect rowid (delete_event id) t = record t { events = remove_id id t.events }
effect rowid (delete_row n) t = record t { events = remove_row n t.events }
effect rowid (insert_event r) t = record t { events = insert_row rowid r t.events }
effect rowid (put_meta key value) t = record t { meta = (key, value) ∷ remove_key key t.meta }
effect rowid (insert_meta key value) t = record t { meta = (key, value) ∷ t.meta }
effect rowid (delete_meta key) t = record t { meta = remove_key key t.meta }

pub data Sql : Type 0 where
  begin_immediate commit rollback : Sql
  change : Change → Sql

-- Calls that touch no table.
pub data Call : Type 0 where
  prepare : Bytes → Call
  bind_text : ℕ → Bytes → Call
  bind_int : ℕ → ℕ → Call
  bind_signed : ℕ → ℤ → Call
  reset clear_bindings : Call

-- `exec` is sqlite3_exec, `step` is sqlite3_step on a bound statement that answers SQLITE_DONE, and
-- `call` is a call that answers SQLITE_OK; each says whether it did. `fault` is the hook for tests.
pub record Sqlite (D : Type 0) : Type 0 where
  pub exec : Sql → D → Bool × D
  pub step : Change → D → Bool × D
  pub call : Call → D → Bool × D
  pub fault : Bytes → D → Bool
  pub changes : D → ℕ
  pub new_rowid : D → ℕ
  pub autocommit : D → Bool
  pub committed : D → Tables
  pub current : D → Tables
  pub idle : (d : D) → autocommit d ≡ true → current d ≡ committed d
  pub begin_ok :
      (d : D)
      → (exec begin_immediate d).0 ≡ true
      → (autocommit d ≡ true)
        × (autocommit (exec begin_immediate d).1 ≡ false)
        × (committed (exec begin_immediate d).1 ≡ committed d)
        × (current (exec begin_immediate d).1 ≡ current d)
  pub begin_failed :
      (d : D)
      → (exec begin_immediate d).0 ≡ false
      → (autocommit (exec begin_immediate d).1 ≡ autocommit d)
        × (committed (exec begin_immediate d).1 ≡ committed d)
  pub commit_ok :
      (d : D)
      → autocommit d ≡ false
      → (exec commit d).0 ≡ true
      → (autocommit (exec commit d).1 ≡ true) × (committed (exec commit d).1 ≡ current d)
  pub commit_failed :
      (d : D) → (exec commit d).0 ≡ false → committed (exec commit d).1 ≡ committed d
  pub rolled_back : (d : D) → committed (exec rollback d).1 ≡ committed d
  pub change_ok :
      (c : Change) (d : D)
      → autocommit d ≡ false
      → (exec (change c) d).0 ≡ true
      → (autocommit (exec (change c) d).1 ≡ false)
        × (committed (exec (change c) d).1 ≡ committed d)
        × (current (exec (change c) d).1 ≡ effect (new_rowid d) c (current d))
  pub change_failed :
      (c : Change) (d : D)
      → (exec (change c) d).0 ≡ false
      → committed (exec (change c) d).1 ≡ committed d
  pub step_ok :
      (c : Change) (d : D)
      → autocommit d ≡ false
      → (step c d).0 ≡ true
      → (autocommit (step c d).1 ≡ false)
        × (committed (step c d).1 ≡ committed d)
        × (current (step c d).1 ≡ effect (new_rowid d) c (current d))
  pub step_failed :
      (c : Change) (d : D) → (step c d).0 ≡ false → committed (step c d).1 ≡ committed d
  pub changed_by_id :
      (id : Bytes) (d : D)
      → autocommit d ≡ false
      → (step (delete_event id) d).0 ≡ true
      → changes (step (delete_event id) d).1 + length (remove_id id (current d).events)
        ≡ length (current d).events
  pub changed_by_row :
      (rowid : ℕ) (d : D)
      → autocommit d ≡ false
      → (step (delete_row rowid) d).0 ≡ true
      → changes (step (delete_row rowid) d).1 + length (remove_row rowid (current d).events)
        ≡ length (current d).events
  pub quiet :
      (c : Call) (d : D)
      → (autocommit (call c d).1 ≡ autocommit d)
        × (committed (call c d).1 ≡ committed d)
        × (current (call c d).1 ≡ current d)
