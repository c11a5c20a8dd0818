-- ===== src/Store/Schema/Inspect.antt =====
-- Opening a store: open, inspect_and_prepare_schema, table_exists, read_schema_version and the
-- validate functions of src/sqlite_store.cpp.
use player_trace_sdk.Base.{
  ℕ, ◌&&◌, Bool, not, List, ◌++◌, Option, none, some, bytes_eq, codes, if◌then◌else◌,
}
use player_trace_sdk.Types.{Bytes}
use player_trace_sdk.Store.Action.{Action, ◌>>=◌, ◌>>◌, return, fail, try}
use player_trace_sdk.Store.Sqlite.{
  Sqlite, prepare, bind_text, change, create_table, create_index, insert_meta,
}
use player_trace_sdk.Store.Transactions.{transaction}
use player_trace_sdk.Store.SqlText.{strip_sql_noise, check_expressions, parse_schema_version}
use player_trace_sdk.Store.Schema.{
  ColumnSpec, Inspection, events_columns, meta_columns, order_index, events_table, meta_table,
  version_key, are_columns, is_satisfied, find_index, is_plain_index, is_version, are_just,
}

abbrev pub require : {D : Type 0} → Bool → Action D (Unit {0})
require b = if b then return tt else fail

module _ {D : Type 0} (db : Sqlite D) (inspection : Inspection D) where
  open db use {call}
  open inspection use {
    open_file, close_file, find_table, find_version, table_info, events_sql, index_table,
    index_list, index_info, journal_mode, pragma,
  }

  -- A loop of steps never fails by itself.
  abbrev pub rows_of : {A : Type 0} → (D → A × D) → Action D A
  rows_of q d = let (rows, d') = q d in (some rows, d')

  unfoldable pub table_exists : Bytes → Action D Bool
  table_exists name = do
    try (
        call (prepare (codes "SELECT 1 FROM sqlite_master WHERE type='table' AND name=? LIMIT 1;")))
    try (call (bind_text 1 name))
    find_table name

  -- The schema version, where there is a row for it.
  unfoldable pub read_schema_version : Action D (Option ℕ)
  read_schema_version = do
    try (call (prepare (codes "SELECT value FROM schema_meta WHERE key='schema_version';")))
    row ← find_version
    elim row [
      | none ↦ return none
      | some raw ↦ elim (parse_schema_version raw) [
        | none ↦ fail
        | some version ↦ return (some version)
      ]
    ]

  -- validate_meta_shape, and the loop of validate_events_shape
  unfoldable pub validate_columns : Bytes → List ColumnSpec → Action D (Unit {0})
  validate_columns table want = do
    try (call (prepare (codes "PRAGMA table_info(" ++ table ++ codes ");")))
    (rows, done) ← rows_of (table_info table)
    require (are_columns want rows && done)

  unfoldable pub validate_events_check : Action D (Unit {0})
  validate_events_check = do
    try (
        call
          (prepare (codes "SELECT sql FROM sqlite_master WHERE type='table' AND name='events';")))
    row ← events_sql
    elim row [
      | none ↦ fail
      | some ddl ↦ require (is_satisfied (check_expressions (strip_sql_noise ddl)))
    ]

  -- The first block of validate_order_index.
  unfoldable pub validate_index_table : Action D (Unit {0})
  validate_index_table = do
    try (call (prepare (codes "SELECT tbl_name FROM sqlite_master WHERE type='index' AND name=?;")))
    try (call (bind_text 1 order_index))
    row ← index_table
    elim row [ none ↦ fail | some table ↦ require (bytes_eq table events_table) ]

  -- The second one, which stops at the index.
  unfoldable pub validate_index_kind : Action D (Unit {0})
  validate_index_kind = do
    try (call (prepare (codes "PRAGMA index_list(events);")))
    (rows, done) ← rows_of index_list
    elim (find_index rows) [ none ↦ fail | some i ↦ require (is_plain_index i) ]

  unfoldable pub validate_order_index : Action D (Unit {0})
  validate_order_index = do
    validate_index_table
    validate_index_kind
    try (call (prepare (codes "PRAGMA index_info(idx_events_order);")))
    (columns, done) ← rows_of index_info
    require (done && are_just (codes "ordinal") columns)

  unfoldable pub validate_events_shape : Action D (Unit {0})
  validate_events_shape = do
    validate_columns events_table events_columns
    validate_events_check
    validate_order_index

  -- Where there is a schema_meta table.
  unfoldable pub accept_schema : Action D (Unit {0})
  accept_schema = do
    validate_columns meta_table meta_columns
    version ← read_schema_version
    require (is_version version)
    found ← table_exists events_table
    require found
    validate_events_shape

  -- Between BEGIN and COMMIT.
  unfoldable pub create_tables : Action D (Unit {0})
  create_tables = do
    try (db.exec (change (create_table meta_table)))
    try (db.exec (change (create_table events_table)))
    try (db.exec (change (create_index order_index)))
    try (db.exec (change (insert_meta version_key (codes "3"))))

  -- Where there is none.
  unfoldable pub create_schema : Action D (Unit {0})
  create_schema = do
    found ← table_exists events_table
    require (not found)
    transaction db create_tables

  unfoldable pub inspect_and_prepare_schema : Action D (Unit {0})
  inspect_and_prepare_schema = do
    found ← table_exists meta_table
    (if found then accept_schema else create_schema)

  -- The file is closed where the schema is refused.
  unfoldable pub or_close : {A : Type 0} → Action D A → Action D A
  or_close m d =
      let (r, d') = m d in elim r [ none ↦ (none, close_file d') | some a ↦ (some a, d') ]

  -- The journal mode that the file is left with, if the step reports one.
  unfoldable pub open_store : Action D (Option Bytes)
  open_store = do
    try open_file
    or_close inspect_and_prepare_schema
    try (call (prepare (codes "PRAGMA journal_mode=WAL;")))
    mode ← journal_mode
    try (pragma (codes "PRAGMA synchronous=NORMAL;"))
    try (pragma (codes "PRAGMA busy_timeout=5000;"))
    return mode
