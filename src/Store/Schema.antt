-- ===== src/Store/Schema.antt =====
-- The schema of a store, as src/sqlite_store.cpp wants it: what its validate functions compare.
--
-- What sqlite_master and the pragmas say of the schema is a parameter, with the statements that read
-- it: `none` where a step fails, and the rows of a loop with whether SQLITE_DONE came last.
pub mod Inspect
pub mod Accepted
pub mod Opening
use player_trace_sdk.Base.{
  ℕ, ◌≡◌, ◌&&◌, ◌||◌, Bool, true, false, not, List, [], ◌∷◌, Option, none, some, length, take,
  bytes_eq, ◌==◌, codes, if◌then◌else◌,
}
use player_trace_sdk.Types.{Bytes}
use player_trace_sdk.Validator.Keys.{is_empty, contains}
use player_trace_sdk.Store.Action.{Action, ◌>>=◌, ◌>>◌, return, fail, try}
use player_trace_sdk.Store.Sqlite.{
  Sqlite, Call, prepare, bind_text, change, create_table, create_index, insert_meta,
}
use player_trace_sdk.Store.Transactions.{transaction}
use player_trace_sdk.Store.SqlText.{strip_sql_noise, check_expressions, parse_schema_version}

pub record ColumnSpec : Type 0 where
  pub name : Bytes
  pub declared : Bytes
  pub notnull : ℕ
  pub pk : ℕ

abbrev column : Bytes → Bytes → ℕ → ColumnSpec
column name declared pk = record { name = name; declared = declared; notnull = 1; pk = pk }

abbrev text : Bytes
text = codes "TEXT"

abbrev integer : Bytes
integer = codes "INTEGER"

-- kEventsColumns and kMetaColumns
abbrev pub events_columns : List ColumnSpec
events_columns =
    column (codes "event_id") text 1
    ∷ column (codes "session_id") text 0
    ∷ column (codes "seq") integer 0
    ∷ column (codes "ordinal") integer 0
    ∷ column (codes "created_ms") integer 0
    ∷ column (codes "payload") text 0
    ∷ []

abbrev pub meta_columns : List ColumnSpec
meta_columns = column (codes "key") text 1 ∷ column (codes "value") text 0 ∷ []

-- A row of PRAGMA index_list.
pub record Index : Type 0 where
  pub name : Bytes
  pub unique : ℕ
  pub origin : Bytes
  pub partial : ℕ

abbrev pub order_index : Bytes
order_index = codes "idx_events_order"

abbrev pub events_table : Bytes
events_table = codes "events"

abbrev pub meta_table : Bytes
meta_table = codes "schema_meta"

abbrev pub version_key : Bytes
version_key = codes "schema_version"

-- The statements that open a file and read its schema.
pub record Inspection (D : Type 0) : Type 0 where
  pub open_file : D → Bool × D
  pub close_file : D → D
  pub find_table : Bytes → D → Option Bool × D
  pub find_version : D → Option (Option Bytes) × D
  pub table_info : Bytes → D → (List ColumnSpec × Bool) × D
  pub events_sql : D → Option (Option Bytes) × D
  pub index_table : D → Option (Option Bytes) × D
  pub index_list : D → (List Index × Bool) × D
  pub index_info : D → (List Bytes × Bool) × D
  pub journal_mode : D → Option (Option Bytes) × D
  pub pragma : Bytes → D → Bool × D

-- Is the column the one that is wanted?
unfoldable pub is_column : ColumnSpec → ColumnSpec → Bool
is_column want c =
    bytes_eq c.name want.name
    && bytes_eq c.declared want.declared
    && (c.notnull == want.notnull)
    && (if c.pk == 0 then want.pk == 0 else not (want.pk == 0))

-- The loop over the columns, which must come to the end of the wanted ones.
unfoldable pub are_columns : List ColumnSpec → List ColumnSpec → Bool
are_columns want [] = is_empty want
are_columns [] (c ∷ rest) = false
are_columns (w ∷ want) (c ∷ rest) =
    let others = are_columns want rest in if is_column w c then others else false

unfoldable pub is_satisfied : List Bytes → Bool
is_satisfied [] = false
is_satisfied (e ∷ rest) =
    bytes_eq e (codes "length(event_id)>0")
    || bytes_eq e (codes "0<length(event_id)")
    || is_satisfied rest

unfoldable pub find_index : List Index → Option Index
find_index [] = none
find_index (i ∷ rest) =
    let later = find_index rest in if bytes_eq i.name order_index then some i else later

unfoldable pub is_plain_index : Index → Bool
is_plain_index i = (i.partial == 0) && (i.unique == 0) && bytes_eq i.origin (codes "c")

-- kStoreSchemaVersion
unfoldable pub is_version : Option ℕ → Bool
is_version none = false
is_version (some version) = version == 3

-- Exactly one column, of this name?
unfoldable pub are_just : Bytes → List Bytes → Bool
are_just name [] = false
are_just name (c ∷ rest) = is_empty rest && bytes_eq c name
