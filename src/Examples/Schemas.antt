-- ===== src/Examples/Schemas.antt =====
-- The theorem on opening a store, with files in memory whose schema is given.
use mathlib.Core.Option.{some-injective}
use player_trace_sdk.Base.{
  ◌≡◌, refl, sym, bytes_eq, if◌then◌else◌, Bool, true, false, List, [], ◌∷◌, ◌++◌, none, some,
  codes, sym, bytes_eq,
}
use player_trace_sdk.Types.{Bytes}
use player_trace_sdk.Validator.Keys.{contains}
use player_trace_sdk.Store.SqlText.{
  parse_schema_version, parse_digits, check_expressions, checks_from, check_at, parenthesised,
  balanced, leading_blanks, starts_with, strip_sql_noise, scan, turn, ending, head_is, is_quote,
  to_lower_ascii, collapse_spaces, is_space, is_ident_char,
}
use player_trace_sdk.Store.Sqlite.{add_object, effect}
use player_trace_sdk.Store.Transactions.{transaction, or_rollback}
use player_trace_sdk.Store.Schema.{
  ColumnSpec, Index, Inspection, events_columns, meta_columns, order_index, events_table,
  meta_table, version_key, is_column, are_columns, is_satisfied, find_index, is_plain_index,
  is_version, are_just,
}
use player_trace_sdk.Store.Schema.Inspect.{
  table_exists, read_schema_version, validate_columns, validate_events_check, validate_index_table,
  validate_index_kind, validate_order_index, validate_events_shape, accept_schema, create_tables,
  create_schema, inspect_and_prepare_schema, or_close, open_store,
}
use player_trace_sdk.Store.Schema.Accepted.{Shape, value_of}
use player_trace_sdk.Store.Schema.Opening.{Reports}
use player_trace_sdk.Examples.Database.{Connection, outside, saved_tables, view_tables, memory}

abbrev columns_of : Bytes → List ColumnSpec
columns_of table = if bytes_eq table events_table then events_columns else meta_columns

abbrev plain_index : Index
plain_index = record { name = order_index; unique = 0; origin = codes "c"; partial = 0 }

-- The schema with this text and this kind of index.
abbrev pub schema : Bytes → Index → Shape
schema ddl index = record {
  columns = columns_of;
  events_text = some ddl;
  order_table = some events_table;
  indexes = index ∷ [];
  order_columns = codes "ordinal" ∷ [];
}

abbrev pub sound : Shape
sound = schema (codes "CREATE TABLE events (event_id TEXT CHECK(length(event_id) > 0))") plain_index

abbrev pub inspecting : Shape → Inspection Connection
inspecting s = record {
  open_file = λ d. (true, outside 0 (saved_tables d));
  close_file = λ d. d;
  find_table = λ name d. (some (contains (view_tables d).objects.tables name), d);
  find_version = λ d. (some (value_of version_key (view_tables d).meta), d);
  table_info = λ table d. ((s.columns table, true), d);
  events_sql = λ d. (some s.events_text, d);
  index_table = λ d. (some s.order_table, d);
  index_list = λ d. ((s.indexes, true), d);
  index_info = λ d. ((s.order_columns, true), d);
  journal_mode = λ d. (some (some (codes "wal")), d);
  pragma = λ sql d. (true, d);
}

pub same_rows : {A : Type 0} (rows : List A) → rows ≡ rows ++ []
same_rows [] = refl
same_rows (r ∷ rows) = λ i. r ∷ same_rows rows i

abbrev pub reporting : (s : Shape) → Reports memory (inspecting s)
reporting s = record {
  shape = λ d. s;
  call_keeps = λ c d. refl;
  opened = λ d h. (refl, refl, refl);
  not_opened = λ d h. refl;
  closed = λ d. refl;
  table_found = λ name d. (
    ((refl, refl, refl), refl),
    λ b e. sym (some-injective (contains (view_tables d).objects.tables name) b e),
  );
  version_found = λ d. (
    ((refl, refl, refl), refl),
    λ row e. sym (some-injective (value_of version_key (view_tables d).meta) row e),
  );
  columns_listed =
      λ table d. (((refl, refl, refl), refl), (λ done. refl, [], same_rows ((s.columns table))));
  events_text_found =
      λ d. (((refl, refl, refl), refl), λ row e. sym (some-injective s.events_text row e));
  order_table_found =
      λ d. (((refl, refl, refl), refl), λ row e. sym (some-injective s.order_table row e));
  indexes_listed = λ d. (((refl, refl, refl), refl), (λ done. refl, [], same_rows (s.indexes)));
  order_columns_listed =
      λ d. (((refl, refl, refl), refl), (λ done. refl, [], same_rows (s.order_columns)));
  journal_quiet = λ d. ((refl, refl, refl), refl);
  pragma_quiet = λ sql d. ((refl, refl, refl), refl);
}

abbrev fresh : Connection
fresh =
    outside 0 (record { objects = record { tables = []; indexes = [] }; events = []; meta = [] })

abbrev known : Connection
known = outside 0 (record {
  objects = record { tables = meta_table ∷ events_table ∷ []; indexes = order_index ∷ [] };
  events = [];
  meta = (version_key, codes "3") ∷ [];
})

-- A new file gets the schema.
new_file :
    (saved_tables (open_store memory (inspecting sound) fresh).1).objects
    ≡ record { tables = meta_table ∷ events_table ∷ []; indexes = order_index ∷ [] }
unfolding open_store or_close inspect_and_prepare_schema create_schema create_tables table_exists
    transaction or_rollback effect add_object contains bytes_eq
new_file = refl

abbrev opened : Shape → Connection → Bool
opened s d = elim (open_store memory (inspecting s) d).0 [ none ↦ false | some mode ↦ true ]

-- A file without the tables, but with an index of that name on a table of its own: it opens, CREATE
-- INDEX IF NOT EXISTS leaves the index where it is, and the file does not open again.
abbrev foreign : Shape
foreign = record sound { order_table = some (codes "scores") }

abbrev with_index : Connection
with_index = outside 0 (record {
  objects = record { tables = []; indexes = order_index ∷ [] };
  events = [];
  meta = [];
})

foreign_index :
    ((open_store memory (inspecting foreign) with_index).0 ≡ some (some (codes "wal")))
    × (opened foreign (open_store memory (inspecting foreign) with_index).1 ≡ false)
unfolding open_store or_close inspect_and_prepare_schema create_schema create_tables table_exists
    transaction or_rollback effect add_object contains bytes_eq accept_schema validate_columns
    read_schema_version validate_events_shape validate_events_check validate_order_index
    validate_index_table validate_index_kind are_columns is_column is_satisfied find_index
    is_plain_index is_version are_just value_of parse_schema_version parse_digits check_expressions
    checks_from check_at parenthesised balanced leading_blanks starts_with strip_sql_noise scan turn
    ending head_is is_quote to_lower_ascii collapse_spaces is_space is_ident_char
foreign_index = (refl, refl)

-- A schema of version 3 is accepted; one with a forged constraint is not, and one with a partial index is not.
judged :
    (opened sound known ≡ true)
    × (opened
          (schema
            (codes "CREATE TABLE events (event_id TEXT /* CHECK(length(event_id)>0) */)")
            plain_index)
          known
        ≡ false)
    × (opened
          (schema (codes "CHECK(length(event_id)>0)") (record plain_index { partial = 1 }))
          known
        ≡ false)
unfolding open_store or_close inspect_and_prepare_schema accept_schema validate_columns
    read_schema_version validate_events_shape validate_events_check validate_order_index
    validate_index_table validate_index_kind table_exists are_columns is_column is_satisfied
    find_index is_plain_index is_version are_just contains bytes_eq value_of parse_schema_version
    parse_digits check_expressions checks_from check_at parenthesised balanced leading_blanks
    starts_with strip_sql_noise scan turn ending head_is is_quote to_lower_ascii collapse_spaces
    is_space is_ident_char
judged = (refl, refl, refl)
