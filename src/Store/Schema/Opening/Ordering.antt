-- ===== src/Store/Schema/Opening/Ordering.antt =====
-- The checks of a schema that is there: validate_order_index, validate_events_shape and the whole, of
-- src/sqlite_store.cpp.
use player_trace_sdk.Base.{
  ℕ, ◌≡◌, refl, sym, ap, ◌∙◌, true, ◌&&◌, [], ◌∷◌, map, Option, none, some, bytes_eq, bytes_eq→eq,
  codes, arith, subst, ==_iff,
}
use player_trace_sdk.Types.{Bytes}
use player_trace_sdk.Validator.Keys.{contains}
use player_trace_sdk.Store.Action.{Ensures-weaken, Action, ◌>>=◌, ◌>>◌, fail, try}
use player_trace_sdk.Store.Sqlite.{Sqlite, prepare, bind_text}
use player_trace_sdk.Store.SqlText.{parse_schema_version}
use player_trace_sdk.Store.Schema.{
  Index, Inspection, events_columns, meta_columns, order_index, events_table, meta_table,
  version_key, find_index, is_plain_index, is_version, are_just,
}
use player_trace_sdk.Store.Schema.Inspect.{
  require, rows_of, table_exists, read_schema_version, validate_columns, validate_events_check,
  validate_index_table, validate_index_kind, validate_order_index, validate_events_shape,
  accept_schema,
}
use player_trace_sdk.Store.Schema.Accepted.{
  Shape, described, value_of, IsSchema, find_index-append, are_just_lem,
}
use player_trace_sdk.Store.Schema.Opening.{
  Lists, Reports, Ensures-ask, Ensures-rows, Ensures-call, Ensures-require, Ensures-required,
  Ensures-known,
}
use player_trace_sdk.Store.Schema.Opening.{Ensures-then}
use player_trace_sdk.Store.Schema.Opening.Accepting.{
  Shows, HasVersion, IsChecked, Shows-table_exists, Shows-read_schema_version,
  Shows-validate_columns, Shows-validate_events_check,
}

module _ {D : Type 0} (db : Sqlite D) (inspection : Inspection D) (reports : Reports db inspection)
    (start : D) where
  open db use {call, committed, current}
  open inspection use {
    find_table, find_version, table_info, events_sql, index_table, index_list, index_info,
  }
  open reports use {
    shape, table_found, version_found, columns_listed, events_text_found, order_table_found,
    indexes_listed, order_columns_listed,
  }

  weaken :
      {m : Action D (Unit {0})} {P Q : Type 0}
      → (P → Q)
      → Shows db inspection reports start m (λ _. P)
      → Shows db inspection reports start m (λ _. Q)
  weaken f h = Ensures-weaken (λ d b. b) (λ a d (s, p). (s, f p)) h

  abbrev IsPlain : Type 0
  IsPlain =
      (i : Index) × (find_index (shape start).indexes ≡ some i)
      × (i.partial ≡ 0)
      × (i.unique ≡ 0)
      × (i.origin ≡ codes "c")

  table_row :
      (row : Option Bytes)
      → row ≡ (shape start).order_table
      → Shows db inspection reports start
          (elim row as (λ _. Action D (Unit {0})) [
            | none ↦ fail
            | some table ↦ require (bytes_eq table events_table)
          ])
          (λ _. (shape start).order_table ≡ some events_table)
  table_row none found = record { after = λ d h. h.1 }
  table_row (some table) found =
      Ensures-required db inspection reports start (bytes_eq table events_table)
        (λ fits d h. (h, sym found ∙ ap some (bytes_eq→eq table events_table fits)))

  Shows-validate_index_table :
      Shows db inspection reports start
        (validate_index_table db inspection)
        (λ _. (shape start).order_table ≡ some events_table)
  unfolding validate_index_table
  Shows-validate_index_table = Ensures-call db inspection reports start _ _ (
      Ensures-call db inspection reports start (bind_text 1 order_index) _ (
        Ensures-ask db inspection reports start index_table _
          (λ row. row ≡ (shape start).order_table)
          (λ d h. (
            (order_table_found d).0,
            λ row e. (order_table_found d).1 row e ∙ ap (λ (s : Shape). s.order_table) h.2,
          ))
          table_row))

  index_row :
      (found : Option Index)
      → ((i : Index) → found ≡ some i → find_index (shape start).indexes ≡ some i)
      → Shows db inspection reports start
          (elim found as (λ _. Action D (Unit {0})) [
            | none ↦ fail
            | some i ↦ require (is_plain_index i)
          ])
          (λ _. IsPlain)
  unfolding is_plain_index
  index_row none known = record { after = λ d h. h.1 }
  index_row (some i) known =
      Ensures-required db inspection reports start (is_plain_index i) (λ fits d h. (
        h,
        (
          i,
          known i refl,
          ground (arith, fits),
          ground (arith, fits),
          bytes_eq→eq i.origin (codes "c") (ground (arith, fits)),
        ),
      ))

  Shows-validate_index_kind :
      Shows db inspection reports start (validate_index_kind db inspection) (λ _. IsPlain)
  unfolding validate_index_kind
  Shows-validate_index_kind = Ensures-call db inspection reports start _ _ (
      Ensures-rows db inspection reports start index_list _ (Lists (shape start).indexes)
        (λ d h. (
          (indexes_listed d).0,
          subst (λ (s : Shape). Lists s.indexes (index_list d).0) h.2 (indexes_listed d).1,
        ))
        (λ (rows, done) (_, rest, e).
          index_row (find_index rows) (λ i f. ap find_index e ∙ find_index-append rows rest i f)))

  abbrev IsOrdered : Type 0
  IsOrdered =
      ((shape start).order_table ≡ some events_table)
      × IsPlain
      × ((shape start).order_columns ≡ codes "ordinal" ∷ [])

  Shows-index_columns :
      Shows db inspection reports start
        (try (call (prepare (codes "PRAGMA index_info(idx_events_order);")))
          >> (rows_of db inspection index_info >>= λ (columns, done).
              require (done && are_just (codes "ordinal") columns)))
        (λ _. (shape start).order_columns ≡ codes "ordinal" ∷ [])
  Shows-index_columns = Ensures-call db inspection reports start _ _ (
      Ensures-rows db inspection reports start index_info _ (Lists (shape start).order_columns)
        (λ d h. (
          (order_columns_listed d).0,
          subst (λ (s : Shape). Lists s.order_columns (index_info d).0) h.2
              (order_columns_listed d).1,
        ))
        (λ (columns, done) (all, _, _).
          Ensures-required db inspection reports start (done && are_just (codes "ordinal") columns)
            (λ fits d h. (
              h,
              sym (all (ground (arith, fits)))
                  ∙ are_just_lem (codes "ordinal") columns (ground (arith, fits)),
            ))))

  Shows-validate_order_index :
      Shows db inspection reports start (validate_order_index db inspection) (λ _. IsOrdered)
  unfolding validate_order_index
  Shows-validate_order_index =
      Ensures-then db inspection reports start (validate_index_table db inspection) _
        Shows-validate_index_table
        (λ on_events.
          Ensures-then db inspection reports start (validate_index_kind db inspection) _
            Shows-validate_index_kind
            (λ plain. weaken (λ last. (on_events, plain, last)) Shows-index_columns))

  Shows-validate_events_shape :
      Shows db inspection reports start (validate_events_shape db inspection) (λ _.
        (map described ((shape start).columns events_table) ≡ map described events_columns)
        × IsChecked db inspection reports start
        × IsOrdered)
  unfolding validate_events_shape
  Shows-validate_events_shape =
      Ensures-then db inspection reports start
        (validate_columns db inspection events_table events_columns) _
        (Shows-validate_columns db inspection reports start events_table events_columns)
        (λ events.
          Ensures-then db inspection reports start (validate_events_check db inspection) _
            (Shows-validate_events_check db inspection reports start)
            (λ checked. weaken (λ last. (events, checked, last)) Shows-validate_order_index))

  is_version-HasVersion :
      (version : Option ℕ)
      → HasVersion db inspection reports start version
      → is_version version ≡ true
      → (raw : Bytes) × (value_of version_key (committed start).meta ≡ some raw)
        × (parse_schema_version raw ≡ some 3)
  unfolding is_version
  is_version-HasVersion none h v = ground (arith, v)
  is_version-HasVersion (some version) (raw, found, parse) v =
      (raw, found, parse ∙ ap some ((==_iff version 3).0 v))

  -- accept_schema succeeds on a schema of version 3 only, and changes nothing.
  pub Shows-accept_schema :
      Shows db inspection reports start
        (accept_schema db inspection)
        (λ _. IsSchema (shape start) (committed start))
  unfolding accept_schema
  Shows-accept_schema =
      Ensures-then db inspection reports start
        (validate_columns db inspection meta_table meta_columns) _
        (Shows-validate_columns db inspection reports start meta_table meta_columns)
        (λ meta.
          Ensures-known db inspection reports start (read_schema_version db inspection) _
            (HasVersion db inspection reports start)
            (Shows-read_schema_version db inspection reports start)
            (λ version has.
              Ensures-require db inspection reports start (is_version version) _ (λ three.
                Ensures-known db inspection reports start (table_exists db inspection events_table)
                  _ (λ b. b ≡ contains (committed start).objects.tables events_table)
                  (Shows-table_exists db inspection reports start events_table)
                  (λ found there. Ensures-require db inspection reports start found _ (λ yes_there.
                    weaken
                      (λ (events, checked, (on_events, plain, on_ordinal)). record {
                        meta = meta;
                        version = is_version-HasVersion version has three;
                        has_events = sym there ∙ yes_there;
                        events = events;
                        checked = checked;
                        on_events = on_events;
                        plain = plain;
                        on_ordinal = on_ordinal;
                      })
                      Shows-validate_events_shape)))))
