-- ===== src/Store/Schema/Opening/Accepting.antt =====
-- The checks of a schema that is there: table_exists, read_schema_version, the columns of a table
-- and validate_events_check of src/sqlite_store.cpp.
use player_trace_sdk.Base.{
  ℕ, ◌≡◌, ◌⊎◌, refl, sym, ap, ◌∙◌, ◌&&◌, List, map, Option, none, some, codes, arith, subst,
}
use player_trace_sdk.Types.{Bytes}
use player_trace_sdk.Validator.Keys.{contains}
use player_trace_sdk.Store.Action.{Action, return, fail, Ensures}
use player_trace_sdk.Store.Sqlite.{Sqlite, Tables, bind_text}
use player_trace_sdk.Store.SqlText.{strip_sql_noise, check_expressions, parse_schema_version}
use player_trace_sdk.Store.Schema.{ColumnSpec, Inspection, version_key, are_columns, is_satisfied}
use player_trace_sdk.Store.Schema.Inspect.{
  require, table_exists, read_schema_version, validate_columns, validate_events_check,
}
use player_trace_sdk.Store.Schema.Accepted.{
  Shape, described, value_of, IsIn, are_columns-described, is_satisfied-IsIn,
}
use player_trace_sdk.Store.Schema.Opening.{
  Lists, Reports, Stays, Kept, Ensures-ask, Ensures-rows, Ensures-call, Ensures-required, view,
  Ensures-asked,
}

module _ {D : Type 0} (db : Sqlite D) (inspection : Inspection D) (reports : Reports db inspection)
    (start : D) where
  open db use {call, committed, current}
  open inspection use {
    find_table, find_version, table_info, events_sql, index_table, index_list, index_info,
  }
  open reports use {
    shape, table_found, version_found, columns_listed, events_text_found, order_table_found,
    indexes_listed, order_columns_listed,
  }

  -- The action succeeds only where `P` holds, and changes nothing.
  abbrev pub Shows : {A : Type 0} → Action D A → (A → Type 0) → Type 0
  Shows m P =
      Ensures (Kept db inspection reports start) (Stays db inspection reports start) m
        (λ a d. Stays db inspection reports start d × P a)

  pub Shows-table_exists :
      (name : Bytes)
      → Shows
          (table_exists db inspection name)
          (λ b. b ≡ contains (committed start).objects.tables name)
  unfolding table_exists
  Shows-table_exists name = Ensures-call db inspection reports start _ _ (
      Ensures-call db inspection reports start (bind_text 1 name) (find_table name) (
        Ensures-asked db inspection reports start (find_table name)
          (λ b. b ≡ contains (committed start).objects.tables name)
          (λ d h. (
            (table_found name d).0,
            λ b e.
                (table_found name d).1 b e
                ∙ ap (λ (t : Tables). contains t.objects.tables name)
                    (view db inspection reports start d h),
          ))))

  -- What read_schema_version finds.
  abbrev pub HasVersion : Option ℕ → Type 0
  HasVersion none = Unit
  HasVersion (some version) =
      (raw : Bytes) × (value_of version_key (committed start).meta ≡ some raw)
      × (parse_schema_version raw ≡ some version)

  parsed :
      (raw : Bytes) (version : Option ℕ)
      → some raw ≡ value_of version_key (committed start).meta
      → parse_schema_version raw ≡ version
      → Shows
          (elim version as (λ _. Action D (Option ℕ)) [
            | none ↦ fail
            | some version ↦ return (some version)
          ])
          HasVersion
  parsed raw none found p = record { after = λ d h. h.1 }
  parsed raw (some version) found p = record { after = λ d h. (h, (raw, sym found, p)) }

  read_row :
      (row : Option Bytes)
      → row ≡ value_of version_key (committed start).meta
      → Shows
          (elim row as (λ _. Action D (Option ℕ)) [
            | none ↦ return none
            | some raw ↦ elim (parse_schema_version raw) as (λ _. Action D (Option ℕ)) [
              | none ↦ fail
              | some version ↦ return (some version)
            ]
          ])
          HasVersion
  read_row none found = record { after = λ d h. (h, tt) }
  read_row (some raw) found = parsed raw (parse_schema_version raw) found refl

  pub Shows-read_schema_version : Shows (read_schema_version db inspection) HasVersion
  unfolding read_schema_version
  Shows-read_schema_version = Ensures-call db inspection reports start _ _ (
      Ensures-ask db inspection reports start find_version _
        (λ row. row ≡ value_of version_key (committed start).meta)
        (λ d h. (
          (version_found d).0,
          λ row e.
              (version_found d).1 row e
              ∙ ap (λ (t : Tables). value_of version_key t.meta)
                  (view db inspection reports start d h),
        ))
        read_row)

  pub Shows-validate_columns :
      (table : Bytes) (want : List ColumnSpec)
      → Shows
          (validate_columns db inspection table want)
          (λ _. map described ((shape start).columns table) ≡ map described want)
  unfolding validate_columns
  Shows-validate_columns table want = Ensures-call db inspection reports start _ _ (
      Ensures-rows db inspection reports start (table_info table) _
        (Lists ((shape start).columns table))
        (λ d h. (
          (columns_listed table d).0,
          subst (λ (s : Shape). Lists (s.columns table) (table_info table d).0) h.2
              (columns_listed table d).1,
        ))
        (λ (rows, done) (all, _, _).
          Ensures-required db inspection reports start (are_columns want rows && done) (λ fits d h.
            (
              h,
              ap (map described) (sym (all (ground (arith, fits))))
                  ∙ are_columns-described want rows (ground (arith, fits)),
            ))))

  -- The clause of IsSchema on the CHECK.
  abbrev pub IsChecked : Type 0
  IsChecked =
      (ddl : Bytes) × (e : Bytes) × ((shape start).events_text ≡ some ddl)
      × IsIn e (check_expressions (strip_sql_noise ddl))
      × ((e ≡ codes "length(event_id)>0") ⊎ (e ≡ codes "0<length(event_id)"))

  check_row :
      (row : Option Bytes)
      → row ≡ (shape start).events_text
      → Shows
          (elim row as (λ _. Action D (Unit {0})) [
            | none ↦ fail
            | some ddl ↦ require (is_satisfied (check_expressions (strip_sql_noise ddl)))
          ])
          (λ _. IsChecked)
  check_row none found = record { after = λ d h. h.1 }
  check_row (some ddl) found =
      Ensures-required db inspection reports start
        (is_satisfied (check_expressions (strip_sql_noise ddl)))
        (λ fits d h.
          let (e, i, k) = is_satisfied-IsIn (check_expressions (strip_sql_noise ddl)) fits in
          (h, (ddl, e, sym found, i, k)))

  pub Shows-validate_events_check : Shows (validate_events_check db inspection) (λ _. IsChecked)
  unfolding validate_events_check
  Shows-validate_events_check = Ensures-call db inspection reports start _ _ (
      Ensures-ask db inspection reports start events_sql _ (λ row. row ≡ (shape start).events_text)
        (λ d h. (
          (events_text_found d).0,
          λ row e. (events_text_found d).1 row e ∙ ap (λ (s : Shape). s.events_text) h.2,
        ))
        check_row)
