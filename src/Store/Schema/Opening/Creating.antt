-- ===== src/Store/Schema/Opening/Creating.antt =====
-- The creation of a schema, and the file that is closed again: create_schema and open of
-- src/sqlite_store.cpp.
use player_trace_sdk.Base.{
  ◌≡◌, ◌⊎◌, sym, ap, ◌∙◌, inl, inr, Bool, true, false, not, ◌∷◌, Option, none, some, codes, arith,
  if◌then◌else◌, subst,
}
use player_trace_sdk.Validator.Keys.{contains}
use player_trace_sdk.Store.Action.{try, Ends, Ensures, Ensures-weaken}
use player_trace_sdk.Store.Sqlite.{
  Sqlite, add_object, Tables, change, create_table, create_index, insert_meta, effect,
}
use player_trace_sdk.Store.Transactions.{transaction}
use player_trace_sdk.Store.Transactions.Rules.{Post, Runs, Runs->>=, Runs-weaken, Runs-change}
use player_trace_sdk.Store.Transactions.Atomic.{
  Result, Ended, transaction-IsAtomic, transaction-Ended,
}
use player_trace_sdk.Store.Schema.{Inspection, order_index, events_table, meta_table, version_key}
use player_trace_sdk.Store.Schema.Inspect.{
  table_exists, accept_schema, create_tables, create_schema, inspect_and_prepare_schema, or_close,
}
use player_trace_sdk.Store.Schema.Accepted.{IsSchema}
use player_trace_sdk.Store.Schema.Opening.{Reports, Stays, Kept, Ensures-require, Ensures-known}
use player_trace_sdk.Store.Schema.Opening.Accepting.{Shows-table_exists}
use player_trace_sdk.Store.Schema.Opening.Ordering.{Shows-accept_schema}

-- The two tables are there, the index is unless one of that name was, and the version is written.
abbrev pub IsCreated : {A : Type 0} → Post A
IsCreated a t t' =
    (t'.objects.tables ≡ add_object events_table (add_object meta_table t.objects.tables))
    × (t'.objects.indexes ≡ add_object order_index t.objects.indexes)
    × (t'.meta ≡ (version_key, codes "3") ∷ t.meta)
    × (t'.events ≡ t.events)

module _ {D : Type 0} (db : Sqlite D) (inspection : Inspection D) where
  open db use {exec, committed}

  Runs-create_tables : Runs db (create_tables db inspection) IsCreated
  unfolding create_tables effect
  Runs-create_tables =
      Runs-weaken db
        (Runs->>= db (try (exec (change (create_table meta_table)))) _
          (Runs-change db (create_table meta_table))
          (λ _.
            Runs->>= db (try (exec (change (create_table events_table)))) _
              (Runs-change db (create_table events_table))
              (λ _.
                Runs->>= db (try (exec (change (create_index order_index)))) _
                  (Runs-change db (create_index order_index))
                  (λ _. Runs-change db (insert_meta version_key (codes "3"))))))
        (λ a t t4 (_, t1, (r1, e1), (_, t2, (r2, e2), (_, t3, (r3, e3), (r4, e4)))).
          let whole =
            e4
            ∙ ap (effect r4 (insert_meta version_key (codes "3"))) (
                e3
                ∙ ap (effect r3 (create_index order_index))
                    (e2 ∙ ap (effect r2 (create_table events_table)) e1)) in
          (
            ap (λ (x : Tables). x.objects.tables) whole,
            ap (λ (x : Tables). x.objects.indexes) whole,
            ap (λ (x : Tables). x.meta) whole,
            ap (λ (x : Tables). x.events) whole,
          ))

  module _ (reports : Reports db inspection) (start : D) where
    open db use {autocommit, current, quiet, call}
    open inspection use {open_file, close_file, journal_mode, pragma}
    open reports use {shape, call_keeps, opened, not_opened, closed, journal_quiet, pragma_quiet}

    -- Neither of the two tables was there, and now they are, with an index of the name and the version.
    abbrev pub IsNew : D → Type 0
    IsNew d =
        (contains (committed start).objects.tables meta_table ≡ false)
        × (contains (committed start).objects.tables events_table ≡ false)
        × IsCreated tt (committed start) (committed d)

    -- A schema of version 3 was there, and the file is as it was.
    abbrev pub IsKnown : D → Type 0
    IsKnown d =
        (contains (committed start).objects.tables meta_table ≡ true)
        × IsSchema (shape start) (committed start)
        × (committed d ≡ committed start)

    abbrev pub IsOpen : D → Type 0
    IsOpen d = (autocommit d ≡ true) × (IsKnown d ⊎ IsNew d)

    made :
        (r : Option (Unit {0})) (d d' : D)
        → Stays db inspection reports start d
        → contains (committed start).objects.tables meta_table ≡ false
        → contains (committed start).objects.tables events_table ≡ false
        → Result db IsCreated d r d'
        → Ended db r d'
        → Ends (Kept db inspection reports start) (λ _. IsOpen) r d'
    made none d d' (out, c, s) no_meta no_events h e = h ∙ c
    made (some _) d d' (out, c, s) no_meta no_events h e =
        (e, inr (no_meta, no_events, subst (λ (t : Tables). IsCreated tt t (committed d')) c h))

    Ensures-create_schema :
        contains (committed start).objects.tables meta_table ≡ false
        → Ensures
            (Kept db inspection reports start)
            (Stays db inspection reports start)
            (create_schema db inspection)
            (λ _. IsOpen)
    unfolding create_schema
    Ensures-create_schema no_meta =
        Ensures-known db inspection reports start (table_exists db inspection events_table) _
          (λ b. b ≡ contains (committed start).objects.tables events_table)
          (Shows-table_exists db inspection reports start events_table)
          (λ found there. Ensures-require db inspection reports start (not found) _ (λ absent.
            record {
              after = λ d h.
                  let m = transaction db (create_tables db inspection) in
                  made (m d).0 d (m d).1 h no_meta (sym there ∙ ground (arith, absent))
                    (transaction-IsAtomic db (create_tables db inspection) IsCreated
                      Runs-create_tables d)
                    (transaction-Ended db (create_tables db inspection) IsCreated Runs-create_tables
                      d);
            }))

    branch :
        (found : Bool)
        → found ≡ contains (committed start).objects.tables meta_table
        → Ensures
            (Kept db inspection reports start)
            (Stays db inspection reports start)
            (if found then accept_schema db inspection else create_schema db inspection)
            (λ _. IsOpen)
    branch true there =
        Ensures-weaken (λ d b. b) (λ a d ((out, c, s), schema). (out, inl (sym there, schema, c)))
          (Shows-accept_schema db inspection reports start)
    branch false there = Ensures-create_schema (sym there)

    Ensures-inspect :
        Ensures
          (Kept db inspection reports start)
          (Stays db inspection reports start)
          (inspect_and_prepare_schema db inspection)
          (λ _. IsOpen)
    unfolding inspect_and_prepare_schema
    Ensures-inspect =
        Ensures-known db inspection reports start (table_exists db inspection meta_table) _
          (λ b. b ≡ contains (committed start).objects.tables meta_table)
          (Shows-table_exists db inspection reports start meta_table) branch

    -- As it was, or with a new schema.
    abbrev pub IsLeft : D → Type 0
    IsLeft d = Kept db inspection reports start d ⊎ IsNew d

    closing :
        (r : Option (Unit {0})) (d : D)
        → Ends (Kept db inspection reports start) (λ _. IsOpen) r d
        → Ends IsLeft
            (λ _. IsOpen)
            (or_close db inspection (λ (_ : D). (r, d)) start).0
            (or_close db inspection (λ (_ : D). (r, d)) start).1
    unfolding or_close
    closing none d h = inl (closed d ∙ h)
    closing (some _) d h = h

    pub Ensures-or_close :
        Ensures IsLeft
          (Stays db inspection reports start)
          (or_close db inspection (inspect_and_prepare_schema db inspection))
          (λ _. IsOpen)
    unfolding or_close
    Ensures-or_close = record {
      after = λ d h.
          let m = inspect_and_prepare_schema db inspection in
          closing (m d).0 (m d).1 (Ensures-inspect.after d h);
    }
