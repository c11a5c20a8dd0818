-- ===== src/Store/Schema/Accepted.antt =====
-- The schema that src/sqlite_store.cpp defines, stated of what SQLite reports, and the tests of its
-- validate functions against it.
use player_trace_sdk.Base.{
  ℕ, ◌≡◌, ◌⊎◌, refl, ap, inl, inr, Bool, true, List, [], ◌∷◌, ◌++◌, map, Option, none, some,
  Bool-cases, bytes_eq, bytes_eq→eq, ◌==◌, codes, arith, if◌then◌else◌,
}
use player_trace_sdk.Types.{Bytes}
use player_trace_sdk.Validator.Keys.{contains}
use player_trace_sdk.Store.Sqlite.{Tables}
use player_trace_sdk.Store.SqlText.{strip_sql_noise, check_expressions, parse_schema_version}
use player_trace_sdk.Store.Schema.{
  ColumnSpec, Index, events_columns, meta_columns, order_index, events_table, meta_table,
  version_key, is_column, are_columns, is_satisfied, find_index, are_just,
}

-- What SQLite reports: the columns of a table, the text of CREATE TABLE events, and the index of the
-- delivery order.
pub record Shape : Type 0 where
  pub columns : Bytes → List ColumnSpec
  pub events_text : Option Bytes
  pub order_table : Option Bytes
  pub indexes : List Index
  pub order_columns : List Bytes

-- A column, as far as it is compared.
abbrev pub described : ColumnSpec → Bytes × Bytes × ℕ × Bool
described c = (c.name, c.declared, c.notnull, c.pk == 0)

-- SELECT value FROM schema_meta WHERE key = ?
unfoldable pub value_of : Bytes → List (Bytes × Bytes) → Option Bytes
value_of key [] = none
value_of key ((k, v) ∷ meta) = if bytes_eq k key then some v else value_of key meta

abbrev pub IsIn : Bytes → List Bytes → Type 0
IsIn e [] = ⊥
IsIn e (x ∷ rest) = (e ≡ x) ⊎ IsIn e rest

-- Version 3, as it is defined.
pub record IsSchema (s : Shape) (t : Tables) : Type 0 where
  pub meta : map described (s.columns meta_table) ≡ map described meta_columns
  pub version :
      (raw : Bytes) × (value_of version_key t.meta ≡ some raw) × (parse_schema_version raw ≡ some 3)
  pub has_events : contains t.objects.tables events_table ≡ true
  pub events : map described (s.columns events_table) ≡ map described events_columns
  pub checked :
      (ddl : Bytes) × (e : Bytes) × (s.events_text ≡ some ddl)
      × IsIn e (check_expressions (strip_sql_noise ddl))
      × ((e ≡ codes "length(event_id)>0") ⊎ (e ≡ codes "0<length(event_id)"))
  pub on_events : s.order_table ≡ some events_table
  pub plain :
      (i : Index) × (find_index s.indexes ≡ some i)
      × (i.partial ≡ 0)
      × (i.unique ≡ 0)
      × (i.origin ≡ codes "c")
  pub on_ordinal : s.order_columns ≡ codes "ordinal" ∷ []

is_column-described : (w c : ColumnSpec) → is_column w c ≡ true → described c ≡ described w
unfolding is_column
is_column-described w c h =
    let n = bytes_eq→eq c.name w.name (ground (arith, h)) in
    let d = bytes_eq→eq c.declared w.declared (ground (arith, h)) in
    let k : c.notnull ≡ w.notnull = ground (arith, h) in
    let p : (c.pk == 0) ≡ (w.pk == 0) = ground (arith, h) in λ i. (n i, d i, k i, p i)

pub are_columns-described :
    (want got : List ColumnSpec)
    → are_columns want got ≡ true
    → map described got ≡ map described want
unfolding are_columns
are_columns-described [] [] h = refl
are_columns-described (w ∷ want) [] h = ground (arith, h)
are_columns-described [] (c ∷ got) h = ground (arith, h)
are_columns-described (w ∷ want) (c ∷ got) h = elim (Bool-cases (is_column w c)) [
  | inl e ↦
      let one = is_column-described w c e in
      let others = are_columns-described want got (ground (arith, h, e)) in λ i. one i ∷ others i
  | inr e ↦ ground (arith, h, e)
]

pub is_satisfied-IsIn :
    (found : List Bytes)
    → is_satisfied found ≡ true
    → (e : Bytes) × IsIn e found
      × ((e ≡ codes "length(event_id)>0") ⊎ (e ≡ codes "0<length(event_id)"))
unfolding is_satisfied
is_satisfied-IsIn [] h = ground (arith, h)
is_satisfied-IsIn (e ∷ rest) h = elim (Bool-cases (bytes_eq e (codes "length(event_id)>0"))) [
  | inl a ↦ (e, inl refl, inl (bytes_eq→eq e (codes "length(event_id)>0") a))
  | inr a ↦ elim (Bool-cases (bytes_eq e (codes "0<length(event_id)"))) [
    | inl b ↦ (e, inl refl, inr (bytes_eq→eq e (codes "0<length(event_id)") b))
    | inr b ↦ let (x, i, k) = is_satisfied-IsIn rest (ground (arith, h, a, b)) in (x, inr i, k)
  ]
]

-- The first rows are enough to find an index.
pub find_index-append :
    (rows rest : List Index) (i : Index)
    → find_index rows ≡ some i
    → find_index (rows ++ rest) ≡ some i
unfolding find_index
find_index-append [] rest i h = ground (arith, h)
find_index-append (r ∷ rows) rest i h = elim (Bool-cases (bytes_eq r.name order_index)) [
  | inl e ↦ ground (arith, h, e)
  | inr e ↦ rw e (find_index-append rows rest i (ground (arith, h, e)))
]

pub are_just_lem :
    (name : Bytes) (columns : List Bytes) → are_just name columns ≡ true → columns ≡ name ∷ []
unfolding are_just
are_just_lem name [] h = ground (arith, h)
are_just_lem name (c ∷ []) h = ap (λ x. x ∷ []) (bytes_eq→eq c name (ground (arith, h)))
are_just_lem name (c ∷ d ∷ rest) h = ground (arith, h)
