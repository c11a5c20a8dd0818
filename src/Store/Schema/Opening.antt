-- ===== src/Store/Schema/Opening.antt =====
-- What opening a store (src/sqlite_store.cpp) accepts, and what it leaves in the file.
pub mod Accepting
pub mod Ordering
pub mod Creating
pub mod Opens
use player_trace_sdk.Base.{
  ℕ, ◌≡◌, refl, sym, ap, ◌∙◌, inl, inr, Bool, true, false, not, List, [], ◌∷◌, ◌++◌, Option, none,
  some, Bool-cases, codes, arith, if◌then◌else◌,
}
use player_trace_sdk.Types.{Bytes}
use player_trace_sdk.Validator.Keys.{contains}
use player_trace_sdk.Store.Action.{
  Action, ◌>>=◌, ◌>>◌, return, fail, try, Ends, Ensures, Ensures->>=,
}
use player_trace_sdk.Store.Sqlite.{Sqlite, Tables, Call}
use player_trace_sdk.Store.Reads.{Unmoved}
use player_trace_sdk.Store.Schema.{ColumnSpec, Index, Inspection, version_key}
use player_trace_sdk.Store.Schema.Inspect.{require, rows_of}
use player_trace_sdk.Store.Schema.Accepted.{Shape, value_of}

-- A read changes nothing of the file.
abbrev pub Still : {D : Type 0} → Sqlite D → (D → Shape) → D → D → Type 0
Still db shape d d' = Unmoved db d d' × (shape d' ≡ shape d)

-- The rows that came, of those there are: all of them, if SQLITE_DONE came last.
abbrev pub Lists : {A : Type 0} → List A → List A × Bool → Type 0
Lists {A} value (rows, done) =
    (done ≡ true → rows ≡ value) × (rest : List A) × (value ≡ rows ++ rest)

-- sqlite_master and the pragmas report the schema of the file, and change nothing; a file opens in
-- autocommit mode.
pub record Reports {D : Type 0} (db : Sqlite D) (inspection : Inspection D) : Type 0 where
  pub shape : D → Shape
  pub call_keeps : (c : Call) (d : D) → shape (Sqlite.call db c d).1 ≡ shape d
  pub opened :
      (d : D)
      → (Inspection.open_file inspection d).0 ≡ true
      → (Sqlite.autocommit db (Inspection.open_file inspection d).1 ≡ true)
        × (Sqlite.committed db (Inspection.open_file inspection d).1 ≡ Sqlite.committed db d)
        × (shape (Inspection.open_file inspection d).1 ≡ shape d)
  pub not_opened :
      (d : D)
      → (Inspection.open_file inspection d).0 ≡ false
      → Sqlite.committed db (Inspection.open_file inspection d).1 ≡ Sqlite.committed db d
  pub closed :
      (d : D) → Sqlite.committed db (Inspection.close_file inspection d) ≡ Sqlite.committed db d
  pub table_found :
      (name : Bytes) (d : D)
      → Still db shape d (Inspection.find_table inspection name d).1
        × ((b : Bool)
            → (Inspection.find_table inspection name d).0 ≡ some b
            → b ≡ contains (Sqlite.current db d).objects.tables name)
  pub version_found :
      (d : D)
      → Still db shape d (Inspection.find_version inspection d).1
        × ((row : Option Bytes)
            → (Inspection.find_version inspection d).0 ≡ some row
            → row ≡ value_of version_key (Sqlite.current db d).meta)
  pub columns_listed :
      (table : Bytes) (d : D)
      → Still db shape d (Inspection.table_info inspection table d).1
        × Lists ((shape d).columns table) (Inspection.table_info inspection table d).0
  pub events_text_found :
      (d : D)
      → Still db shape d (Inspection.events_sql inspection d).1
        × ((row : Option Bytes)
            → (Inspection.events_sql inspection d).0 ≡ some row
            → row ≡ (shape d).events_text)
  pub order_table_found :
      (d : D)
      → Still db shape d (Inspection.index_table inspection d).1
        × ((row : Option Bytes)
            → (Inspection.index_table inspection d).0 ≡ some row
            → row ≡ (shape d).order_table)
  pub indexes_listed :
      (d : D)
      → Still db shape d (Inspection.index_list inspection d).1
        × Lists (shape d).indexes (Inspection.index_list inspection d).0
  pub order_columns_listed :
      (d : D)
      → Still db shape d (Inspection.index_info inspection d).1
        × Lists (shape d).order_columns (Inspection.index_info inspection d).0
  pub journal_quiet : (d : D) → Still db shape d (Inspection.journal_mode inspection d).1
  pub pragma_quiet : (sql : Bytes) (d : D) → Still db shape d (Inspection.pragma inspection sql d).1

-- Rules for the reads of a file that is as `start` found it.
module _ {D : Type 0} (db : Sqlite D) (inspection : Inspection D) (reports : Reports db inspection)
    (start : D) where
  open db use {call, autocommit, committed, current, idle, quiet}
  open reports use {shape, call_keeps}

  -- No transaction is open, and the file is as it was.
  abbrev pub Stays : D → Type 0
  Stays d = (autocommit d ≡ true) × (committed d ≡ committed start) × (shape d ≡ shape start)

  -- What is committed is as it was.
  abbrev pub Kept : D → Type 0
  Kept d = committed d ≡ committed start

  pub Still-Stays : (d d' : D) → Still db shape d d' → Stays d → Stays d'
  Still-Stays d d' ((a, c, e), s) (out, k, h) = (a ∙ out, c ∙ k, s ∙ h)

  answered :
      {A B : Type 0} (f : A → Action D B) (P : A → Type 0) (post : B → D → Type 0) (r : Option A)
      (d : D)
      → Stays d
      → ((a : A) → r ≡ some a → P a)
      → ((a : A) → P a → Ensures Kept Stays (f a) post)
      → Ends Kept post (((λ (_ : D). (r, d)) >>= f) d).0 (((λ (_ : D). (r, d)) >>= f) d).1
  answered f P post none d h p k = h.1
  answered f P post (some a) d h p k = (k a (p a refl)).after d h

  -- A query whose answer is about the file, and what comes after it.
  pub Ensures-ask :
      {A B : Type 0} (q : D → Option A × D) (f : A → Action D B) (P : A → Type 0)
      {post : B → D → Type 0}
      → ((d : D) → Stays d → Still db shape d (q d).1 × ((a : A) → (q d).0 ≡ some a → P a))
      → ((a : A) → P a → Ensures Kept Stays (f a) post)
      → Ensures Kept Stays (q >>= f) post
  Ensures-ask q f P {post} truth k = record {
    after = λ d h.
        answered f P post (q d).0 (q d).1 (Still-Stays d (q d).1 (truth d h).0 h) (truth d h).1 k;
  }

  pub Ensures-rows :
      {A B : Type 0} (q : D → A × D) (f : A → Action D B) (P : A → Type 0) {post : B → D → Type 0}
      → ((d : D) → Stays d → Still db shape d (q d).1 × P (q d).0)
      → ((a : A) → P a → Ensures Kept Stays (f a) post)
      → Ensures Kept Stays (rows_of db inspection q >>= f) post
  Ensures-rows q f P truth k = record {
    after = λ d h. (k (q d).0 (truth d h).1).after (q d).1 (Still-Stays d (q d).1 (truth d h).0 h);
  }

  called :
      {A : Type 0} (m : Action D A) (post : A → D → Type 0) (good : Bool) (d : D)
      → Stays d
      → Ensures Kept Stays m post
      → Ends Kept post
          (((λ (_ : D). (if good then some tt else none, d)) >>= (λ (_ : Unit {0}). m)) d).0
          (((λ (_ : D). (if good then some tt else none, d)) >>= (λ (_ : Unit {0}). m)) d).1
  called m post true d h k = k.after d h
  called m post false d h k = h.1

  pub Ensures-call :
      {A : Type 0} (c : Call) (m : Action D A) {post : A → D → Type 0}
      → Ensures Kept Stays m post
      → Ensures Kept Stays (try (call c) >> m) post
  Ensures-call c m {post} k = record {
    after = λ d h.
        called m post (call c d).0 (call c d).1
          (Still-Stays d (call c d).1 (quiet c d, call_keeps c d) h) k;
  }

  -- A test that refuses.
  pub Ensures-require :
      {A : Type 0} (b : Bool) (m : Action D A) {post : A → D → Type 0}
      → (b ≡ true → Ensures Kept Stays m post)
      → Ensures Kept Stays (require b >> m) post
  Ensures-require true m k = record { after = λ d h. (k refl).after d h }
  Ensures-require false m k = record { after = λ d h. h.1 }

  pub Ensures-required :
      (b : Bool) {post : D → Type 0}
      → (b ≡ true → (d : D) → Stays d → post d)
      → Ensures Kept Stays (require b) (λ _. post)
  Ensures-required true k = record { after = λ d h. k refl d h }
  Ensures-required false k = record { after = λ d h. h.1 }

  pub Ensures-fail : {A : Type 0} {post : A → D → Type 0} → Ensures Kept Stays (fail) post
  Ensures-fail = record { after = λ d h. h.1 }

  -- An action that shows something, and what comes after it.
  pub Ensures-known :
      {A B : Type 0} (m : Action D A) (f : A → Action D B) (P : A → Type 0) {post : B → D → Type 0}
      → Ensures Kept Stays m (λ a d. Stays d × P a)
      → ((a : A) → P a → Ensures Kept Stays (f a) post)
      → Ensures Kept Stays (m >>= f) post
  Ensures-known m f P h k =
      Ensures->>= m f (λ a d. Stays d × P a) h
        (λ a. record { after = λ d (s, p). (k a p).after d s })

  -- Inside of the file as it was, the view of the connection is what is committed.
  pub view : (d : D) → Stays d → current d ≡ committed start
  view d (out, c, s) = idle d out ∙ c

  told :
      {A : Type 0} (P : A → Type 0) (r : Option A) (d : D)
      → Stays d
      → ((a : A) → r ≡ some a → P a)
      → Ends Kept (λ a x. Stays x × P a) r d
  told P none d h p = h.1
  told P (some a) d h p = (h, p a refl)

  -- The same, where the query comes last.
  pub Ensures-asked :
      {A : Type 0} (q : D → Option A × D) (P : A → Type 0)
      → ((d : D) → Stays d → Still db shape d (q d).1 × ((a : A) → (q d).0 ≡ some a → P a))
      → Ensures Kept Stays q (λ a d. Stays d × P a)
  Ensures-asked q P truth = record {
    after = λ d h. told P (q d).0 (q d).1 (Still-Stays d (q d).1 (truth d h).0 h) (truth d h).1;
  }

  pub Ensures-then :
      {A B : Type 0} (m : Action D A) (k : Action D B) {P : Type 0} {post : B → D → Type 0}
      → Ensures Kept Stays m (λ _ d. Stays d × P)
      → (P → Ensures Kept Stays k post)
      → Ensures Kept Stays (m >> k) post
  Ensures-then m k {P} h f = Ensures-known m (λ _. k) (λ _. P) h (λ _ p. f p)
