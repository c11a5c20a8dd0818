-- ===== src/Store/Durable/Events.antt =====
-- The store of src/sqlite_store.cpp as what the worker uses: each law of the interface, of the methods
-- over SQLite.
use player_trace_sdk.Base.{
  ℕ, suc, ◌≡◌, ◌≢◌, ◌≤◌, ◌+◌, refl, ap, true, false, not, List, [], ◌∷◌, length, map, Option, none,
  some, inl, inr, Bool-cases, ◌==◌, ==_iff, arith, if◌then◌else◌,
}
use player_trace_sdk.Types.{ok, Bytes}
use player_trace_sdk.Store.Action.{◌>>=◌, return, fail}
use player_trace_sdk.Store.Interface.{EventStore, StoredRecord, rows_up_to, insert_or_ignore}
use player_trace_sdk.Store.Sqlite.{Sqlite, Tables, Row}
use player_trace_sdk.Store.Transactions.{insert, acknowledge, delete_ids}
use player_trace_sdk.Store.Transactions.Atomic.{Result}
use player_trace_sdk.Store.Transactions.Methods.{records_of, Inserts, insert-IsAtomic}
use player_trace_sdk.Store.Transactions.Deletes.{Deletes, remove_ids, delete_ids-IsAtomic}
use player_trace_sdk.Store.Reads.{Queries, count, count_up_to, fetch_pending}
use player_trace_sdk.Store.Reads.Scalars.{Seen, reads_lem}
use player_trace_sdk.Store.Reads.Released.{fetch_pending-Releases}
use player_trace_sdk.Store.Durable.{status_of, rows, durable}

-- The value that a count stores for its caller, who looks at it after a success only.
abbrev pub value_of : Option ℕ → ℕ
value_of none = 0
value_of (some n) = n

abbrev pub stored_of : Row → StoredRecord
stored_of r = r.stored

pub as_many : (table : List Row) → length (map stored_of table) ≡ length table
as_many [] = refl
as_many (r ∷ table) = ap suc (as_many table)

module _ {D : Type 0} (db : Sqlite D) where
  open db use {committed, autocommit}

  pub inserted :
      {A : Type 0} (records : List StoredRecord) (d : D) (r : Option A) (d' : D)
      → Result db (Inserts records) d r d'
      → (status_of r ≡ ok → rows db d' ≡ insert_or_ignore records (rows db d))
        × (status_of r ≢ ok → rows db d' ≡ rows db d)
  unfolding status_of
  inserted records d none d' h = (λ e. absurd (ground (arith, e)), λ e. ap records_of h)
  inserted records d (some a) d' (e, _, _) = (λ _. e, λ n. absurd (n refl))

  -- With the rows that are left after an acknowledgment.
  abbrev pub Acknowledged : List Bytes → D → Option ℕ → D → Type 0
  Acknowledged ids d r d' =
      (status_of r ≡ ok → length ids + length (rows db d') ≤ length (rows db d))
      × (status_of r ≢ ok → length (rows db d') ≤ length (rows db d))

  compared :
      (ids : List Bytes) (d : D) (r : Option ℕ) (d' : D)
      → Result db (Deletes (remove_ids ids) 0) d r d'
      → Acknowledged ids d
          (((λ _. (r, d')) >>= λ n. (if not (n == length ids) then fail else return n)) d).0
          (((λ _. (r, d')) >>= λ n. (if not (n == length ids) then fail else return n)) d).1
  unfolding status_of
  compared ids d none d' same =
      let l = ap (λ (t : Tables). length (records_of t)) same in
      (λ e. absurd (ground (arith, e)), λ e. omega (arith, l))
  compared ids d (some n) d' (_, _, _, fewer) =
      let before = as_many (committed d).events in
      let after = as_many (committed d').events in
      elim (Bool-cases (n == length ids)) [
        | inl b ↦
            let k = (==_iff n (length ids)).0 b in
            rw b (λ _. omega (arith, before, after, fewer, k), λ e. absurd (e refl))
        | inr b ↦ rw b (λ e. absurd (ground (arith, e)), λ _. omega (arith, before, after, fewer))
      ]

  pub acknowledge-Acknowledged :
      (ids : List Bytes) (d : D)
      → Acknowledged ids d (acknowledge db ids d).0 (acknowledge db ids d).1
  unfolding acknowledge
  acknowledge-Acknowledged ids d =
      compared ids d (delete_ids db ids d).0 (delete_ids db ids d).1 (delete_ids-IsAtomic db ids d)

  pub counts_up_to :
      (barrier : ℕ) (d : D) (r : Option ℕ) (d' : D)
      → Seen db (λ t. rows_up_to barrier (records_of t)) d r d'
      → status_of r ≡ ok
      → value_of r ≡ rows_up_to barrier (rows db d)
  unfolding status_of
  counts_up_to barrier d none d' h e = absurd (ground (arith, e))
  counts_up_to barrier d (some n) d' (_, v) e = v

  pub outside : (d : D) → not (autocommit d) ≡ false → autocommit d ≡ true
  outside d h = ground (arith, h)

  module _ (queries : Queries db) where
    -- The interface of the worker, filled with the methods of the store over SQLite.
    abbrev pub durable_events : EventStore D
    durable_events = record {
      revocation = durable db;
      insert = λ records d. let (r, d') = insert db records d in (status_of r, d');
      fetch_pending = fetch_pending db queries;
      acknowledge = λ ids d. let (r, d') = acknowledge db ids d in (status_of r, d');
      count = λ d. let r = (count db queries d).0 in (status_of r, value_of r);
      count_up_to =
          λ barrier d. let r = (count_up_to db queries barrier d).0 in (status_of r, value_of r);
      in_transaction = λ d. not (autocommit d);
      insert_ok = λ records d.
          (inserted records d (insert db records d).0 (insert db records d).1
            (insert-IsAtomic db records d)).0;
      insert_failed = λ records d.
          (inserted records d (insert db records d).0 (insert db records d).1
            (insert-IsAtomic db records d)).1;
      fetched = λ limit d.
          let fewer = fetch_pending-Releases db queries limit d in
          let before = as_many (committed d).events in
          let after = as_many (committed (fetch_pending db queries limit d).1).events in
          omega (arith, fewer, before, after);
      acknowledged = λ ids d. (acknowledge-Acknowledged ids d).0;
      not_acknowledged = λ ids d. (acknowledge-Acknowledged ids d).1;
      counted_up_to = λ barrier d out.
          counts_up_to barrier d (count_up_to db queries barrier d).0
            (count_up_to db queries barrier d).1
            ((reads_lem db queries barrier).1 d (outside d out));
    }
