-- ===== src/Store/Reads/Fetch.antt =====
-- fetch_pending of src/sqlite_store.cpp.
use player_trace_sdk.Base.{
  ℕ, ◌≡◌, ◌≤◌, ◌<◌, ◌+◌, refl, sym, ap, ◌∙◌, inl, inr, Bool, true, false, List, [], ◌∷◌, map,
  Option, none, some, length, take, ◌==◌, All, Bool-cases, codes, arith, subst,
}
use player_trace_sdk.Base.Words.{u64_mod}
use player_trace_sdk.Types.{ok, storage_error, SerializedEvent}
use player_trace_sdk.Validator.Keys.{is_empty}
use player_trace_sdk.Store.Interface.{FetchResult}
use player_trace_sdk.Store.Sqlite.{Sqlite, Tables, Row, prepare, bind_int}
use player_trace_sdk.Store.Transactions.{delete_rowids}
use player_trace_sdk.Store.Transactions.Atomic.{Result}
use player_trace_sdk.Store.Transactions.Deletes.{remove_rows, Deletes, delete_rowids-IsAtomic}
use player_trace_sdk.Store.Reads.{
  Queries, unusable, sort_out, fetch_result, quarantine_result, quarantine, read_rows, row_limit,
  prepare_fetch, fetch_pending,
}
use player_trace_sdk.Store.Reads.Scalars.{Seen, Sees, Sees-call, Sees-no_fault, Sees-try}

abbrev pub to_event : Row → SerializedEvent
to_event r = record { event_id = r.stored.event_id; json = r.stored.payload }

module _ {D : Type 0} (db : Sqlite D) (queries : Queries db) where
  open db use {call, autocommit, committed, current, idle, quiet}
  open queries use {select, in_order, is_valid_json, select_quiet, selected, limited}

  -- The event can be acknowledged, and its payload is JSON.
  abbrev pub IsUsable : SerializedEvent → Type 0
  IsUsable e = (is_empty e.event_id ≡ false) × (is_valid_json e.json ≡ true)

  kept-IsUsable : (r : Row) → unusable db queries r ≡ false → IsUsable (to_event r)
  unfolding unusable
  kept-IsUsable r e = (ground (arith, e), ground (arith, e))

  sort_out-All : (rows : List Row) → All IsUsable (sort_out db queries rows).0
  unfolding sort_out
  sort_out-All [] = tt
  sort_out-All (r ∷ rows) = elim (Bool-cases (unusable db queries r)) [
    | inl bad ↦ rw bad (sort_out-All rows)
    | inr good ↦ rw good (kept-IsUsable r good, sort_out-All rows)
  ]

  length-sort_out :
      (rows : List Row)
      → length (sort_out db queries rows).0 + length (sort_out db queries rows).1 ≡ length rows
  unfolding sort_out
  length-sort_out [] = refl
  length-sort_out (r ∷ rows) = ground (arith, length-sort_out rows)

  sort_out-map :
      (rows : List Row)
      → is_empty (sort_out db queries rows).1 ≡ true
      → (sort_out db queries rows).0 ≡ map to_event rows
  unfolding sort_out
  sort_out-map [] e = refl
  sort_out-map (r ∷ rows) e = elim (Bool-cases (unusable db queries r)) [
    | inl bad ↦ ground (arith, e, bad)
    | inr good ↦ rw good (ap (to_event r ∷◌) (sort_out-map rows (ground (arith, e, good))))
  ]

  -- What a fetch promises.
  pub record Fetches (limit : ℕ) (d : D) (f : FetchResult) (d' : D) : Type 0 where
    pub usable : All IsUsable f.events
    pub few : (length f.events ≤ limit) × (length f.events ≤ 2147483647)
    pub released : f.quarantined + length (committed d').events ≤ length (committed d).events
    pub whole :
        f.status ≡ ok
        → (committed d' ≡ committed d)
          × (f.events
              ≡ map to_event (take (row_limit db queries limit) (in_order (committed d).events)))

  pub released-by :
      (events : List SerializedEvent) (corrupt : List ℕ) (r : Option ℕ) (d d' : D)
      → Result db (Deletes (remove_rows corrupt) 0) d r d'
      → (quarantine_result db queries events corrupt r).quarantined + length (committed d').events
        ≤ length (committed d).events
  unfolding quarantine_result
  released-by events corrupt none d d' same =
      let l = ap (λ (t : Tables). length t.events) same in omega (arith, l)
  released-by events corrupt (some n) d d' (_, _, _, fewer) =
      elim (Bool-cases (n == length corrupt)) [
        | inl e ↦ rw e (omega (arith, fewer))
        | inr e ↦ rw e (omega (arith, fewer))
      ]

  events-quarantine_result :
      (events : List SerializedEvent) (corrupt : List ℕ) (r : Option ℕ)
      → (quarantine_result db queries events corrupt r).events ≡ events
  unfolding quarantine_result
  events-quarantine_result events corrupt none = refl
  events-quarantine_result events corrupt (some n) = ground arith

  status-quarantine_result :
      (events : List SerializedEvent) (corrupt : List ℕ) (r : Option ℕ)
      → (quarantine_result db queries events corrupt r).status ≡ storage_error
  unfolding quarantine_result
  status-quarantine_result events corrupt none = refl
  status-quarantine_result events corrupt (some n) = ground arith

  quarantine-Fetches :
      (limit : ℕ) (rows : List Row) (d d' : D)
      → length (committed d).events < u64_mod
      → committed d' ≡ committed d
      → (length rows ≤ limit) × (length rows ≤ 2147483647)
      → rows ≡ take (row_limit db queries limit) (in_order (committed d).events)
      → Fetches limit d
          (quarantine db queries (sort_out db queries rows).0 (sort_out db queries rows).1 d').0
          (quarantine db queries (sort_out db queries rows).0 (sort_out db queries rows).1 d').1
  unfolding quarantine
  quarantine-Fetches limit rows d d' small same (few, few_int) whole =
      let events = (sort_out db queries rows).0 in
      let corrupt = (sort_out db queries rows).1 in
      let parts = length-sort_out rows in
      let before = ap (λ (t : Tables). length t.events) same in
      elim (Bool-cases (is_empty corrupt)) [
        | inl none_bad ↦ rw none_bad (record {
          usable = sort_out-All rows;
          few = (omega (arith, parts, few), omega (arith, parts, few_int));
          released = omega (arith, before);
          whole = λ _. (same, sort_out-map rows none_bad ∙ ap (map to_event) whole);
        })
        | inr some_bad ↦
            let r = (delete_rowids db corrupt d').0 in
            let d'' = (delete_rowids db corrupt d').1 in
            let left = released-by events corrupt r d' d'' (delete_rowids-IsAtomic db corrupt d') in
            let kept = events-quarantine_result events corrupt r in
            let size = ap (λ (x : List SerializedEvent). length x) kept in
            rw some_bad (record {
              usable = subst (All IsUsable) (sym kept) (sort_out-All rows);
              few = (omega (arith, parts, few, size), omega (arith, parts, few_int, size));
              released = omega (arith, before, left);
              whole = λ e. ground (arith, e, status-quarantine_result events corrupt r);
            })
      ]

  -- A fetch that failed with these events.
  failed-Fetches :
      (limit : ℕ) (events : List SerializedEvent) (d d' : D)
      → committed d' ≡ committed d
      → All IsUsable events
      → (length events ≤ limit) × (length events ≤ 2147483647)
      → Fetches limit d (fetch_result db queries storage_error events 0) d'
  failed-Fetches limit events d d' same usable few =
      let before = ap (λ (t : Tables). length t.events) same in
      record {
        usable = usable;
        few = few;
        released = omega (arith, before);
        whole = λ e. ground (arith, e);
      }

  row_limit_lem :
      (limit : ℕ) → (row_limit db queries limit ≤ limit) × (row_limit db queries limit ≤ 2147483647)
  unfolding row_limit
  row_limit_lem limit = (ground arith, ground arith)

  read_rows-Fetches :
      (limit : ℕ) (rows : List Row) (done : Bool) (d d' : D)
      → length (committed d).events < u64_mod
      → committed d' ≡ committed d
      → (length rows ≤ limit) × (length rows ≤ 2147483647)
      → (done ≡ true → rows ≡ take (row_limit db queries limit) (in_order (committed d).events))
      → Fetches limit d
          (read_rows db queries ((rows, done), d')).0
          (read_rows db queries ((rows, done), d')).1
  unfolding read_rows
  read_rows-Fetches limit rows true d d' small same few whole =
      quarantine-Fetches limit rows d d' small same few (whole refl)
  read_rows-Fetches limit rows false d d' small same (few, few_int) whole =
      let parts = length-sort_out rows in
      failed-Fetches limit (sort_out db queries rows).0 d d' same (sort_out-All rows)
        (omega (arith, parts, few), omega (arith, parts, few_int))

  Sees-prepare_fetch : (limit : ℕ) → Sees db (prepare_fetch db queries limit) (λ _. tt)
  unfolding prepare_fetch
  Sees-prepare_fetch limit =
      Sees-no_fault db (codes "prepare_fetch") _ (λ _. tt)
        (Sees-call db
          (prepare (codes "SELECT rowid, event_id, payload FROM events ORDER BY ordinal LIMIT ?;"))
          _ (λ _. tt) (Sees-try db (bind_int 1 (row_limit db queries limit))))

  ready-Fetches :
      (limit : ℕ) (d : D) (r : Option (Unit {0})) (d' : D)
      → autocommit d ≡ true
      → length (committed d).events < u64_mod
      → Seen db (λ _. tt) d r d'
      → Fetches limit d
          (elim r as (λ _. FetchResult × D) [
            | none ↦ (fetch_result db queries storage_error [] 0, d')
            | some _ ↦ read_rows db queries (select (row_limit db queries limit) d')
          ]).0
          (elim r as (λ _. FetchResult × D) [
            | none ↦ (fetch_result db queries storage_error [] 0, d')
            | some _ ↦ read_rows db queries (select (row_limit db queries limit) d')
          ]).1
  ready-Fetches limit d none d' out small (_, same, _) =
      failed-Fetches limit [] d d' same tt (omega arith, omega arith)
  ready-Fetches limit d (some _) d' out small ((still, same, view), _) =
      let n = row_limit db queries limit in
      let (_, same', view') = select_quiet n d' in
      let (most, most_int) = row_limit_lem limit in
      let l = limited n d' in
      read_rows-Fetches limit (select n d').0.0 (select n d').0.1 d (select n d').1 small
        (same' ∙ same) (omega (arith, l, most), omega (arith, l, most_int))
        (λ done.
          selected n d' done ∙ ap (λ (t : Tables). take n (in_order t.events)) (view ∙ idle d out))

  -- Outside of a transaction, with fewer than 2^64 committed rows, fetch_pending hands out events that can be acknowledged and have JSON
  -- payloads only, at most as many as the limit and the largest int; what it counts as quarantined
  -- has left the committed rows; and when it succeeds the committed rows are unchanged and the events
  -- are the first of them in the order of their ordinals.
  pub fetch_pending-Fetches :
      (limit : ℕ) (d : D)
      → autocommit d ≡ true
      → length (committed d).events < u64_mod
      → Fetches limit d (fetch_pending db queries limit d).0 (fetch_pending db queries limit d).1
  unfolding fetch_pending
  fetch_pending-Fetches limit d out small =
      ready-Fetches limit d (prepare_fetch db queries limit d).0
        (prepare_fetch db queries limit d).1 out small (Sees-prepare_fetch limit d out)
