-- ===== src/Store/Transactions/Methods.antt =====
-- insert, mark_revocation_pending and purge_and_clear_revocation of src/sqlite_store.cpp.
use player_trace_sdk.Base.{
  ℕ, ◌≡◌, refl, ap, ◌∙◌, inl, inr, true, false, ◌||◌, List, [], ◌∷◌, ◌++◌, map, Bool-cases,
  bytes_eq, bytes_eq_refl, codes, arith,
}
use player_trace_sdk.Types.{Bytes}
use player_trace_sdk.Validator.Keys.{is_empty}
use player_trace_sdk.Store.Action.{try, read}
use player_trace_sdk.Store.Interface.{StoredRecord, has_id, is_ignored, insert_or_ignore}
use player_trace_sdk.Store.Sqlite.{
  Sqlite, Tables, Row, change, put_meta, delete_meta, delete_events, insert_event, prepare,
  bind_int, bind_signed, reset, clear_bindings, effect, insert_row, has_row, has_key, remove_key,
}
use player_trace_sdk.Store.Transactions.{
  revocation_key, no_fault, insert_one, insert_loop, insert, mark_revocation_pending,
  purge_and_clear_revocation, purge_rows, transaction,
}
use player_trace_sdk.Store.Transactions.Rules.{
  Post, Runs, Runs->>=, Runs-weaken, Runs-first, Runs-return, Runs-no_fault, Runs-call,
  Runs-bind_string, Runs-step, Runs-change, Runs-read,
}
use player_trace_sdk.Store.Transactions.Atomic.{
  IsAtomic, transaction-IsAtomic, no_fault-IsAtomic, Ended, no_fault-Ended, transaction-Ended,
}

abbrev pub records_of : Tables → List StoredRecord
records_of t = map (λ (r : Row). r.stored) t.events

-- The records join the table; nothing else changes.
abbrev pub Inserts : {A : Type 0} → List StoredRecord → Post A
Inserts records a t t' =
    (records_of t' ≡ insert_or_ignore records (records_of t))
    × (t'.meta ≡ t.meta)
    × (t'.objects ≡ t.objects)

-- The marker is written, and the rows stay.
abbrev pub Marks : {A : Type 0} → Post A
Marks a t t' = (has_key revocation_key t'.meta ≡ true) × (t'.events ≡ t.events)

-- Neither a row nor the marker is left.
abbrev pub Purges : {A : Type 0} → Post A
Purges a t t' = (has_key revocation_key t'.meta ≡ false) × (t'.events ≡ [])

has_row-has_id :
    (id : Bytes) (rows : List Row) → has_row id rows ≡ has_id id (map (λ (r : Row). r.stored) rows)
unfolding has_row has_id
has_row-has_id id [] = refl
has_row-has_id id (r ∷ rows) = ap (λ b. bytes_eq id r.stored.event_id || b) (has_row-has_id id rows)

map-snoc :
    (rows : List Row) (n : ℕ) (r : StoredRecord)
    → map (λ (x : Row). x.stored) (rows ++ record { rowid = n; stored = r } ∷ [])
      ≡ map (λ (x : Row). x.stored) rows ++ r ∷ []
map-snoc [] n r = refl
map-snoc (x ∷ rows) n r = ap (x.stored ∷◌) (map-snoc rows n r)

insert_row-insert_or_ignore :
    (n : ℕ) (r : StoredRecord) (rows : List Row)
    → map (λ (x : Row). x.stored) (insert_row n r rows)
      ≡ insert_or_ignore (r ∷ []) (map (λ (x : Row). x.stored) rows)
unfolding insert_row insert_or_ignore is_ignored
insert_row-insert_or_ignore n r rows =
    elim (Bool-cases (is_empty r.event_id || has_row r.event_id rows)) [
      | inl e ↦ ground (arith, has_row-has_id r.event_id rows)
      | inr e ↦ ground (arith, has_row-has_id r.event_id rows, map-snoc rows n r)
    ]

has_key-remove_key :
    (key : Bytes) (meta : List (Bytes × Bytes)) → has_key key (remove_key key meta) ≡ false
unfolding has_key remove_key
has_key-remove_key key [] = refl
has_key-remove_key key ((k, v) ∷ meta) = ground (arith, has_key-remove_key key meta)

module _ {D : Type 0} (db : Sqlite D) where
  open db use {call, step, changes, committed}

  Runs-insert_one : (r : StoredRecord) → Runs db (insert_one db r) (Inserts (r ∷ []))
  unfolding insert_one effect
  Runs-insert_one r = Runs-first db _ _ (Runs-no_fault db (codes "bind_insert")) (
      Runs-first db _ _ (Runs-bind_string db 1 r.event_id) (
        Runs-first db _ _ (Runs-bind_string db 2 r.session_id) (
          Runs-first db _ _ (Runs-call db (bind_int 3 r.sequence)) (
            Runs-first db _ _ (Runs-call db (bind_int 4 r.ordinal)) (
              Runs-first db _ _ (Runs-call db (bind_signed 5 r.created_ms)) (
                Runs-first db _ _ (Runs-bind_string db 6 r.payload) (
                  Runs-first db _ _ (Runs-no_fault db (codes "step_insert")) (
                    Runs-weaken db
                      (Runs->>= db (try (step (insert_event r))) _ (Runs-step db (insert_event r))
                        (λ _. Runs-first db (try (call reset)) _ (Runs-call db reset) (
                          Runs-first db (try (call clear_bindings)) _ (Runs-call db clear_bindings)
                            (Runs-return db tt))))
                      (λ a t t'' (_, t', (n, e), (_, e')).
                        let whole = e' ∙ e in
                        (
                          ap records_of whole ∙ insert_row-insert_or_ignore n r t.events,
                          ap (λ (x : Tables). x.meta) whole,
                          ap (λ (x : Tables). x.objects) whole,
                        ))))))))))

  Runs-insert_loop :
      (records : List StoredRecord) → Runs db (insert_loop db records) (Inserts records)
  unfolding insert_loop insert_or_ignore
  Runs-insert_loop [] = Runs-weaken db (Runs-return db tt) (λ a t t' (_, e).
      (ap records_of e, ap (λ (x : Tables). x.meta) e, ap (λ (x : Tables). x.objects) e))
  Runs-insert_loop (r ∷ rest) =
      Runs-weaken db
        (Runs->>= db (insert_one db r) (λ _. insert_loop db rest) (Runs-insert_one r)
          (λ _. Runs-insert_loop rest))
        (λ a t t'' (_, t', (e, m, o), (e', m', o')).
          (e' ∙ ap (insert_or_ignore rest) e, m' ∙ m, o' ∙ o))

  -- insert commits all the records, in their order, without those that the constraints of the
  -- table keep out, or it fails and what is committed stays as it was.
  pub insert-IsAtomic :
      (records : List StoredRecord) → IsAtomic db (insert db records) (Inserts records)
  unfolding insert insert_or_ignore
  insert-IsAtomic [] = λ d. (refl, refl, refl)
  insert-IsAtomic (r ∷ rest) = no_fault-IsAtomic db (codes "begin") _ (Inserts (r ∷ rest)) (
      transaction-IsAtomic db _ (Inserts (r ∷ rest)) (
        Runs-first db _ _ (Runs-no_fault db (codes "prepare_insert")) (
          Runs-first db _ _ (Runs-call db (prepare (codes "INSERT OR IGNORE INTO events"))) (
            Runs-weaken db
              (Runs->>= db (insert_loop db (r ∷ rest)) (λ _. no_fault db (codes "commit"))
                (Runs-insert_loop (r ∷ rest)) (λ _. Runs-no_fault db (codes "commit")))
              (λ a t t'' (_, t', (e, m, o), e'). (
                ap records_of e' ∙ e,
                ap (λ (x : Tables). x.meta) e' ∙ m,
                ap (λ (x : Tables). x.objects) e' ∙ o,
              ))))))

  -- mark_revocation_pending commits the marker and leaves the rows, or it fails and what is committed
  -- stays as it was.
  pub mark_revocation_pending-IsAtomic : IsAtomic db (mark_revocation_pending db) Marks
  unfolding mark_revocation_pending effect has_key
  mark_revocation_pending-IsAtomic = no_fault-IsAtomic db (codes "mark_revocation") _ Marks (
      transaction-IsAtomic db _ Marks (
        Runs-weaken db (Runs-change db (put_meta revocation_key (codes "1"))) (λ a t t' (n, e). (
          ap (λ (x : Tables). has_key revocation_key x.meta) e
              ∙ ground (arith, bytes_eq_refl revocation_key),
          ap (λ (x : Tables). x.events) e,
        ))))

  Runs-purge_rows : Runs db (purge_rows db) Purges
  unfolding purge_rows effect
  Runs-purge_rows =
      Runs-weaken db
        (Runs->>= db (try (db.exec (change delete_events))) _ (Runs-change db delete_events) (λ _.
          Runs->>= db (read changes) _ (Runs-read db changes) (λ n.
            Runs->>= db (try (db.exec (change (delete_meta revocation_key)))) _
              (Runs-change db (delete_meta revocation_key))
              (λ _.
                Runs-first db _ _ (Runs-no_fault db (codes "commit_purge")) (Runs-return db n)))))
        (λ a t t4 (_, t1, (_, e1), (n, t2, e2, (_, t3, (_, e3), (_, e4)))). (
          ap (λ (x : Tables). has_key revocation_key x.meta) (e4 ∙ e3)
              ∙ has_key-remove_key revocation_key t2.meta,
          ap (λ (x : Tables). x.events) (e4 ∙ e3) ∙ ap (λ (x : Tables). x.events) (e2 ∙ e1),
        ))

  -- purge_and_clear_revocation commits that neither a row nor the marker is left, or it fails and
  -- what is committed stays as it was.
  pub purge-IsAtomic : IsAtomic db (purge_and_clear_revocation db) Purges
  unfolding purge_and_clear_revocation
  purge-IsAtomic =
      no_fault-IsAtomic db (codes "purge") _ Purges
        (transaction-IsAtomic db (purge_rows db) Purges Runs-purge_rows)

  pub purge-Ended :
      (d : D) → Ended db (purge_and_clear_revocation db d).0 (purge_and_clear_revocation db d).1
  unfolding purge_and_clear_revocation
  purge-Ended d =
      no_fault-Ended db (codes "purge") (transaction db (purge_rows db)) d
        (transaction-Ended db (purge_rows db) Purges Runs-purge_rows d)
