-- ===== src/Store/Transactions.antt =====
-- The transactions of src/sqlite_store.cpp: exec, rollback, insert, delete_ids, acknowledge,
-- delete_rowids, mark_revocation_pending and purge_and_clear_revocation.
--
-- A method that may fail with StorageError is an action on the connection, `none` standing for the
-- failure. Where the source calls rollback() before each return with an error, `or_rollback` does.
pub mod Rules
pub mod Atomic
pub mod Methods
pub mod Deletes
use player_trace_sdk.Base.{
  ℕ, ◌+◌, ◌^◌, Bool, true, false, not, List, [], ◌∷◌, Option, none, some, length, ltb, ◌==◌, codes,
  if◌then◌else◌,
}
use player_trace_sdk.Base.Words.{add64}
use player_trace_sdk.Store.Action.{Action, ◌>>=◌, ◌>>◌, return, fail, try, run, read}
use player_trace_sdk.Types.{Status, ok, storage_error, Bytes}
use player_trace_sdk.Validator.Keys.{is_empty}
use player_trace_sdk.Store.Interface.{StoredRecord}
use player_trace_sdk.Store.Sqlite.{
  Sqlite, Sql, begin_immediate, commit, rollback, change, Change, delete_events, delete_event,
  delete_row, insert_event, put_meta, delete_meta, Call, prepare, bind_text, bind_int, bind_signed,
  reset, clear_bindings,
}

-- kRevocationKey
abbrev pub revocation_key : Bytes
revocation_key = codes "revocation_pending"

module _ {D : Type 0} (db : Sqlite D) where
  open db use {exec, step, call, fault, changes}

  -- Every use of rollback() but one ignores the answer, and that one replaces an error by another.
  unfoldable pub or_rollback : {A : Type 0} → Action D A → Action D A
  or_rollback m d =
      let (r, d') = m d in elim r [ none ↦ (none, (exec rollback d').1) | some a ↦ (some a, d') ]

  -- `if (fault(operation)) return ...`
  abbrev pub no_fault : Bytes → Action D (Unit {0})
  no_fault operation d = (if fault operation d then none else some tt, d)

  -- The body of a transaction, with the fault point before its COMMIT, if it has one.
  unfoldable pub transaction : {A : Type 0} → Action D A → Action D A
  transaction body =
      try (exec begin_immediate) >> or_rollback (do r ← body; try (exec commit); return r)

  -- SQLITE_TOOBIG beyond the largest int.
  unfoldable pub bind_string : ℕ → Bytes → Action D (Unit {0})
  bind_string index value =
      if ltb 2147483647 (length value) then fail else try (call (bind_text index value))

  -- sqlite3_step, and then sqlite3_changes.
  unfoldable pub step_changes : Change → Action D ℕ
  step_changes c = try (step c) >> read changes

  -- One round of the loop of insert.
  unfoldable pub insert_one : StoredRecord → Action D (Unit {0})
  unfolding bind_string
  insert_one r = do
    no_fault (codes "bind_insert")
    bind_string 1 r.event_id
    bind_string 2 r.session_id
    try (call (bind_int 3 r.sequence))
    try (call (bind_int 4 r.ordinal))
    try (call (bind_signed 5 r.created_ms))
    bind_string 6 r.payload
    no_fault (codes "step_insert")
    try (step (insert_event r))
    try (call reset)
    try (call clear_bindings)
    return tt

  unfoldable pub insert_loop : List StoredRecord → Action D (Unit {0})
  insert_loop [] = return tt
  insert_loop (r ∷ rest) = insert_one r >> insert_loop rest

  unfoldable pub insert : List StoredRecord → Action D (Unit {0})
  insert records = if is_empty records then return tt else (do
    no_fault (codes "begin")
    transaction (do
      no_fault (codes "prepare_insert")
      try (call (prepare (codes "INSERT OR IGNORE INTO events")))
      insert_loop records
      no_fault (codes "commit")))

  -- The loop of delete_ids, with the rows removed so far.
  unfoldable pub delete_ids_loop : List Bytes → ℕ → Action D ℕ
  delete_ids_loop [] removed = return removed
  delete_ids_loop (id ∷ rest) removed = do
    bind_string 1 id
    no_fault (codes "step_delete")
    changed ← step_changes (delete_event id)
    try (call reset)
    try (call clear_bindings)
    delete_ids_loop rest (add64 removed changed)

  unfoldable pub delete_ids : List Bytes → Action D ℕ
  delete_ids ids = if is_empty ids then return 0 else (do
    no_fault (codes "begin_delete")
    transaction (do
      try (call (prepare (codes "DELETE FROM events WHERE event_id = ?;")))
      removed ← delete_ids_loop ids 0
      no_fault (codes "commit_delete")
      return removed))

  unfoldable pub acknowledge : List Bytes → Action D ℕ
  acknowledge ids = do
    deleted ← delete_ids ids
    (if not (deleted == length ids) then fail else return deleted)

  unfoldable pub delete_rowids_loop : List ℕ → ℕ → Action D ℕ
  delete_rowids_loop [] removed = return removed
  delete_rowids_loop (rowid ∷ rest) removed = do
    try (call (bind_int 1 rowid))
    changed ← step_changes (delete_row rowid)
    try (call reset)
    run (call clear_bindings)
    delete_rowids_loop rest (add64 removed changed)

  unfoldable pub delete_rowids : List ℕ → Action D ℕ
  delete_rowids rowids = if is_empty rowids then return 0 else (do
    no_fault (codes "begin_quarantine")
    transaction (do
      try (call (prepare (codes "DELETE FROM events WHERE rowid = ?;")))
      delete_rowids_loop rowids 0))

  unfoldable pub mark_revocation_pending : Action D (Unit {0})
  mark_revocation_pending = do
    no_fault (codes "mark_revocation")
    transaction (try (exec (change (put_meta revocation_key (codes "1")))))

  -- Between BEGIN and COMMIT of purge_and_clear_revocation.
  unfoldable pub purge_rows : Action D ℕ
  purge_rows = do
    try (exec (change delete_events))
    removed ← read changes
    try (exec (change (delete_meta revocation_key)))
    no_fault (codes "commit_purge")
    return removed

  unfoldable pub purge_and_clear_revocation : Action D ℕ
  purge_and_clear_revocation = no_fault (codes "purge") >> transaction purge_rows
