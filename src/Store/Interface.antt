-- ===== src/Store/Interface.antt =====
-- What the client and the worker use of the store (src/internal/sqlite_store.hpp), with what it
-- promises. `pending` is the committed content of the table of events, in the order of insertion, and
-- `marked` whether the revocation marker is committed.
use player_trace_sdk.Base.{
  ℕ, ◌≡◌, ◌≢◌, Bool, true, false, List, [], ◌∷◌, ◌++◌, ◌||◌, ◌+◌, ◌≤◌, length, bytes_eq,
  if◌then◌else◌, leb,
}
use player_trace_sdk.Validator.Keys.{is_empty}
use player_trace_sdk.Base.Int.{ℤ}
use player_trace_sdk.Types.{Status, ok, Bytes, SerializedEvent}

pub record StoredRecord : Type 0 where
  pub event_id : Bytes
  pub session_id : Bytes
  pub sequence : ℕ
  pub ordinal : ℕ
  pub created_ms : ℤ
  pub payload : Bytes

-- The durable half of a consent revocation: the marker and the purge.
pub record RevocationStore (S : Type 0) : Type 0 where
  pub mark_revocation_pending : S → Status × S
  pub purge_and_clear_revocation : S → Status × S
  pub pending : S → List StoredRecord
  pub marked : S → Bool
  pub mark_ok :
      (s : S)
      → (mark_revocation_pending s).0 ≡ ok
      → (marked (mark_revocation_pending s).1 ≡ true)
        × (pending (mark_revocation_pending s).1 ≡ pending s)
  pub mark_failed :
      (s : S)
      → (mark_revocation_pending s).0 ≢ ok
      → (marked (mark_revocation_pending s).1 ≡ marked s)
        × (pending (mark_revocation_pending s).1 ≡ pending s)
  pub purge_ok :
      (s : S)
      → (purge_and_clear_revocation s).0 ≡ ok
      → (marked (purge_and_clear_revocation s).1 ≡ false)
        × (pending (purge_and_clear_revocation s).1 ≡ [])
  pub purge_failed :
      (s : S)
      → (purge_and_clear_revocation s).0 ≢ ok
      → (marked (purge_and_clear_revocation s).1 ≡ marked s)
        × (pending (purge_and_clear_revocation s).1 ≡ pending s)

-- Is there a row with this event_id?
unfoldable pub has_id : Bytes → List StoredRecord → Bool
has_id id [] = false
has_id id (r ∷ rest) = bytes_eq id r.event_id || has_id id rest

-- Does a constraint of the table keep the record out? An id is not empty, and stands only once.
unfoldable pub is_ignored : StoredRecord → List StoredRecord → Bool
unfolding has_id
is_ignored r rows = is_empty r.event_id || has_id r.event_id rows

-- INSERT OR IGNORE, for each record in turn.
unfoldable pub insert_or_ignore : List StoredRecord → List StoredRecord → List StoredRecord
insert_or_ignore [] rows = rows
insert_or_ignore (r ∷ rest) rows =
    insert_or_ignore rest (if is_ignored r rows then rows else rows ++ r ∷ [])

-- SELECT COUNT(*) FROM events WHERE ordinal <= barrier
unfoldable pub rows_up_to : ℕ → List StoredRecord → ℕ
rows_up_to barrier [] = 0
rows_up_to barrier (r ∷ rest) =
    let others = rows_up_to barrier rest in if leb r.ordinal barrier then others + 1 else others

pub record FetchResult : Type 0 where
  pub status : Status
  pub events : List SerializedEvent
  pub quarantined : ℕ

-- What the worker uses of the store: SqliteStore of src/internal/sqlite_store.hpp. A count reads the
-- view of the connection, which is the committed one while no transaction is open; its two methods
-- are const, and leave no state. `in_transaction` is the negation of sqlite3_get_autocommit.
pub record EventStore (S : Type 0) : Type 0 where
  pub revocation : RevocationStore S
  pub open revocation use *
  pub insert : List StoredRecord → S → Status × S
  pub fetch_pending : ℕ → S → FetchResult × S
  pub acknowledge : List Bytes → S → Status × S
  pub count : S → Status × ℕ
  pub count_up_to : ℕ → S → Status × ℕ
  pub in_transaction : S → Bool
  pub insert_ok :
      (records : List StoredRecord) (s : S)
      → (insert records s).0 ≡ ok
      → pending (insert records s).1 ≡ insert_or_ignore records (pending s)
  pub insert_failed :
      (records : List StoredRecord) (s : S)
      → (insert records s).0 ≢ ok
      → pending (insert records s).1 ≡ pending s
  pub fetched :
      (limit : ℕ) (s : S)
      → (fetch_pending limit s).0.quarantined + length (pending (fetch_pending limit s).1)
        ≤ length (pending s)
  pub acknowledged :
      (ids : List Bytes) (s : S)
      → (acknowledge ids s).0 ≡ ok
      → length ids + length (pending (acknowledge ids s).1) ≤ length (pending s)
  pub not_acknowledged :
      (ids : List Bytes) (s : S)
      → (acknowledge ids s).0 ≢ ok
      → length (pending (acknowledge ids s).1) ≤ length (pending s)
  pub counted_up_to :
      (barrier : ℕ) (s : S)
      → in_transaction s ≡ false
      → (count_up_to barrier s).0 ≡ ok
      → (count_up_to barrier s).1 ≡ rows_up_to barrier (pending s)
