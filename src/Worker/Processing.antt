-- ===== src/Worker/Processing.antt =====
-- process_incoming and purge_store of src/worker.cpp, over the store's interface.
--
-- The serializer is the argument `serialize`: the JSON library prints an event or fails. What other
-- threads do between the reading of the generation and the taking of the store's lock is the argument
-- `between`.
pub mod Coverage
pub mod Covered
pub mod Boundary
use player_trace_sdk.Base.{
  ℕ, Bool, true, false, not, ◌||◌, List, [], ◌∷◌, ◌++◌, length, ◌==◌, if◌then◌else◌,
}
use player_trace_sdk.Types.{Status, ok, is_ok, is_granted, Bytes, Event, QueuedEvent}
use player_trace_sdk.Validator.Keys.{is_empty}
use player_trace_sdk.Pipeline
use player_trace_sdk.Pipeline.{Pipeline}
use player_trace_sdk.Worker.Core.{WorkerCore, Shared, take_retry, hold_for_retry, note_error}
use player_trace_sdk.Store.Interface.{StoredRecord, EventStore}

abbrev pub with_pipeline : Pipeline → Shared → Shared
with_pipeline p s = record s { pipeline = p }

-- Events that a loss of consent discards: counted, and their capacity released.
unfoldable pub discard : ℕ → Pipeline → Pipeline
discard n p = Pipeline.release_outstanding n (Pipeline.count_discarded_consent n p)

-- An event that cannot be printed.
unfoldable pub drop_invalid : Status → Pipeline → Pipeline
drop_invalid status p =
    Pipeline.release_outstanding 1
      (Pipeline.count_dropped_invalid 1 (Pipeline.report_error status p))

-- The events kept, with their records.
abbrev pub Screened : Type 0
Screened = List StoredRecord × List QueuedEvent

abbrev pub with_event : QueuedEvent → Bytes → Screened → Screened
with_event qe payload (records, keep) = (
  record {
    event_id = qe.event.event_id;
    session_id = qe.event.session_id;
    sequence = qe.event.sequence;
    ordinal = qe.ordinal;
    created_ms = qe.event.timestamp_ms;
    payload = payload;
  }
      ∷ records,
  qe ∷ keep,
)

module _ (serialize : Event → Status × Bytes) where
  -- The loop over the batch.
  unfoldable pub screen : ℕ → List QueuedEvent → Pipeline → Screened × Pipeline
  screen generation [] p = (([], []), p)
  screen generation (qe ∷ batch) p =
      let stale = not (qe.consent_generation == generation) in
      let (status, payload) = serialize qe.event in
      let p' =
        if stale then discard 1 p else if not (is_ok status) then drop_invalid status p else p in
      let (kept, q) = screen generation batch p' in
      if stale || not (is_ok status) then (kept, q) else (with_event qe payload kept, q)

module _ {S : Type 0} (store : EventStore S) where
  open store use {purge_and_clear_revocation, count, insert}

  unfoldable pub purge_store : Shared × S → Shared × S
  purge_store (p, s) =
      let (purged, s') = purge_and_clear_revocation s in
      if not (is_ok purged) then (note_error purged p, s') else (
        with_pipeline
            (Pipeline.reset_outstanding (if is_ok (count s').0 then (count s').1 else 0) p.pipeline)
            p,
        s',
      )

  -- The block under the store's lock, and what follows it.
  unfoldable pub commit_batch : ℕ → Screened → Shared × S → Shared × S
  commit_batch generation (records, keep) (p, s) =
      if not (is_granted p.pipeline.consent) || not (p.pipeline.consent_generation == generation)
      then (with_pipeline (discard (length keep) p.pipeline) p, s)
      else let (inserted, s') = insert records s in
        if not (is_ok inserted)
        then (let noted = note_error inserted p in
            (record noted { core = hold_for_retry keep noted.core }, s'))
        else (with_pipeline (Pipeline.count_persisted (length records) p.pipeline) p, s')

  module _ (serialize : Event → Status × Bytes) (between : Shared × S → Shared × S) where
    -- From `generation` on, where consent is given.
    unfoldable pub process_batch : List QueuedEvent → Shared × S → Shared × S
    process_batch batch (p, s) =
        let generation = p.pipeline.consent_generation in
        let (screened, pipeline) = screen serialize generation batch p.pipeline in
        if is_empty screened.0
        then (with_pipeline pipeline p, s)
        else commit_batch generation screened (between (with_pipeline pipeline p, s))

    unfoldable pub process_incoming : List QueuedEvent → Shared × S → Shared × S
    process_incoming drained (p, s) =
        let (held, core) = take_retry p.core in
        let batch = held ++ drained in
        let taken = record p { core = core } in
        if is_empty batch
        then (taken, s)
        else if not (is_granted p.pipeline.consent)
        then purge_store (with_pipeline (discard (length batch) p.pipeline) taken, s)
        else process_batch batch (taken, s)
