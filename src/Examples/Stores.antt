-- ===== src/Examples/Stores.antt =====
-- Tests of the worker and its store, with a table in memory that never fails.
use player_trace_sdk.Base.{
  ◌+◌, ◌≤◌, ◌≡◌, refl, Bool, true, false, List, [], ◌∷◌, ◌++◌, length, length-drop, drop, take, leb,
  map, some, arith, if◌then◌else◌, codes, ℕ,
}
use player_trace_sdk.Base.Int.{pos}
use player_trace_sdk.Types.{
  Status, ok, storage_error, denied, granted, Bytes, Event, SerializedEvent,
}
use player_trace_sdk.Worker.Core.{Shared}
use player_trace_sdk.Store.Interface.{RevocationStore, EventStore, StoredRecord, insert_or_ignore}
use player_trace_sdk.Client.Sessions.{start_session}
use player_trace_sdk.Client.Consent.{set_consent}
use player_trace_sdk.Client.Lifecycle.{with_shared}
use player_trace_sdk.Worker.Processing.{process_incoming}
use player_trace_sdk.Worker.Delivery.{
  Sink, write_batch, safe_write, acknowledge_batch, deliver_round, note_fetch,
}
use player_trace_sdk.Worker.Core.{take_retry, forget_errors, discard_in_flight}
use player_trace_sdk.Worker.Processing.{process_batch, screen, commit_batch, discard}
use player_trace_sdk.Validator.Keys.{validate_player_id}
use player_trace_sdk.Validator.Utf8.{is_valid_utf8}
use player_trace_sdk.Client.Consent.{grant_consent, run_purge, close_consent, discard_queued}
use player_trace_sdk.Client.State.{terminal_locked}
use player_trace_sdk.Client.Sessions.{open_session, begin, replace_session}
use player_trace_sdk.Client.Admission.{admit_locked, publish, queued_event}
use player_trace_sdk.Session
use player_trace_sdk.Session.{deactivate, next, save}
use player_trace_sdk.Queue.{clear, full, try_push}
use player_trace_sdk.Pipeline.{
  bump_consent_generation, set_consent_state, reset_outstanding, release_outstanding,
  add_outstanding, count_accepted, count_discarded_consent,
}
use player_trace_sdk.Worker.Barrier.{
  conclude_pass, pass_outcome, safe_flush_sink, work_remains_at_or_below,
}
use player_trace_sdk.Worker.Core.{retry_front_ordinal}
use player_trace_sdk.Queue.{front_ordinal}
use player_trace_sdk.Store.Interface.{rows_up_to}
use player_trace_sdk.Examples.Sample.{client, env, event}

-- The marker and the table.
abbrev pub Disk : Type 0
Disk = Bool × List StoredRecord

abbrev pub row : StoredRecord
row = record {
  event_id = 9 ∷ [];
  session_id = 7 ∷ [];
  sequence = 0;
  ordinal = 1;
  created_ms = pos 0;
  payload = codes "{}";
}

abbrev pub serialized : StoredRecord → SerializedEvent
serialized r = record { event_id = r.event_id; json = r.payload }

abbrev pub markers : RevocationStore Disk
markers = record {
  mark_revocation_pending = λ s. (ok, (true, s.1));
  purge_and_clear_revocation = λ s. (ok, (false, []));
  pending = λ s. s.1;
  marked = λ s. s.0;
  mark_ok = λ s h. (refl, refl);
  mark_failed = λ s h. absurd (h refl);
  purge_ok = λ s h. (refl, refl);
  purge_failed = λ s h. absurd (h refl);
}

-- An acknowledgment takes rows off the front, which are the ones delivered.
abbrev pub acknowledge : List Bytes → Disk → Status × Disk
acknowledge ids s =
    if leb (length ids) (length s.1) then (ok, (s.0, drop (length ids) s.1)) else (storage_error, s)

pub acknowledge-counts :
    (ids : List Bytes) (s : Disk)
    → (acknowledge ids s).0 ≡ ok
    → length ids + length (acknowledge ids s).1.1 ≤ length s.1
acknowledge-counts ids s h = ground (arith, length-drop (length ids) s.1)

pub acknowledge-shrinks :
    (ids : List Bytes) (s : Disk) → length (acknowledge ids s).1.1 ≤ length s.1
acknowledge-shrinks ids s = ground (arith, length-drop (length ids) s.1)

abbrev pub table : EventStore Disk
table = record {
  revocation = markers;
  insert = λ records s. (ok, (s.0, insert_or_ignore records s.1));
  fetch_pending = λ limit s.
      (record { status = ok; events = map serialized (take limit s.1); quarantined = 0 }, s);
  acknowledge = acknowledge;
  count = λ s. (ok, length s.1);
  count_up_to = λ barrier s. (ok, rows_up_to barrier s.1);
  in_transaction = λ s. false;
  counted_up_to = λ barrier s out h. refl;
  insert_ok = λ records s h. refl;
  insert_failed = λ records s h. absurd (h refl);
  fetched = λ limit s. omega arith;
  acknowledged = acknowledge-counts;
  not_acknowledged = λ ids s h. acknowledge-shrinks ids s;
}

abbrev pub serialize : Event → Status × Bytes
serialize e = (ok, e.name)

-- One event queued, one stored, one in the worker's hand: three are counted.
abbrev pub worker : Shared
worker = record client.shared { pipeline = record client.shared.pipeline { outstanding = 3 } }

abbrev pub disk : Disk
disk = (false, row ∷ [])

abbrev alone : Shared × Disk → Shared × Disk
alone x = x

-- A sink that takes everything.
abbrev pub accept : Sink (List SerializedEvent)
accept batch k = (some ok, k ++ batch)

abbrev quiet : Shared × Disk × List SerializedEvent → Shared × Disk × List SerializedEvent
quiet x = x

delivered : (deliver_round table accept quiet quiet (worker, disk, [])).0 ≡ true
unfolding deliver_round write_batch note_fetch safe_write acknowledge_batch
delivered = refl

abbrev barrier : ℕ
barrier = 2

-- An event past the barrier is queued; nothing up to it is left.
abbrev pub later : Shared
later = record worker {
  pipeline = record worker.pipeline {
    queue = record worker.pipeline.queue { queue = event 3 ∷ [] };
  };
}

passed : (conclude_pass table barrier (some ok) (later, (false, []))).0 ≡ ok
unfolding conclude_pass pass_outcome safe_flush_sink work_remains_at_or_below front_ordinal
    retry_front_ordinal rows_up_to
passed = refl

-- Consent is withdrawn and given again, and a session begins, while the worker holds a batch.
abbrev regrant : Shared × Disk → Shared × Disk
regrant (p, s) =
    let (_, im1, s1) = set_consent markers (λ x. x) (λ x. x) denied (with_shared p client, s) in
    let (_, im2, s2) = set_consent markers (λ x. x) (λ x. x) granted (im1, s1) in
    ((start_session env (λ x. x) (λ x. x) [] im2).1.shared, s2)

-- The batch is discarded, and its place released a second time: an event is queued, and none counted.
undercounted :
    (length
        (process_incoming table serialize regrant
          (event 3 ∷ [])
          (worker, disk)).0.pipeline.queue.queue
      ≡ 1)
    × ((process_incoming table serialize regrant
          (event 3 ∷ [])
          (worker, disk)).0.pipeline.outstanding
        ≡ 0)
unfolding process_incoming start_session set_consent take_retry forget_errors discard_in_flight
    process_batch screen commit_batch discard validate_player_id is_valid_utf8 grant_consent
    run_purge close_consent discard_queued terminal_locked open_session begin replace_session
    admit_locked publish queued_event deactivate next save clear full try_push
    bump_consent_generation set_consent_state reset_outstanding release_outstanding add_outstanding
    count_accepted count_discarded_consent Session.begin
undercounted = (refl, refl)
