-- ===== src/Worker/Delivery.antt =====
-- deliver_all and safe_write of src/worker.cpp, over the store's interface and a sink.
--
-- `write` is the user's sink with a state of its own: it answers with a status, or throws (`none`). What
-- other threads do between the fetch and the second look at consent is the argument `between`, and what they do while the sink
-- writes is the argument `during`.
pub mod Progress
use player_trace_sdk.Base.{
  ℕ, zero, suc, Bool, true, false, not, ◌||◌, List, [], ◌∷◌, map, length, ltb, Option, none, some,
  ◌==◌, if◌then◌else◌,
}
use player_trace_sdk.Types.{Status, ok, is_ok, sink_error, is_granted, Bytes, SerializedEvent}
use player_trace_sdk.Validator.Keys.{is_empty}
use player_trace_sdk.Pipeline
use player_trace_sdk.Pipeline.{Pipeline}
use player_trace_sdk.Worker.Core.{WorkerCore, Shared, note_error}
use player_trace_sdk.Worker.Processing.{with_pipeline, purge_store}
use player_trace_sdk.Store.Interface.{StoredRecord, EventStore, FetchResult}

abbrev pub Sink : Type 0 → Type 0
Sink K = List SerializedEvent → K → Option Status × K

-- A sink that throws has failed.
unfoldable pub safe_write : {K : Type 0} → Sink K → List SerializedEvent → K → Status × K
safe_write write batch k =
    let (answer, k') = write batch k in
    (elim answer [ none ↦ sink_error | some status ↦ status ], k')

-- Capacity of rows that the fetch removed, and its error.
unfoldable pub note_fetch : FetchResult → Shared → Shared
note_fetch fetched p =
    let freed =
      if ltb 0 fetched.quarantined
      then with_pipeline
          (Pipeline.count_dropped_invalid fetched.quarantined
            (Pipeline.release_outstanding fetched.quarantined p.pipeline))
          p
      else p in
    if not (is_ok fetched.status) then note_error fetched.status freed else freed

module _ {S K : Type 0} (store : EventStore S) (write : Sink K)
    (between during : Shared × S × K → Shared × S × K) where
  open store use {fetch_pending, acknowledge}

  abbrev pub purged : Shared × S × K → Shared × S × K
  purged (p, s, k) = let (p', s') = purge_store store (p, s) in (p', s', k)

  -- From the acknowledgment to the end of a round: does the loop go on?
  unfoldable pub acknowledge_batch : List SerializedEvent → Shared × S × K → Bool × (Shared × S × K)
  acknowledge_batch events (p, s, k) =
      let (ack, s') = acknowledge (map (λ e. e.event_id) events) s in
      if not (is_ok ack) then (false, (note_error ack p, s', k)) else (
        true,
        (
          with_pipeline
              (Pipeline.release_outstanding (length events)
                (Pipeline.count_delivered (length events) p.pipeline))
              p,
          s',
          k,
        ),
      )

  -- From the second look at consent on.
  unfoldable pub write_batch : List SerializedEvent → Shared × S × K → Bool × (Shared × S × K)
  write_batch events (p, s, k) =
      if not (is_granted p.pipeline.consent)
      then (false, purged (p, s, k))
      else let (written, k') = safe_write write events k in
        let (p', s', k'') = during (p, s, k') in
        if not (is_ok written)
        then (
          false,
          (
            with_pipeline (Pipeline.count_delivery_failures 1 (note_error written p').pipeline)
                (note_error written p'),
            s',
            k'',
          ),
        )
        else if not (is_granted p'.pipeline.consent)
            || not (p'.pipeline.consent_generation == p.pipeline.consent_generation)
        then (false, purged (p', s', k''))
        else acknowledge_batch events (p', s', k'')

  -- One round of the loop.
  unfoldable pub deliver_round : Shared × S × K → Bool × (Shared × S × K)
  deliver_round (p, s, k) =
      if not (is_granted p.pipeline.consent)
      then (false, purged (p, s, k))
      else let (fetched, s') = fetch_pending p.pipeline.config.batch_size s in
        let noted = note_fetch fetched p in
        if is_empty fetched.events
        then (false, (noted, s', k))
        else write_batch fetched.events (between (noted, s', k))

  -- The loop, on fuel: `none` where the fuel runs out. The flag says whether a batch was delivered.
  unfoldable pub deliver_all : ℕ → Bool → Shared × S × K → Option (Bool × (Shared × S × K))
  deliver_all zero delivered_any st = none
  deliver_all (suc fuel) delivered_any st =
      let (again, st') = deliver_round st in
      let rest = deliver_all fuel true st' in if again then rest else some (delivered_any, st')
