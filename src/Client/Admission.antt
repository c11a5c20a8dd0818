-- ===== src/Client/Admission.antt =====
-- reserve_locked and admit_locked of src/client.cpp.
--
-- Both run under admission_mutex_. The worker, which does not take it, may free capacity at any time
-- meanwhile; here each is one step.
pub mod Accept
pub mod Invariant
use player_trace_sdk.Base.{
  ℕ, suc, ◌+◌, Bool, true, false, not, Option, none, some, ltb, leb, if◌then◌else◌,
}
use player_trace_sdk.Base.Words.{add64}
use player_trace_sdk.Types.{
  Status, ok, is_ok, already_shutdown, consent_denied, not_started, storage_full, queue_full, Bytes,
  Properties, QueuedEvent, is_granted, event_schema_version,
}
use player_trace_sdk.Queue
use player_trace_sdk.Session
use player_trace_sdk.Session.{Assigned}
use player_trace_sdk.Pipeline
use player_trace_sdk.Pipeline.{Pipeline}
use player_trace_sdk.Client.State.{
  Environment, Impl, is_running, with_pipeline, with_session, terminal_locked,
}

unfoldable pub reserve_locked : ℕ → Impl → Status × Impl
reserve_locked count im =
    if ltb im.max_pending_events (add64 im.pipeline.outstanding count)
    then (storage_full, with_pipeline (Pipeline.count_dropped_storage_full 1 im.pipeline) im)
    else if not (Queue.has_room_for count im.pipeline.queue)
    then (queue_full, with_pipeline (Pipeline.count_dropped_queue_full 1 im.pipeline) im)
    else (ok, im)

module _ (env : Environment) where
  -- The event as it is built from an assigned sequence number.
  unfoldable pub queued_event : Bytes → Properties → Assigned → Impl → QueuedEvent
  queued_event name properties a im = record {
    event = record {
      event_id = env.uuid im.ids_taken;
      app_id = im.pipeline.config.app_id;
      name = name;
      schema_version = event_schema_version;
      timestamp_ms = env.now im.times_taken;
      session_id = a.session_id;
      player_id = a.player_id;
      sequence = a.sequence;
      properties = properties;
    };
    ordinal = add64 im.ordinal 1;
    consent_generation = im.pipeline.consent_generation;
  }

  -- From `qe.event.event_id = ...` to the end of admit_locked.
  unfoldable pub publish : Bytes → Properties → Assigned → Impl → Status × Impl
  publish name properties a im =
      let qe = queued_event name properties a im in
      let built = record im {
        ordinal = add64 im.ordinal 1;
        ids_taken = suc im.ids_taken;
        times_taken = suc im.times_taken;
      } in
      let reserved = Pipeline.add_outstanding 1 built.pipeline in
      let (pushed, queue) = Queue.try_push qe reserved.queue in
      if not pushed
      then (
        queue_full,
        with_session (Session.rollback a.session_id a.sequence built.session) (
            with_pipeline
              (Pipeline.count_dropped_queue_full 1 (Pipeline.release_outstanding 1 reserved))
              built),
      )
      else (ok, with_pipeline (Pipeline.count_accepted 1 (record reserved { queue = queue })) built)

  unfoldable pub admit_locked : Bytes → Properties → Impl → Status × Impl
  admit_locked name properties im =
      let terminal = terminal_locked im in
      if not (is_ok terminal)
      then (terminal, im)
      else if not (is_running im.lifecycle)
      then (already_shutdown, im)
      else if not (is_granted im.pipeline.consent)
      then (consent_denied, im)
      else if not im.session.active
      then (not_started, im)
      else if leb im.max_pending_events im.pipeline.outstanding
      then (storage_full, with_pipeline (Pipeline.count_dropped_storage_full 1 im.pipeline) im)
      else if Queue.full im.pipeline.queue
      then (queue_full, with_pipeline (Pipeline.count_dropped_queue_full 1 im.pipeline) im)
      else let (assigned, session) = Session.next im.session in
        elim assigned [
          | none ↦ (not_started, im)
          | some a ↦ publish name properties a (with_session session im)
        ]
