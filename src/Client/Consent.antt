-- ===== src/Client/Consent.antt =====
-- run_purge and set_consent of src/client.cpp.
--
-- consent_mutex_ orders the transitions. The worker may act on the store and on the shared state
-- whenever neither the admission lock nor the store's lock is held: its part before the marker is
-- written is the argument `w1`, and its part between the marker and the purge `w2`.
pub mod Revoke
use player_trace_sdk.Base.{ℕ, Bool, true, false, not, length, ltb, if◌then◌else◌}
use player_trace_sdk.Types.{Status, ok, is_ok, storage_error, ConsentState, granted, is_granted}
use player_trace_sdk.Queue
use player_trace_sdk.Session
use player_trace_sdk.Pipeline
use player_trace_sdk.Pipeline.{Pipeline}
use player_trace_sdk.Worker.Core
use player_trace_sdk.Store.Interface.{RevocationStore}
use player_trace_sdk.Client.State.{Impl, with_pipeline, with_session}

abbrev pub reported : Status → Impl → Impl
reported status im = with_pipeline (Pipeline.report_error status im.pipeline) im

-- `if (dropped > 0)` the dropped events are counted and their capacity is released.
unfoldable pub discard_queued : Pipeline → Pipeline
discard_queued p =
    let (dropped, queue) = Queue.clear p.queue in
    let cleared = record p { queue = queue } in
    if ltb 0 dropped
    then Pipeline.release_outstanding dropped (Pipeline.count_discarded_consent dropped cleared)
    else cleared

-- The block of set_consent under the admission lock, where consent is taken away.
unfoldable pub close_consent : ConsentState → Impl → Impl
close_consent state im =
    let p =
      discard_queued
        (Pipeline.bump_consent_generation (Pipeline.set_consent_state state im.pipeline)) in
    let closed = record im {
      session = Session.deactivate im.session;
      purge_required = true;
      shared = record im.shared { pipeline = p };
    } in
    record closed { shared = Core.forget_errors (Core.discard_in_flight closed.shared) }

module _ {S : Type 0} (store : RevocationStore S) where
  open store use {mark_revocation_pending, purge_and_clear_revocation}

  unfoldable pub run_purge : (Impl × S → Impl × S) → Impl × S → Status × Impl × S
  run_purge w2 (im, s) =
      let (marked, s1) = mark_revocation_pending s in
      if not (is_ok marked)
      then (storage_error, reported marked im, s1)
      else let (im2, s2) = w2 (im, s1) in
        let (purged, s3) = purge_and_clear_revocation s2 in
        if not (is_ok purged) then (storage_error, reported purged im2, s3) else (
          ok,
          with_pipeline (Pipeline.reset_outstanding 0 im2.pipeline)
              (record im2 { purge_required = false }),
          s3,
        )

  -- Consent is given: never while a purge is owed.
  unfoldable pub grant_consent : (Impl × S → Impl × S) → Impl × S → Status × Impl × S
  grant_consent w2 (im, s) =
      let (retried, im', s') = if im.purge_required then run_purge w2 (im, s) else (ok, im, s) in
      if not (is_ok retried)
      then (storage_error, im', s')
      else (ok, with_pipeline (Pipeline.set_consent_state granted im'.pipeline) im', s')

  unfoldable pub set_consent :
      (Impl × S → Impl × S) → (Impl × S → Impl × S) → ConsentState → Impl × S → Status × Impl × S
  set_consent w1 w2 state (im, s) =
      if is_granted state
      then grant_consent w2 (im, s)
      else run_purge w2 (w1 (close_consent state im, s))
