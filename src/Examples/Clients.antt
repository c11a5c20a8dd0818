-- ===== src/Examples/Clients.antt =====
-- The client: admission, sessions, tracking and consent.
use player_trace_sdk.Base.Words.{add64}
use player_trace_sdk.Base.{
  ◌≡◌, ◌≢◌, ◌⊎◌, inl, refl, true, false, List, [], ◌∷◌, none, some, arith, bytes_eq, codes, Bool,
}
use player_trace_sdk.Base.Int.{pos}
use player_trace_sdk.Types.{Status, ok, storage_error, denied, granted, bool}
use player_trace_sdk.Validator.Utf8.{is_valid_utf8}
use player_trace_sdk.Validator.Keys.{
  is_first_char, is_rest_char, all_rest, validate_identifier, validate_name, validate_player_id,
  contains, has_pt_prefix, is_reserved_key,
}
use player_trace_sdk.Validator.Keys.Laws.{IsIdentifier}
use player_trace_sdk.Validator.Properties.{check_value, check_properties, validate_properties}
use player_trace_sdk.Validator.Properties.Laws.{IsPropertyMap}
use player_trace_sdk.Queue
use player_trace_sdk.Session
use player_trace_sdk.Pipeline
use player_trace_sdk.Config.{PropertyFilter}
use player_trace_sdk.Store.Interface.{RevocationStore, StoredRecord}
use player_trace_sdk.Client.State.{Impl, terminal_locked, with_pipeline}
use player_trace_sdk.Client.Admission.{queued_event, publish, admit_locked, reserve_locked}
use player_trace_sdk.Client.Admission.Accept.{
  IsOpen, Admits, Refuses, SameState, admit_locked_cases,
}
use player_trace_sdk.Client.Admission.Invariant.{IsValid, admit_locked-IsValid}
use player_trace_sdk.Client.Sessions.{
  start_session, replace_session, end_session_locked, open_session, begin,
}
use player_trace_sdk.Client.Sessions.Replace.{IsWorker}
use player_trace_sdk.Client.Sessions.Atomic.{Opened, Untouched, Torn, start_session_cases}
use player_trace_sdk.Client.Track.{apply_filter, track}
use player_trace_sdk.Client.Track.Accepted.{track-ok}
use player_trace_sdk.Client.Consent.{set_consent}
use player_trace_sdk.Client.Consent.Revoke.{
  IsConcurrent, IsClosed, IsPurged, set_consent_revoke, set_consent_grant,
}
use player_trace_sdk.Examples.Sample.{client, env, level_started, properties, limits}

client-IsValid : IsValid client
client-IsValid = record {
  bounded = omega arith;
  capped = omega arith;
  small_cap = omega arith;
  ordered = omega arith;
  current = (refl, tt);
  consented = λ _. refl;
  session_consented = λ _. refl;
}

abbrev Admission : Type 0
Admission =
    (IsOpen client
      × ((admit_locked env level_started properties client).0 ≡ ok)
      × Admits env level_started properties client
          (admit_locked env level_started properties client).1)
    ⊎ ((¬ IsOpen client)
        × Refuses client (admit_locked env level_started properties client).0
        × SameState client (admit_locked env level_started properties client).1)

admit_locked_cases_example : Admission
admit_locked_cases_example = admit_locked_cases env level_started properties client (omega arith)

admit_locked-IsValid_example : IsValid (admit_locked env level_started properties client).1
admit_locked-IsValid_example =
    admit_locked-IsValid env level_started properties client (omega arith) client-IsValid

-- A worker that does nothing, and one that dies.
abbrev idle : Impl → Impl
idle im = im

idle-IsWorker : IsWorker idle
idle-IsWorker im = record {
  session_kept = refl;
  lifecycle_kept = refl;
  ordinal_kept = refl;
  cap_kept = refl;
  consent_kept = refl;
  capacity_kept = refl;
  queue_shrinks = omega arith;
  outstanding_shrinks = omega arith;
}

abbrev dies : Impl → Impl
dies im = with_pipeline (Pipeline.set_terminated im.pipeline) im

dies-IsWorker : IsWorker dies
unfolding Pipeline.set_terminated
dies-IsWorker im = record {
  session_kept = refl;
  lifecycle_kept = refl;
  ordinal_kept = refl;
  cap_kept = refl;
  consent_kept = refl;
  capacity_kept = refl;
  queue_shrinks = omega arith;
  outstanding_shrinks = omega arith;
}

abbrev restarted : Status × Impl
restarted = start_session env idle dies (codes "p2") client

start_session_cases_example :
    ((restarted.0 ≡ ok) × Opened env (codes "p2") restarted.1)
    ⊎ ((restarted.0 ≢ ok) × Untouched client restarted.1)
    ⊎ ((restarted.0 ≢ ok) × Torn dies client restarted.1)
start_session_cases_example =
    start_session_cases env idle dies idle-IsWorker dies-IsWorker (codes "p2") client client-IsValid

abbrev reopened : Status × Impl
reopened = start_session env idle idle (codes "p2") client

-- The torn replacement does occur: the worker dies between the two markers.
torn_restart : (restarted.0 ≢ ok) × (restarted.1.session.active ≡ false) × (restarted.1.ordinal ≡ 2)
unfolding start_session validate_player_id is_valid_utf8 terminal_locked reserve_locked
    Queue.has_room_for replace_session Session.save end_session_locked Session.peek_duration
    Session.end open_session begin Session.begin Session.deactivate Pipeline.set_terminated
    admit_locked Queue.full Session.next publish Queue.try_push Pipeline.add_outstanding
    Pipeline.count_accepted queued_event
torn_restart = (λ e. cc, refl, refl)

abbrev secrets : PropertyFilter
secrets key (bool b) = none
secrets key value = some true

abbrev tracked : Status × Impl
tracked = track env idle level_started properties client

tracked-ok : tracked.0 ≡ ok
unfolding track validate_name validate_identifier all_rest is_rest_char is_first_char
    validate_properties check_properties check_value is_reserved_key contains has_pt_prefix
    is_valid_utf8 apply_filter admit_locked terminal_locked Queue.full Session.next publish
    Queue.try_push Pipeline.add_outstanding Pipeline.count_accepted queued_event bytes_eq
tracked-ok = refl

track-ok_example :
    IsIdentifier limits level_started
    × IsPropertyMap limits properties
    × (0 ≡ client.pipeline.consent_generation)
    × IsOpen client
    × Admits env level_started (apply_filter none properties) client tracked.1
track-ok_example =
    track-ok env idle level_started properties client (omega arith) client-IsValid tracked-ok

-- A store in memory, whose purge works or fails.
abbrev Disk : Type 0
Disk = Bool × List StoredRecord

abbrev working : RevocationStore Disk
working = record {
  mark_revocation_pending = λ s. (ok, (true, s.1));
  purge_and_clear_revocation = λ s. (ok, (false, []));
  pending = λ s. s.1;
  marked = λ s. s.0;
  mark_ok = λ s h. (refl, refl);
  mark_failed = λ s h. absurd (h refl);
  purge_ok = λ s h. (refl, refl);
  purge_failed = λ s h. absurd (h refl);
}

unequal : storage_error ≢ ok
unequal h = cc

abbrev broken : RevocationStore Disk
broken = record {
  mark_revocation_pending = λ s. (ok, (true, s.1));
  purge_and_clear_revocation = λ s. (storage_error, s);
  pending = λ s. s.1;
  marked = λ s. s.0;
  mark_ok = λ s h. (refl, refl);
  mark_failed = λ s h. absurd (h refl);
  purge_ok = λ s h. absurd (unequal h);
  purge_failed = λ s h. (refl, refl);
}

abbrev row : StoredRecord
row = record {
  event_id = 1 ∷ [];
  session_id = 7 ∷ [];
  sequence = 0;
  ordinal = 1;
  created_ms = pos 0;
  payload = codes "{}";
}

abbrev disk : Disk
disk = (false, row ∷ [])

abbrev alone : Impl × Disk → Impl × Disk
alone a = a

alone-IsConcurrent : (store : RevocationStore Disk) → IsConcurrent store alone
alone-IsConcurrent store a = record {
  consent_kept = refl;
  generation_kept = refl;
  session_kept = refl;
  purge_kept = refl;
  queue_kept = λ e. e;
  debt_kept = λ e. inl e;
}

abbrev revocation : Status × Impl × Disk
revocation = set_consent working alone alone denied (client, disk)

set_consent_revoke_example :
    IsClosed denied (add64 0 1) revocation.1
    × (((revocation.0 ≡ ok) × IsPurged working revocation.1 revocation.2)
        ⊎ ((revocation.0 ≡ storage_error)
            × (revocation.1.purge_required ≡ true)
            × ((ok ≢ ok) ⊎ (revocation.2.0 ≡ true) ⊎ (revocation.2.1 ≡ []))))
set_consent_revoke_example =
    set_consent_revoke working alone alone denied client disk (alone-IsConcurrent working)
      (alone-IsConcurrent working) refl

abbrev indebted : Impl
indebted = record client { purge_required = true }

abbrev regrant : Status × Impl × Disk
regrant = set_consent broken alone alone granted (indebted, disk)

set_consent_grant_example :
    ((regrant.0 ≡ ok)
      × (regrant.1.pipeline.consent ≡ granted)
      × IsPurged broken regrant.1 regrant.2)
    ⊎ ((regrant.0 ≡ storage_error)
        × (regrant.1.pipeline.consent ≡ granted)
        × (regrant.1.purge_required ≡ true))
set_consent_grant_example =
    set_consent_grant broken alone alone indebted disk (alone-IsConcurrent broken) refl
