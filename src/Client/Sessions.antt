-- ===== src/Client/Sessions.antt =====
-- start_session, end_session and end_session_locked of src/client.cpp.
--
-- The worker runs beside start_session and does not take its lock. What it does between the
-- reservation and the first marker is the argument `w1`, and what it does between the markers `w2`.
pub mod Replace
pub mod Atomic
use player_trace_sdk.Base.{
  ℕ, suc, ◌+◌, Bool, true, false, not, List, [], ◌∷◌, Option, none, some, codes, if◌then◌else◌,
}
use player_trace_sdk.Types.{
  Status, ok, is_ok, already_shutdown, consent_denied, not_started, Bytes, double, Properties,
  is_granted,
}
use player_trace_sdk.Validator.Keys.{validate_player_id}
use player_trace_sdk.Session
use player_trace_sdk.Client.State.{Environment, Impl, is_running, with_session, terminal_locked}
use player_trace_sdk.Client.Admission.{reserve_locked, admit_locked}

abbrev pub session_start : Bytes
session_start = codes "session_start"

abbrev pub session_end : Bytes
session_end = codes "session_end"

abbrev pub session_seconds : Bytes
session_seconds = codes "session_seconds"

-- The clock is read once.
abbrev pub tick : Impl → Impl
tick im = record im { times_taken = suc im.times_taken }

module _ (env : Environment) where
  -- `end(nullptr)` reads no clock.
  unfoldable pub end_session_locked : Impl → Status × Impl
  end_session_locked im = elim (Session.peek_duration (env.now im.times_taken) im.session) [
    | none ↦ (not_started, im)
    | some duration_ms ↦
        let props = (session_seconds, double (env.seconds duration_ms)) ∷ [] in
        let (marker, admitted) = admit_locked env session_end props (tick im) in
        if not (is_ok marker) then (marker, admitted) else (
          ok,
          with_session (Session.end (env.now admitted.times_taken) admitted.session).1 admitted,
        )
  ]

  unfoldable pub end_session : Impl → Status × Impl
  end_session im =
      if not (is_running im.lifecycle)
      then (already_shutdown, im)
      else let terminal = terminal_locked im in
        if not (is_ok terminal) then (terminal, im) else end_session_locked im

  -- session_.begin(player_id), with its id and its time from the environment.
  unfoldable pub begin : Bytes → Impl → Impl
  begin player_id im = record im {
    session = Session.begin (env.uuid im.ids_taken) (env.now im.times_taken) player_id im.session;
    ids_taken = suc im.ids_taken;
    times_taken = suc im.times_taken;
  }

  -- From session_.begin to the end of start_session.
  unfoldable pub open_session : Bytes → Bool → Session.Snapshot → Impl → Status × Impl
  open_session player_id replacing previous im =
      let (marker, admitted) = admit_locked env session_start [] (begin player_id im) in
      if not (is_ok marker)
      then (
        marker,
        with_session
            (if replacing
              then Session.deactivate admitted.session
              else Session.restore previous admitted.session)
            admitted,
      )
      else (ok, admitted)

  -- From session_.save to the end of start_session, where a session is active.
  unfoldable pub replace_session : (Impl → Impl) → Bytes → Impl → Status × Impl
  replace_session w2 player_id im =
      let previous = Session.save im.session in
      let (ended, closed) = end_session_locked im in
      if not (is_ok ended)
      then (ended, with_session (Session.restore previous closed.session) closed)
      else open_session player_id true previous (w2 closed)

  unfoldable pub start_session : (Impl → Impl) → (Impl → Impl) → Bytes → Impl → Status × Impl
  start_session w1 w2 player_id im =
      let id_status = validate_player_id im.validator player_id in
      if not (is_ok id_status)
      then (id_status, im)
      else if not (is_running im.lifecycle)
      then (already_shutdown, im)
      else if not (is_granted im.pipeline.consent)
      then (consent_denied, im)
      else let terminal = terminal_locked im in
        if not (is_ok terminal)
        then (terminal, im)
        else if im.session.active
        then (let (reserved, counted) = reserve_locked 2 im in
            if not (is_ok reserved)
            then (reserved, counted)
            else replace_session w2 player_id (w1 counted))
        else open_session player_id false (Session.save im.session) (w1 im)
