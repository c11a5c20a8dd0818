-- ===== src/Client/Sessions/Replace.antt =====
-- The two markers of start_session (src/client.cpp), and what the worker may do beside them.
use player_trace_sdk.Base.Int.{◌-ℤ◌}
use player_trace_sdk.Queue.{EventQueue}
use player_trace_sdk.Base.{
  ℕ, suc, ◌+◌, ◌≤◌, ◌<◌, ◌≡◌, ◌≢◌, refl, ◌∙◌, ◌⊎◌, inl, inr, Bool, true, false, [], ◌∷◌, ◌++◌,
  length, length-append, arith, if◌then◌else◌, Bool-cases, ap,
}
use player_trace_sdk.Base.Words.{u64_mod}
use player_trace_sdk.Types.{Status, ok, is_ok, Bytes, Properties, double, is_granted, QueuedEvent}
use player_trace_sdk.Session
use player_trace_sdk.Session.{SessionManager}
use player_trace_sdk.Client.State.{Environment, Impl, is_running, with_session, terminal_locked}
use player_trace_sdk.Client.Admission.{admit_locked, queued_event}
use player_trace_sdk.Client.Admission.Accept.{
  IsOpen, Admits, SameState, assigned, admit_locked_cases,
}
use player_trace_sdk.Client.Sessions.{
  session_start, session_end, session_seconds, tick, end_session_locked, begin, open_session,
}

-- What the worker may do to the client's state while the client holds its lock: take events off the
-- front of the queue, release capacity, and die. It changes neither the session, nor consent, nor
-- what only the client writes.
pub record WorkerStep (before after : Impl) : Type 0 where
  pub session_kept : after.session ≡ before.session
  pub lifecycle_kept : after.lifecycle ≡ before.lifecycle
  pub ordinal_kept : after.ordinal ≡ before.ordinal
  pub cap_kept : after.max_pending_events ≡ before.max_pending_events
  pub consent_kept : after.pipeline.consent ≡ before.pipeline.consent
  pub capacity_kept : after.pipeline.queue.capacity ≡ before.pipeline.queue.capacity
  pub queue_shrinks : length after.pipeline.queue.queue ≤ length before.pipeline.queue.queue
  pub outstanding_shrinks : after.pipeline.outstanding ≤ before.pipeline.outstanding

abbrev pub IsWorker : (Impl → Impl) → Type 0
IsWorker w = (im : Impl) → WorkerStep im (w im)

-- Room for `n` events, in memory and in the durable cap, in a client that admits.
pub record HasRoom (n : ℕ) (im : Impl) : Type 0 where
  pub up : is_running im.lifecycle ≡ true
  pub allowed : is_granted im.pipeline.consent ≡ true
  pub in_queue : length im.pipeline.queue.queue + n ≤ im.pipeline.queue.capacity
  pub in_store : im.pipeline.outstanding + n ≤ im.max_pending_events
  pub small : im.max_pending_events + 2 < u64_mod

pub HasRoom-WorkerStep : (n : ℕ) (a b : Impl) → WorkerStep a b → HasRoom n a → HasRoom n b
HasRoom-WorkerStep n a b w h = record {
  up = ground arith;
  allowed = ground arith;
  in_queue = ground arith;
  in_store = ground arith;
  small = ground arith;
}

Admits-length :
    (env : Environment) (name : Bytes) (properties : Properties) (before after : Impl)
    → Admits env name properties before after
    → (length after.pipeline.queue.queue ≡ length before.pipeline.queue.queue + 1)
      × (after.pipeline.queue.capacity ≡ before.pipeline.queue.capacity)
Admits-length env name properties before after a =
    let e = queued_event env name properties (assigned before.session) before in
    (
      ap length a.queued ∙ length-append before.pipeline.queue.queue (e ∷ []),
      ap (λ (q : EventQueue). q.capacity) a.same_capacity,
    )

-- With room and a session, only a dead worker is a reason to refuse.
module _ (env : Environment) (name : Bytes) (properties : Properties) (n : ℕ) (im : Impl)
    (room : HasRoom (suc n) im) (active : im.session.active ≡ true) where
  pub IsOpen-or_dead : IsOpen im ⊎ (im.pipeline.terminated ≡ true)
  IsOpen-or_dead = elim (Bool-cases im.pipeline.terminated) [
    | inl dead ↦ inr dead
    | inr alive ↦ inl (record {
      alive = unfold terminal_locked in ground arith;
      running_now = room.up;
      consented = room.allowed;
      in_session = active;
      storable = let s = room.in_store in omega arith;
      room = let s = room.in_queue in omega arith;
    })
  ]

  abbrev pub admission : Status × Impl
  admission = admit_locked env name properties im

  pub admit_room :
      ((admission.0 ≡ ok)
        × Admits env name properties im admission.1
        × HasRoom n admission.1
        × (admission.1.pipeline.terminated ≡ false))
      ⊎ ((admission.0 ≢ ok) × SameState im admission.1 × (im.pipeline.terminated ≡ true))
  admit_room =
      elim (admit_locked_cases env name properties im (let s = room.small in omega arith)) [
        | inl (o, e, a) ↦ inl (
          e,
          a,
          record {
            up = ground arith;
            allowed = ground arith;
            in_queue =
                omega (arith, Admits-length env name properties im admission.1 a, room.in_queue);
            in_store = ground arith;
            small = ground arith;
          },
          unfold terminal_locked in ground arith,
        )
        | inr (c, r, s) ↦ elim IsOpen-or_dead [
          | inl o ↦ absurd (c o)
          | inr dead ↦ inr (r.0, s, dead)
        ]
      ]

-- end_session_locked with an active session is its admission, and then the end of the session.
module _ (env : Environment) (im : Impl) (active : im.session.active ≡ true) where
  abbrev pub end_properties : Properties
  end_properties =
      (session_seconds, double (env.seconds (env.now im.times_taken -ℤ im.session.started_ms))) ∷ []

  abbrev pub end_marker : Status × Impl
  end_marker = admit_locked env session_end end_properties (tick im)

  pub end_session_locked-active : end_session_locked env im ≡ (
      if is_ok end_marker.0
      then (ok, with_session (record end_marker.1.session { active = false }) end_marker.1)
      else end_marker)
  unfolding end_session_locked Session.peek_duration Session.end
  end_session_locked-active = ground arith

-- The new session is open, and its marker is the last event of the queue, numbered 0.
pub record Opens (env : Environment) (player : Bytes) (before after : Impl) : Type 0 where
  pub opened : after.session ≡ record {
    active = true;
    session_id = env.uuid before.ids_taken;
    player_id = player;
    sequence = 1;
    started_ms = env.now before.times_taken;
  }
  pub marked :
      (e : QueuedEvent) × (after.pipeline.queue.queue ≡ before.pipeline.queue.queue ++ e ∷ [])
      × (e.event.name ≡ session_start)
      × (e.event.sequence ≡ 0)
      × (e.event.session_id ≡ env.uuid before.ids_taken)

-- No session is opened, and no event of this step is admitted.
pub record Declines (session : SessionManager) (before after : Impl) : Type 0 where
  pub session_is : after.session ≡ session
  pub ordinal_is : after.ordinal ≡ before.ordinal
  pub terminated_is : after.pipeline.terminated ≡ before.pipeline.terminated
  pub queue_is : after.pipeline.queue ≡ before.pipeline.queue

module _ (env : Environment) (player : Bytes) (replacing : Bool) (previous : SessionManager)
    (im : Impl) (small : im.max_pending_events + 2 < u64_mod) where
  abbrev pub left_session : SessionManager → SessionManager
  left_session s = if replacing then Session.deactivate s else previous

  abbrev pub begun : SessionManager
  begun = record {
    active = true;
    session_id = env.uuid im.ids_taken;
    player_id = player;
    sequence = 0;
    started_ms = env.now im.times_taken;
  }

  pub open_session_cases :
      let r = open_session env player replacing previous im in
      ((r.0 ≡ ok) × Opens env player im r.1)
      ⊎ ((r.0 ≢ ok) × Declines (left_session begun) im r.1 × (¬ IsOpen (begin env player im)))
  unfolding open_session begin Session.begin Session.restore Session.deactivate queued_event
  open_session_cases =
      elim (admit_locked_cases env session_start [] (begin env player im) (omega arith)) [
        | inl (o, e, a) ↦ inl (
          ground arith,
          record {
            opened = ground arith;
            marked = (
              queued_event env session_start [] (assigned begun) (begin env player im),
              ground arith,
              refl,
              refl,
              refl,
            );
          },
        )
        | inr (c, r, s) ↦ inr (
          ground arith,
          record {
            session_is = ground arith;
            ordinal_is = ground arith;
            terminated_is = ground arith;
            queue_is = ground arith;
          },
          c,
        )
      ]
