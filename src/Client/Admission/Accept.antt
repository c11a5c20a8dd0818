-- ===== src/Client/Admission/Accept.antt =====
-- What admit_locked of src/client.cpp decides, and what it changes.
use player_trace_sdk.Base.{
  suc, refl, ◌+◌, ◌≤◌, ◌<◌, ◌≡◌, ◌≢◌, ◌⊎◌, inl, inr, Bool, true, false, [], ◌∷◌, ◌++◌, length, ltb,
  arith, Bool-cases, ◌&&◌,
}
use player_trace_sdk.Base.Words.{add64, u64_mod}
use player_trace_sdk.Types.{
  Status, ok, is_ok, already_shutdown, consent_denied, not_started, storage_full, queue_full, Bytes,
  Properties, QueuedEvent, is_granted,
}
use player_trace_sdk.Queue
use player_trace_sdk.Session
use player_trace_sdk.Session.{SessionManager, Assigned}
use player_trace_sdk.Pipeline
use player_trace_sdk.Client.State.{Environment, Impl, is_running, with_session, terminal_locked}
use player_trace_sdk.Client.Admission.{queued_event, publish, admit_locked}

-- Every gate is open.
pub record IsOpen (im : Impl) : Type 0 where
  pub alive : terminal_locked im ≡ ok
  pub running_now : is_running im.lifecycle ≡ true
  pub consented : is_granted im.pipeline.consent ≡ true
  pub in_session : im.session.active ≡ true
  pub storable : im.pipeline.outstanding < im.max_pending_events
  pub room : length im.pipeline.queue.queue < im.pipeline.queue.capacity

abbrev pub assigned : SessionManager → Assigned
assigned s = record { session_id = s.session_id; player_id = s.player_id; sequence = s.sequence }

-- The queue, the session, the counters and the lifecycle are as before; only statistics may differ.
pub record SameState (before after : Impl) : Type 0 where
  pub same_queue : after.pipeline.queue ≡ before.pipeline.queue
  pub same_session : after.session ≡ before.session
  pub same_ordinal : after.ordinal ≡ before.ordinal
  pub same_outstanding : after.pipeline.outstanding ≡ before.pipeline.outstanding
  pub same_accepted : after.pipeline.stats.accepted ≡ before.pipeline.stats.accepted
  pub same_ids : after.ids_taken ≡ before.ids_taken
  pub same_times : after.times_taken ≡ before.times_taken
  pub still_consent : after.pipeline.consent ≡ before.pipeline.consent
  pub still_generation : after.pipeline.consent_generation ≡ before.pipeline.consent_generation
  pub still_terminated : after.pipeline.terminated ≡ before.pipeline.terminated
  pub still_cap : after.max_pending_events ≡ before.max_pending_events

-- A refusal: that of the dead worker, or the code of the gate that is shut.
abbrev pub ShutGate : Impl → Status → Type 0
ShutGate im storage_full = im.max_pending_events ≤ im.pipeline.outstanding
ShutGate im queue_full = im.pipeline.queue.capacity ≤ length im.pipeline.queue.queue
ShutGate im consent_denied = is_granted im.pipeline.consent ≡ false
ShutGate im not_started = im.session.active ≡ false
ShutGate im already_shutdown = is_running im.lifecycle ≡ false
ShutGate im _ = ⊥

abbrev pub Refuses : Impl → Status → Type 0
Refuses im s =
    (s ≢ ok) × (((terminal_locked im ≡ s) × (im.pipeline.terminated ≡ true)) ⊎ ShutGate im s)

-- What the new event carries: the session's next sequence number, the next ordinal, and the consent
-- generation in force, with the session and the arguments of the call.
pub record IsTagged (env : Environment) (name : Bytes) (properties : Properties) (im : Impl)
    (e : QueuedEvent) : Type 0 where
  pub numbered : e.event.sequence ≡ im.session.sequence
  pub in_session : e.event.session_id ≡ im.session.session_id
  pub by_player : e.event.player_id ≡ im.session.player_id
  pub named : e.event.name ≡ name
  pub carries : e.event.properties ≡ properties
  pub identified : e.event.event_id ≡ env.uuid im.ids_taken
  pub timed : e.event.timestamp_ms ≡ env.now im.times_taken
  pub of_app : e.event.app_id ≡ im.pipeline.config.app_id
  pub versioned : e.event.schema_version ≡ 1
  pub next_in_order : e.ordinal ≡ add64 im.ordinal 1
  pub of_generation : e.consent_generation ≡ im.pipeline.consent_generation

-- An event was added at the end, with the next sequence number and the next ordinal.
pub record Admits (env : Environment) (name : Bytes) (properties : Properties) (before after : Impl)
    : Type 0 where
  pub queued :
      after.pipeline.queue.queue
      ≡ before.pipeline.queue.queue
        ++ queued_event env name properties (assigned before.session) before ∷ []
  pub tagged :
      IsTagged env name properties before
        (queued_event env name properties (assigned before.session) before)
  pub id_used : after.ids_taken ≡ suc before.ids_taken
  pub numbered :
      after.session ≡ record before.session { sequence = add64 before.session.sequence 1 }
  pub ordered : after.ordinal ≡ add64 before.ordinal 1
  pub counted : after.pipeline.outstanding ≡ before.pipeline.outstanding + 1
  pub accepted_one : after.pipeline.stats.accepted ≡ add64 before.pipeline.stats.accepted 1
  pub same_capacity :
      after.pipeline.queue ≡ record before.pipeline.queue { queue = after.pipeline.queue.queue }
  pub same_config : after.pipeline.config ≡ before.pipeline.config
  pub same_consent : after.pipeline.consent ≡ before.pipeline.consent
  pub same_generation : after.pipeline.consent_generation ≡ before.pipeline.consent_generation
  pub same_cap : after.max_pending_events ≡ before.max_pending_events
  pub same_lifecycle : after.lifecycle ≡ before.lifecycle
  pub same_terminated : after.pipeline.terminated ≡ before.pipeline.terminated
  pub same_core : after.core ≡ before.core

module _ (env : Environment) (name : Bytes) (properties : Properties) (im : Impl) where
  queued_event-IsTagged :
      IsTagged env name properties im (queued_event env name properties (assigned im.session) im)
  unfolding queued_event
  queued_event-IsTagged = record {
    numbered = refl;
    in_session = refl;
    by_player = refl;
    named = refl;
    carries = refl;
    identified = refl;
    timed = refl;
    of_app = refl;
    versioned = refl;
    next_in_order = refl;
    of_generation = refl;
  }

  abbrev taken : Impl
  taken = with_session (record im.session { sequence = add64 im.session.sequence 1 }) im

  admit_open :
      IsOpen im
      → admit_locked env name properties im
        ≡ publish env name properties (assigned im.session) taken
  unfolding admit_locked Queue.full Session.next
  admit_open o = ground arith

  publish_open :
      length im.pipeline.queue.queue < im.pipeline.queue.capacity
      → im.pipeline.outstanding + 1 < u64_mod
      → ((publish env name properties (assigned im.session) taken).0 ≡ ok)
        × Admits env name properties im (publish env name properties (assigned im.session) taken).1
  unfolding publish Queue.try_push Pipeline.add_outstanding Pipeline.count_accepted queued_event
  publish_open room w = (
    ground arith,
    record {
      queued = ground arith;
      tagged = queued_event-IsTagged;
      id_used = ground arith;
      numbered = ground arith;
      ordered = ground arith;
      counted = ground arith;
      accepted_one = ground arith;
      same_capacity = ground arith;
      same_config = ground arith;
      same_consent = ground arith;
      same_generation = ground arith;
      same_cap = ground arith;
      same_lifecycle = ground arith;
      same_terminated = ground arith;
      same_core = ground arith;
    },
  )

  admit_closed :
      ¬ IsOpen im
      → Refuses im (admit_locked env name properties im).0
        × SameState im (admit_locked env name properties im).1
  unfolding admit_locked Queue.full Session.next Pipeline.count_dropped_storage_full
      Pipeline.count_dropped_queue_full terminal_locked
  admit_closed c = (
    (ground arith, ground arith),
    record {
      same_queue = ground arith;
      same_session = ground arith;
      same_ordinal = ground arith;
      same_outstanding = ground arith;
      same_accepted = ground arith;
      same_ids = ground arith;
      same_times = ground arith;
      still_consent = ground arith;
      still_generation = ground arith;
      still_terminated = ground arith;
      still_cap = ground arith;
    },
  )

abbrev gates : Impl → Bool
gates im =
    is_ok (terminal_locked im)
    && is_running im.lifecycle
    && is_granted im.pipeline.consent
    && im.session.active
    && ltb im.pipeline.outstanding im.max_pending_events
    && ltb (length im.pipeline.queue.queue) im.pipeline.queue.capacity

pub IsOpen-dec : (im : Impl) → IsOpen im ⊎ (¬ IsOpen im)
IsOpen-dec im = elim (Bool-cases (gates im)) [
  | inl e ↦ inl (record {
    alive = ground arith;
    running_now = ground arith;
    consented = ground arith;
    in_session = ground arith;
    storable = ground arith;
    room = ground arith;
  })
  | inr e ↦ inr (λ o. ground arith)
]

admit_accepts :
    (env : Environment) (name : Bytes) (properties : Properties) (im : Impl)
    → im.max_pending_events < u64_mod
    → IsOpen im
    → ((admit_locked env name properties im).0 ≡ ok)
      × Admits env name properties im (admit_locked env name properties im).1
admit_accepts env name properties im w o =
    rw (admit_open env name properties im o)
      (publish_open env name properties im o.room (let s = o.storable in omega arith))

-- An admission is one decision. With every gate open it succeeds, and adds exactly one event, under
-- the session's next sequence number, the next ordinal and the consent generation in force, with the
-- session's ids and the arguments of the call, counted against the durable cap. Otherwise
-- it refuses, with the code of a gate that is shut, and changes nothing but a statistic: no sequence
-- number, ordinal, id or capacity is used up.
pub admit_locked_cases :
    (env : Environment) (name : Bytes) (properties : Properties) (im : Impl)
    → im.max_pending_events < u64_mod
    → (IsOpen im
        × ((admit_locked env name properties im).0 ≡ ok)
        × Admits env name properties im (admit_locked env name properties im).1)
      ⊎ ((¬ IsOpen im)
          × Refuses im (admit_locked env name properties im).0
          × SameState im (admit_locked env name properties im).1)
admit_locked_cases env name properties im w = elim (IsOpen-dec im) [
  | inl o ↦ let a = admit_accepts env name properties im w o in inl (o, a.0, a.1)
  | inr c ↦ let a = admit_closed env name properties im c in inr (c, a.0, a.1)
]
