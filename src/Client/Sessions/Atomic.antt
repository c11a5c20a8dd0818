-- ===== src/Client/Sessions/Atomic.antt =====
-- start_session of src/client.cpp as a whole, with the worker running beside it.
use player_trace_sdk.Session.{SessionManager}
use player_trace_sdk.Base.{
  ℕ, ◌+◌, ◌<◌, ◌≡◌, ◌≢◌, refl, ◌∙◌, ◌⊎◌, inl, inr, Bool, true, false, arith, Bool-cases, ltb, [],
  ◌&&◌, ap,
}
use player_trace_sdk.Base.Words.{add64, u64_mod}
use player_trace_sdk.Types.{Status, ok, is_ok, Bytes, is_granted}
use player_trace_sdk.Validator.Keys.{validate_player_id}
use player_trace_sdk.Queue
use player_trace_sdk.Session
use player_trace_sdk.Client.State.{Environment, Impl, is_running, with_session, terminal_locked}
use player_trace_sdk.Client.Admission.{reserve_locked}
use player_trace_sdk.Client.Admission.Accept.{Admits}
use player_trace_sdk.Client.Admission.Invariant.{IsValid}
use player_trace_sdk.Client.Sessions.{
  session_end, tick, begin, open_session, replace_session, start_session,
}
use player_trace_sdk.Client.Sessions.Replace.{
  IsWorker, HasRoom, HasRoom-WorkerStep, IsOpen-or_dead, admit_room, end_marker, end_properties,
  end_session_locked-active, Opens, open_session_cases,
}

-- A new session is open.
abbrev pub Opened : Environment → Bytes → Impl → Type 0
Opened env player after = (before : Impl) × Opens env player before after

-- The session and the numbering are as before.
pub record Untouched (before after : Impl) : Type 0 where
  pub session_same : after.session ≡ before.session
  pub ordinal_same : after.ordinal ≡ before.ordinal

-- The old session was ended with its marker, and the worker died before the new one was marked: no
-- session is active.
pub record Torn (w2 : Impl → Impl) (before after : Impl) : Type 0 where
  pub replaced : before.session.active ≡ true
  pub ended : after.session.active ≡ false
  pub one_marker : after.ordinal ≡ add64 before.ordinal 1
  pub died : (x : Impl) × (x.pipeline.terminated ≡ false) × ((w2 x).pipeline.terminated ≡ true)

HasRoom-begin :
    (env : Environment) (player : Bytes) (n : ℕ) (im : Impl)
    → HasRoom n im
    → HasRoom n (begin env player im)
unfolding begin
HasRoom-begin env player n im r = record {
  up = r.up;
  allowed = r.allowed;
  in_queue = r.in_queue;
  in_store = r.in_store;
  small = r.small;
}

HasRoom-same :
    (n : ℕ) (im : Impl) (s : SessionManager) → HasRoom n im → HasRoom n (with_session s im)
HasRoom-same n im s r = record {
  up = r.up;
  allowed = r.allowed;
  in_queue = r.in_queue;
  in_store = r.in_store;
  small = r.small;
}

HasRoom-tick : (n : ℕ) (im : Impl) → HasRoom n im → HasRoom n (tick im)
HasRoom-tick n im r = record {
  up = r.up;
  allowed = r.allowed;
  in_queue = r.in_queue;
  in_store = r.in_store;
  small = r.small;
}

module _ (env : Environment) (w2 : Impl → Impl) (worker2 : IsWorker w2) (player : Bytes) (im : Impl)
    (room : HasRoom 2 im) (active : im.session.active ≡ true) where
  abbrev result : Status × Impl
  result = replace_session env w2 player im

  abbrev Ends : Type 0
  Ends =
      ((result.0 ≡ ok) × Opened env player result.1)
      ⊎ ((result.0 ≢ ok) × Untouched im result.1)
      ⊎ ((result.0 ≢ ok) × Torn w2 im result.1)

  -- After the old session's marker was admitted.
  abbrev closed : Impl
  closed =
      let a = (end_marker env im active).1 in with_session (record a.session { active = false }) a

  replace_session-ok :
      (end_marker env im active).0 ≡ ok
      → result ≡ open_session env player true (Session.save im.session) (w2 closed)
  unfolding replace_session
  replace_session-ok e = ground (arith, end_session_locked-active env im active)

  replace_session-refused :
      (end_marker env im active).0 ≢ ok
      → result
        ≡ ((end_marker env im active).0, with_session im.session (end_marker env im active).1)
  unfolding replace_session Session.save Session.restore
  replace_session-refused e = ground (arith, end_session_locked-active env im active)

  after_end :
      (end_marker env im active).0 ≡ ok
      → Admits env session_end (end_properties env im active) (tick im) (end_marker env im active).1
      → HasRoom 1 closed
      → closed.pipeline.terminated ≡ false
      → Ends
  unfolding Session.deactivate begin Session.begin
  after_end e a r alive =
      let kept = worker2 closed in
      let room2 = HasRoom-WorkerStep 1 closed (w2 closed) kept r in
      elim (open_session_cases env player true (Session.save im.session) (w2 closed) room2.small) [
        | inl (o, opens) ↦ rw (replace_session-ok e) (inl (o, (w2 closed, opens)))
        | inr (o, d, c) ↦ rw (replace_session-ok e) (
            inr (
              inr (
                o,
                record {
                  replaced = active;
                  ended = ground arith;
                  one_marker = ground arith;
                  died = (
                    closed,
                    alive,
                    elim (IsOpen-or_dead env session_end [] 0 (begin env player (w2 closed))
                        (HasRoom-begin env player 1 (w2 closed) room2) refl) [
                          | inl open_now ↦ absurd (c open_now)
                          | inr dead ↦ dead
                        ],
                  );
                },
              )))
      ]

  replace_session_cases : Ends
  replace_session_cases =
      elim (admit_room env session_end (end_properties env im active) 1 (tick im)
        (HasRoom-tick 2 im room) active) [
          | inl (e, a, r, alive) ↦
              after_end e a
                (HasRoom-same 1 (end_marker env im active).1
                  (record (end_marker env im active).1.session { active = false }) r)
                alive
          | inr (e, s, dead) ↦
              rw (replace_session-refused e)
                (inr (inl (e, record { session_same = refl; ordinal_same = s.same_ordinal })))
        ]

reserve_locked_room :
    (im : Impl)
    → IsValid im
    → is_running im.lifecycle ≡ true
    → is_granted im.pipeline.consent ≡ true
    → (((reserve_locked 2 im).0 ≡ ok) × ((reserve_locked 2 im).1 ≡ im) × HasRoom 2 im)
      ⊎ (((reserve_locked 2 im).0 ≢ ok) × Untouched im (reserve_locked 2 im).1)
unfolding reserve_locked Queue.has_room_for
reserve_locked_room im v up allowed =
    let cap = v.small_cap in
    elim (Bool-cases (ltb im.max_pending_events (add64 im.pipeline.outstanding 2))) [
      | inl full ↦
          inr (ground arith, record { session_same = ground arith; ordinal_same = ground arith })
      | inr fits ↦ elim (Bool-cases (Queue.has_room_for 2 im.pipeline.queue)) [
        | inr none_left ↦
            inr (ground arith, record { session_same = ground arith; ordinal_same = ground arith })
        | inl room ↦ inl (
          ground arith,
          ground arith,
          record {
            up = up;
            allowed = allowed;
            in_queue = ground arith;
            in_store = ground arith;
            small = cap;
          },
        )
      ]
    ]

module _ (env : Environment) (w1 w2 : Impl → Impl) (worker1 : IsWorker w1) (worker2 : IsWorker w2)
    (player : Bytes) (im : Impl) (v : IsValid im) where
  abbrev started : Status × Impl
  started = start_session env w1 w2 player im

  abbrev Starts : Type 0
  Starts =
      ((started.0 ≡ ok) × Opened env player started.1)
      ⊎ ((started.0 ≢ ok) × Untouched im started.1)
      ⊎ ((started.0 ≢ ok) × Torn w2 im started.1)

  abbrev entry_gates : Bool
  entry_gates =
      is_ok (validate_player_id im.validator player)
      && is_running im.lifecycle
      && is_granted im.pipeline.consent
      && is_ok (terminal_locked im)

  refused_early : entry_gates ≡ false → (started.0 ≢ ok) × Untouched im started.1
  unfolding start_session
  refused_early g =
      (ground arith, record { session_same = ground arith; ordinal_same = ground arith })

  start_replacing :
      entry_gates ≡ true
      → im.session.active ≡ true
      → (reserve_locked 2 im).0 ≡ ok
      → (reserve_locked 2 im).1 ≡ im
      → started ≡ replace_session env w2 player (w1 im)
  unfolding start_session
  start_replacing g a r e = ground arith

  start_unreserved :
      entry_gates ≡ true
      → im.session.active ≡ true
      → (reserve_locked 2 im).0 ≢ ok
      → started ≡ reserve_locked 2 im
  unfolding start_session
  start_unreserved g a r = ground arith

  start_first :
      entry_gates ≡ true
      → im.session.active ≡ false
      → started ≡ open_session env player false (Session.save im.session) (w1 im)
  unfolding start_session
  start_first g a = ground arith

  replacing_cases : entry_gates ≡ true → im.session.active ≡ true → Starts
  replacing_cases g a = elim (reserve_locked_room im v (ground arith) (ground arith)) [
    | inr (r, u) ↦ rw (start_unreserved g a r) (inr (inl (r, u)))
    | inl (r, e, room) ↦
        let k = worker1 im in
        let a1 : (w1 im).session.active ≡ true = ground arith in
        rw (start_replacing g a r e)
          (elim (replace_session_cases env w2 worker2 player (w1 im)
            (HasRoom-WorkerStep 2 im (w1 im) k room) a1) [
              | inl good ↦ inl good
              | inr (inl (n, u)) ↦ inr (
                  inl (
                    n,
                    record {
                      session_same = u.session_same ∙ k.session_kept;
                      ordinal_same = u.ordinal_same ∙ k.ordinal_kept;
                    },
                  ))
              | inr (inr (n, t)) ↦ inr (
                  inr (
                    n,
                    record {
                      replaced = a;
                      ended = t.ended;
                      one_marker = t.one_marker ∙ ap (λ (o : ℕ). add64 o 1) k.ordinal_kept;
                      died = t.died;
                    },
                  ))
            ])
  ]

  first_cases : entry_gates ≡ true → im.session.active ≡ false → Starts
  unfolding Session.save
  first_cases g a =
      let k = worker1 im in
      let cap = v.small_cap in
      let small : (w1 im).max_pending_events + 2 < u64_mod = ground arith in
      rw (start_first g a)
        (elim (open_session_cases env player false (Session.save im.session) (w1 im) small) [
          | inl (o, opens) ↦ inl (o, (w1 im, opens))
          | inr (n, d, c) ↦ inr (
              inl (
                n,
                record {
                  session_same = d.session_is;
                  ordinal_same = d.ordinal_is ∙ k.ordinal_kept;
                },
              ))
        ])

  -- On a client that keeps its invariant, and whatever the worker does meanwhile within its limits
  -- (IsWorker), starting a session has one of three outcomes. It succeeds, and the new session is open with its marker queued under number 0; or it fails and leaves the session
  -- and the numbering exactly as they were; or, only if the worker died between the two markers of a
  -- replacement, it fails with the old session ended and no session active.
  pub start_session_cases : Starts
  start_session_cases = elim (Bool-cases entry_gates) [
    | inr shut ↦ inr (inl (refused_early shut))
    | inl g ↦ elim (Bool-cases im.session.active) [
      | inl a ↦ replacing_cases g a
      | inr a ↦ first_cases g a
    ]
  ]

  -- While the worker lives, starting a session is all or nothing: a failure leaves the session and
  -- the numbering exactly as they were.
  pub start_session_all_or_nothing :
      ((x : Impl) → (w2 x).pipeline.terminated ≡ x.pipeline.terminated)
      → ((started.0 ≡ ok) × Opened env player started.1)
        ⊎ ((started.0 ≢ ok) × Untouched im started.1)
  start_session_all_or_nothing lives = elim start_session_cases [
    | inl good ↦ inl good
    | inr (inl kept) ↦ inr kept
    | inr (inr (n, t)) ↦ let (x, alive, dead) = t.died in absurd (ground (arith, lives x))
  ]
