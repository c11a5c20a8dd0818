-- ===== src/Client/Lifecycle/Shut.antt =====
-- flush and shutdown of src/client.cpp, and a client after its shutdown.
use player_trace_sdk.Base.{
  ℕ, ◌≡◌, refl, ◌∙◌, Bool-cases, ◌⊎◌, inl, inr, Bool, true, false, arith, if◌then◌else◌, Option,
  some,
}
use player_trace_sdk.Base.Words.{add64}
use player_trace_sdk.Types.{
  Status, ok, timeout, is_ok, Bytes, Properties, running, stopping, stopped,
}
use player_trace_sdk.Worker.Core.{WorkerCore, request_stop}
use player_trace_sdk.Worker.Tokens.{submit_flush, wait_flush}
use player_trace_sdk.Worker.Tokens.Retention.{History, IsHonest, wait_flush-ok}
use player_trace_sdk.Client.State.{Environment, Impl, is_running, terminal_locked}
use player_trace_sdk.Client.Admission.{admit_locked}
use player_trace_sdk.Client.Sessions.{start_session, end_session}
use player_trace_sdk.Client.Track.{track}
use player_trace_sdk.Client.Lifecycle.{
  flush, await_flush, shutdown, conclude, drain_and_stop, with_shared, is_stopped, outcome_or,
  with_lifecycle,
}

-- The client as flush waits for its token.
abbrev pub submitted : Impl → Impl
submitted im = with_shared (submit_flush im.ordinal im.shared).1 im

outcome-ok :
    (t : ℕ) (c : WorkerCore)
    → outcome_or timeout (wait_flush t c).0 ≡ ok
    → wait_flush t c ≡ (some ok, (wait_flush t c).1)
unfolding wait_flush
outcome-ok t c h = ground arith

flush-ok-gates :
    (wait : Impl → Impl) (im : Impl) (on_worker : Bool)
    → (flush on_worker wait im).0 ≡ ok
    → (on_worker ≡ false)
      × (is_running im.lifecycle ≡ true)
      × (terminal_locked im ≡ ok)
      × (outcome_or timeout (wait_flush (add64 im.core.flush_seq 1) (wait (submitted im)).core).0
          ≡ ok)
unfolding flush await_flush submit_flush
flush-ok-gates wait im on_worker h = (ground arith, ground arith, ground arith, ground arith)

module _ (past : History) (wait : Impl → Impl) (im : Impl)
    (honest : IsHonest past (wait (submitted im)).core) where
  -- If flush returns Ok, it was not called from the worker's thread, the client was running, its
  -- worker alive, and the pass that answered the token of this very call succeeded.
  pub flush-ok :
      (on_worker : Bool)
      → (flush on_worker wait im).0 ≡ ok
      → (on_worker ≡ false)
        × (is_running im.lifecycle ≡ true)
        × (terminal_locked im ≡ ok)
        × (past (add64 im.core.flush_seq 1) ≡ some ok)
  unfolding flush await_flush
  flush-ok on_worker h =
      let token = add64 im.core.flush_seq 1 in
      let core = (wait (submitted im)).core in
      let (away, up, alive, told) = flush-ok-gates wait im on_worker h in
      (away, up, alive, wait_flush-ok past token core _ honest (outcome-ok token core told))

-- Closed: stopping, or stopped with the worker finished.
abbrev pub IsShut : Impl → Type 0
IsShut im = (im.lifecycle ≡ stopping) ⊎ ((im.lifecycle ≡ stopped) × (im.core.finished ≡ true))

-- A client that says Stopped has a worker that has finished.
abbrev pub IsTruthful : Impl → Type 0
IsTruthful im = (im.lifecycle ≡ running) ⊎ IsShut im

-- Other threads do not open a client again.
abbrev pub StaysShut : (Impl → Impl) → Type 0
StaysShut w = (im : Impl) → IsShut im → IsShut (w im)

wait_flush-finished : (t : ℕ) (c : WorkerCore) → (wait_flush t c).1.finished ≡ c.finished
unfolding wait_flush
wait_flush-finished t c = ground arith

drain_and_stop-IsShut :
    (drain : Impl → Impl) (im : Impl)
    → StaysShut drain
    → IsShut im
    → IsShut (drain_and_stop drain im).1
unfolding drain_and_stop await_flush request_stop wait_flush submit_flush
drain_and_stop-IsShut drain im drains shut = elim (drains (submitted im) shut) [
  | inl e ↦ inl e
  | inr (e, f) ↦
      inr (
        e,
        wait_flush-finished (submit_flush im.ordinal im.shared).0 (drain (submitted im)).core ∙ f,
      )
]

conclude-ended :
    (outcome : Option Status) (im : Impl)
    → im.core.finished ≡ true
    → ((conclude outcome im).1.lifecycle ≡ stopped) × ((conclude outcome im).1.core.finished ≡ true)
unfolding conclude
conclude-ended outcome im e = (ground arith, ground arith)

conclude-alive :
    (outcome : Option Status) (im : Impl)
    → im.core.finished ≡ false
    → conclude outcome im ≡ (timeout, im)
unfolding conclude
conclude-alive outcome im e = ground arith

pub conclude-IsShut :
    (outcome : Option Status) (im : Impl) → IsShut im → IsShut (conclude outcome im).1
conclude-IsShut outcome im shut = elim (Bool-cases im.core.finished) [
  | inl e ↦ inr (conclude-ended outcome im e)
  | inr e ↦ simp (conclude-alive outcome im e) shut
]

is_stopped-ended :
    (im : Impl)
    → IsTruthful im
    → is_stopped im.lifecycle ≡ true
    → (im.lifecycle ≡ stopped) × (im.core.finished ≡ true)
is_stopped-ended im truthful h = elim truthful [
  | inl e ↦ absurd (ground arith)
  | inr (inl e) ↦ absurd (ground arith)
  | inr (inr e) ↦ e
]

asked-IsShut :
    (im : Impl)
    → IsTruthful im
    → IsShut (
        with_shared
          (request_stop im.shared)
          (if is_running im.lifecycle then with_lifecycle stopping im else im))
unfolding request_stop
asked-IsShut im truthful = elim truthful [
  | inl e ↦ inl (ground arith)
  | inr (inl e) ↦ inl (ground arith)
  | inr (inr (e, f)) ↦ inr (ground arith, ground arith)
]

module _ (on_worker : Bool) (drain stop : Impl → Impl) (im : Impl) (drains : StaysShut drain)
    (stops : StaysShut stop) (truthful : IsTruthful im) where
  -- If a client that says Stopped has a worker that has finished, and other threads meanwhile leave
  -- a closed client closed: whatever it returns, shutdown leaves the client closed, stopping, or
  -- stopped with the worker finished.
  pub shutdown-IsShut : IsShut (shutdown on_worker drain stop im).1
  unfolding shutdown
  shutdown-IsShut = elim (Bool-cases on_worker) [
    | inl e ↦ rw e (asked-IsShut im truthful)
    | inr e ↦ elim (Bool-cases (is_stopped im.lifecycle)) [
      | inl s ↦ rw (e, s) (inr (is_stopped-ended im truthful s))
      | inr s ↦
          rw (e, s)
            (conclude-IsShut (drain_and_stop drain (with_lifecycle stopping im)).0
              (stop (drain_and_stop drain (with_lifecycle stopping im)).1)
              (stops (drain_and_stop drain (with_lifecycle stopping im)).1
                (drain_and_stop-IsShut drain (with_lifecycle stopping im) drains (inl refl))))
    ]
  ]

-- A client that is not running accepts nothing: track, start_session, end_session and flush all fail, and
-- change nothing.
pub closed_refuses :
    (env : Environment) (w1 w2 : Impl → Impl) (name player_id : Bytes) (ps : Properties) (im : Impl)
    → is_running im.lifecycle ≡ false
    → ((is_ok (track env (λ x. x) name ps im).0 ≡ false) × ((track env (λ x. x) name ps im).1 ≡ im))
      × ((is_ok (start_session env w1 w2 player_id im).0 ≡ false)
          × ((start_session env w1 w2 player_id im).1 ≡ im))
      × ((is_ok (end_session env im).0 ≡ false) × ((end_session env im).1 ≡ im))
      × ((is_ok (flush false w1 im).0 ≡ false) × ((flush false w1 im).1 ≡ im))
unfolding track start_session end_session flush admit_locked
closed_refuses env w1 w2 name player_id ps im h = (
  (ground arith, ground arith),
  (ground arith, ground arith),
  (ground arith, ground arith),
  (ground arith, ground arith),
)
