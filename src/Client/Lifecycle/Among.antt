-- ===== src/Client/Lifecycle/Among.antt =====
-- shutdown of src/client.cpp among the calls of other threads.
use player_trace_sdk.Base.{◌≡◌, sym, ◌∙◌, subst, inl, inr, true, false, Option, arith, [], Bool}
use player_trace_sdk.Types.{Status, Bytes, Properties, stopping}
use player_trace_sdk.Client.State.{Environment, Impl, is_running}
use player_trace_sdk.Client.Sessions.{start_session, end_session}
use player_trace_sdk.Client.Track.{track}
use player_trace_sdk.Client.Lifecycle.{flush, shutdown, conclude, with_lifecycle}
use player_trace_sdk.Client.Lifecycle.Shut.{
  IsShut, IsTruthful, conclude-IsShut, closed_refuses, shutdown-IsShut,
}

-- What another thread does in one step: a call, the first or the last part of a shutdown of its own,
-- or anything that leaves the lifecycle and does not take back that the worker has finished, as the
-- worker itself and set_consent.
pub data Step (env : Environment) : Impl → Impl → Type 0 where
  tracks :
      (name : Bytes) (ps : Properties) (im : Impl) → Step env im (track env (λ x. x) name ps im).1
  starts :
      (w1 w2 : Impl → Impl) (player_id : Bytes) (im : Impl)
      → Step env im (start_session env w1 w2 player_id im).1
  ends : (im : Impl) → Step env im (end_session env im).1
  flushes : (wait : Impl → Impl) (im : Impl) → Step env im (flush false wait im).1
  begins_shutdown :
      (im : Impl) → is_running im.lifecycle ≡ true → Step env im (with_lifecycle stopping im)
  concludes : (outcome : Option Status) (im : Impl) → Step env im (conclude outcome im).1
  works :
      (im im' : Impl)
      → im'.lifecycle ≡ im.lifecycle
      → (im.core.finished ≡ true → im'.core.finished ≡ true)
      → Step env im im'

pub data Steps (env : Environment) : Impl → Impl → Type 0 where
  rest : (im : Impl) → Steps env im im
  then_step : (im im' im'' : Impl) → Steps env im im' → Step env im' im'' → Steps env im im''

module _ (env : Environment) where
  IsShut-closed : (im : Impl) → IsShut im → is_running im.lifecycle ≡ false
  IsShut-closed im (inl e) = ground (arith, e)
  IsShut-closed im (inr (e, f)) = ground (arith, e)

  Step-IsShut : (im im' : Impl) → Step env im im' → IsShut im → IsShut im'
  Step-IsShut im _ (tracks name ps _) shut =
      let refused = closed_refuses env (λ x. x) (λ x. x) name name ps im (IsShut-closed im shut) in
      subst IsShut (sym refused.0.1) shut
  Step-IsShut im _ (starts w1 w2 player_id _) shut =
      let refused = closed_refuses env w1 w2 player_id player_id [] im (IsShut-closed im shut) in
      subst IsShut (sym refused.1.1) shut
  Step-IsShut im _ (ends _) shut =
      let refused = closed_refuses env (λ x. x) (λ x. x) [] [] [] im (IsShut-closed im shut) in
      subst IsShut (sym refused.2.1) shut
  Step-IsShut im _ (flushes wait _) shut =
      let refused = closed_refuses env wait wait [] [] [] im (IsShut-closed im shut) in
      subst IsShut (sym refused.3.1) shut
  Step-IsShut im _ (begins_shutdown _ up) shut = absurd (ground (arith, up, IsShut-closed im shut))
  Step-IsShut im _ (concludes outcome _) shut = conclude-IsShut outcome im shut
  Step-IsShut im im' (works _ _ same kept) (inl e) = inl (same ∙ e)
  Step-IsShut im im' (works _ _ same kept) (inr (e, f)) = inr (same ∙ e, kept f)

  Steps-IsShut : (im im' : Impl) → Steps env im im' → IsShut im → IsShut im'
  Steps-IsShut im _ (rest _) shut = shut
  Steps-IsShut im im'' (then_step _ im' _ before step) shut =
      Step-IsShut im' im'' step (Steps-IsShut im im' before shut)

  -- On a client that has a finished worker if it says Stopped, and among any sequence of other
  -- threads' calls of track, start_session, end_session and flush, of other shutdowns, and of what
  -- leaves the lifecycle and a finished worker: whatever shutdown returns, the client is closed
  -- afterwards, stopping, or stopped with the worker finished.
  pub shutdown-IsShut_among :
      (on_worker : Bool) (drain stop : Impl → Impl) (im : Impl)
      → ((x : Impl) → Steps env x (drain x))
      → ((x : Impl) → Steps env x (stop x))
      → IsTruthful im
      → IsShut (shutdown on_worker drain stop im).1
  shutdown-IsShut_among on_worker drain stop im drains stops truthful =
      shutdown-IsShut on_worker drain stop im (λ x shut. Steps-IsShut x (drain x) (drains x) shut)
        (λ x shut. Steps-IsShut x (stop x) (stops x) shut) truthful
