-- ===== src/Worker/Loop/Passes.antt =====
-- The passes of the loop of `run` (src/worker.cpp): they end, and they answer the flushes.
use player_trace_sdk.Base.{
  ℕ, ◌+◌, ◌≤◌, ◌<◌, ◌≡◌, refl, ap, ◌⊎◌, Bool, true, false, length, Option, some, arith,
  if◌then◌else◌,
}
use player_trace_sdk.Types.{Status, ok, Bytes, Event}
use player_trace_sdk.Worker.Core.{WorkerCore, Shared, forget_errors}
use player_trace_sdk.Worker.Tokens.{max_retained_passes, flush_result, flush_ready}
use player_trace_sdk.Worker.Tokens.Retention.{IsAnswered}
use player_trace_sdk.Worker.Delivery.{Sink}
use player_trace_sdk.Worker.Barrier.Drained.{IsDrained}
use player_trace_sdk.Store.Interface.{EventStore}
use player_trace_sdk.Worker.Loop.{World, Others, take_batch, work}
use player_trace_sdk.Worker.Loop.Advance.{Follows, board-Follows}
use player_trace_sdk.Worker.Loop.Processed.{take_batch_lem}
use player_trace_sdk.Worker.Loop.Delivered.{at}
use player_trace_sdk.Worker.Loop.Drains.{
  AddNothing, weight, work-Advances, Lightens, Lightens-trans, Advances-Lightens, popped,
}

pub Follows-IsAnswered :
    (handled : ℕ) (c c' : WorkerCore) → Follows c c' → IsAnswered handled c → IsAnswered handled c'
Follows-IsAnswered handled c c' f a =
    let issued = a.issued in
    let later = f.submitted in
    record {
      ascending = rw f.results a.ascending;
      known = rw f.results a.known;
      few = rw f.results a.few;
      issued = omega (arith, issued, later);
      no_wrap = f.no_wrap a.no_wrap;
    }

-- The tokens handled + 1, …, want are answered with `o`. If `o` is Ok, then nothing that was admitted
-- up to the barrier, which is not below `lowest`, is left in the queue, the retry buffer or the store, where no transaction is open.
pub record Answers {S : Type 0} (store : EventStore S) (lowest handled want : ℕ) (x : Shared × S)
    : Type 0 where
  pub outcome : Status
  pub barrier : ℕ
  pub recorded : IsAnswered want x.0.core
  pub ready : (t : ℕ) → t ≤ want → flush_ready t x.0.core ≡ true
  pub told :
      (t : ℕ)
      → handled < t
      → t ≤ want
      → want < t + max_retained_passes
      → flush_result t x.0.core ≡ outcome
  pub covers : lowest ≤ barrier
  pub drained :
      outcome ≡ ok
      → (barrier ≡ 0) ⊎ (EventStore.in_transaction store x.1 ≡ true) ⊎ IsDrained store barrier x

module _ {S K : Type 0} (store : EventStore S) (serialize : Event → Status × Bytes) (write : Sink K)
    (flush : K → Option Status × K) (others : Others S K) (quiet : AddNothing store others) where
  latched :
      (pending : Bool) (p : Shared) (s : S)
      → Lightens store (p, s) (if pending then forget_errors p else p, s)
  unfolding forget_errors
  latched true p s = record {
    lighter = omega arith;
    follows = board-Follows p.core (forget_errors p).core refl;
  }
  latched false p s = record { lighter = omega arith; follows = board-Follows p.core p.core refl }

  -- The first half of a pass: a batch is processed, and what is stored is delivered.
  pub begins :
      (fuel : ℕ) (pending : Bool) (p : Shared) (s : S) (k : K)
      → weight store (p, s) < fuel
      → (let x = others.meanwhile (if pending then forget_errors p else p, s, k) in
          (r : Bool × World S K) × (work store serialize write flush others fuel
              (take_batch x.0).0
              ((take_batch x.0).1, x.1, x.2)
            ≡ some r)
          × Lightens store (p, s) (at r.1))
  begins fuel pending p s k h =
      let calm = if pending then forget_errors p else p in
      let x = others.meanwhile (calm, s, k) in
      let f =
        Lightens-trans store (p, s) (calm, s) (at x) (latched pending p s)
          (Advances-Lightens store (calm, s) (at x) (quiet.meanwhile (calm, s, k))) in
      let light = f.lighter in
      let (n, same) = take_batch_lem x.0 in
      let buffered = ap (λ c. length c.retry) same in
      let (r, e, g, _) =
        work-Advances store serialize write flush others quiet fuel (take_batch x.0).0
          ((take_batch x.0).1, x.1, x.2) (omega (arith, h, light, n, buffered)) in
      (
        r,
        e,
        Lightens-trans store (p, s) (at x) (at r.1) f
            (popped store serialize write flush others quiet x.0 x.1 (at r.1) g).0,
      )
