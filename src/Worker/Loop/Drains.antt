-- ===== src/Worker/Loop/Drains.antt =====
-- The drain of a flush pass (src/worker.cpp) ends, where other threads add no events meanwhile.
use player_trace_sdk.Base.{
  ℕ, zero, suc, ◌+◌, ◌*◌, ◌≤◌, ◌<◌, ◌≡◌, refl, ap, Bool, true, false, List, length, inl, inr,
  Option, some, arith, Bool-cases, Option-cases,
}
use player_trace_sdk.Types.{Status, Bytes, Event, QueuedEvent}
use player_trace_sdk.Validator.Keys.{is_empty}
use player_trace_sdk.Queue.{size}
use player_trace_sdk.Worker.Core.{Shared}
use player_trace_sdk.Worker.Processing.{process_incoming}
use player_trace_sdk.Worker.Delivery.{Sink}
use player_trace_sdk.Worker.Delivery.Progress.{positive}
use player_trace_sdk.Worker.Barrier.{work_remains_at_or_below}
use player_trace_sdk.Store.Interface.{EventStore}
use player_trace_sdk.Worker.Loop.{World, Others, take_batch, work, goes_on, drain_round, drain_loop}
use player_trace_sdk.Worker.Loop.Advance.{
  Follows, Follows-trans, board-Follows, queued, held, Advances, Advances-then,
}
use player_trace_sdk.Worker.Loop.Processed.{take_batch_lem, process_incoming-Advances}
use player_trace_sdk.Worker.Loop.Delivered.{at, Quiet, deliver_all-Rounds}

-- What other threads do adds no event, and takes back no token and no request to stop.
pub record AddNothing {S K : Type 0} (store : EventStore S) (others : Others S K) : Type 0 where
  pub at_lock : (x : Shared × S) → Advances store 0 x (Others.at_lock others x)
  pub between : Quiet store (Others.between others)
  pub during : Quiet store (Others.during others)
  pub meanwhile : Quiet store (Others.meanwhile others)

-- An event counts twice while it is queued.
abbrev pub weight : {S : Type 0} → EventStore S → Shared × S → ℕ
weight store x = 2 * queued store x + held store x

module _ {S : Type 0} (store : EventStore S) where
  -- No weight comes to it, and it follows.
  pub record Lightens (x y : Shared × S) : Type 0 where
    pub lighter : weight store y ≤ weight store x
    pub follows : Follows x.0.core y.0.core

  pub Lightens-trans : (x y z : Shared × S) → Lightens x y → Lightens y z → Lightens x z
  Lightens-trans x y z f g =
      let a = f.lighter in
      let b = g.lighter in
      record {
        lighter = omega (arith, a, b);
        follows = Follows-trans x.0.core y.0.core z.0.core f.follows g.follows;
      }

  pub Advances-Lightens : (x y : Shared × S) → Advances store 0 x y → Lightens x y
  Advances-Lightens x y f =
      let a = f.queue in
      let b = f.more in record { lighter = omega (arith, a, b); follows = f.follows }

module _ {S K : Type 0} (store : EventStore S) (serialize : Event → Status × Bytes) (write : Sink K)
    (flush : K → Option Status × K) (others : Others S K) (quiet : AddNothing store others) where
  pub work-Advances :
      (fuel : ℕ) (batch : List QueuedEvent) (x : World S K)
      → held store (at x) + length batch < fuel
      → (r : Bool × World S K) × (work store serialize write flush others fuel batch x ≡ some r)
        × Advances store (length batch) (at x) (at r.1)
        × (r.0 ≡ true → held store (at r.1) < held store (at x) + length batch)
  unfolding work
  work-Advances fuel batch (p, s, k) h =
      let y = process_incoming store serialize others.at_lock batch (p, s) in
      let f = process_incoming-Advances store serialize others.at_lock quiet.at_lock batch p s in
      let z = others.meanwhile (y.0, y.1, k) in
      let g =
        Advances-then store (length batch) (p, s) y (at z) f (quiet.meanwhile (y.0, y.1, k)) in
      let m = g.more in
      let (r, e, d, end) =
        deliver_all-Rounds store write others.between others.during quiet.between quiet.during fuel
          false z (omega (arith, h, m)) in
      (
        r,
        e,
        Advances-then store (length batch) (p, s) (at z) (at r.1) g d,
        λ t. elim end [ inl f ↦ ground (arith, f, t) | inr less ↦ omega (arith, less, m) ],
      )

  -- What is popped has left the queue.
  pub popped :
      (p : Shared) (s : S) (y : Shared × S)
      → Advances store (length (take_batch p).0) ((take_batch p).1, s) y
      → Lightens store (p, s) y × (weight store y + length (take_batch p).0 ≤ weight store (p, s))
  popped p s y f =
      let (n, same) = take_batch_lem p in
      let a = f.queue in
      let b = f.more in
      let buffered = ap (λ c. length c.retry) same in
      let frame =
        Follows-trans p.core (take_batch p).1.core y.0.core
          (board-Follows p.core (take_batch p).1.core (λ i.
            ((same i).pass_results, (same i).flush_seq, (same i).flush_barrier, (same i).stop)))
          f.follows in
      (
        record { lighter = omega (arith, n, a, b, buffered); follows = frame },
        omega (arith, n, a, b, buffered),
      )

  progress :
      (p : Shared) (s : S) (r : Bool × World S K)
      → Advances store (length (take_batch p).0) ((take_batch p).1, s) (at r.1)
      → (r.0 ≡ true → held store (at r.1) < held store (p, s) + length (take_batch p).0)
      → goes_on store serialize write flush others (size p.pipeline.queue) (take_batch p).0 r ≡ true
      → weight store (at r.1) < weight store (p, s)
  unfolding size
  progress p s r f delivered h =
      let (n, same) = take_batch_lem p in
      let a = f.queue in
      let b = f.more in
      let buffered = ap (λ c. length c.retry) same in
      elim (Bool-cases (is_empty (take_batch p).0)) [
        | inr moved ↦
            let some_events = positive (take_batch p).0 moved in
            omega (arith, n, a, b, buffered, some_events)
        | inl nothing ↦ elim (Bool-cases r.0) [
          | inl d ↦ let less = delivered d in omega (arith, n, a, less)
          | inr d ↦
              let fewer : queued store (at r.1) < queued store (p, s) =
                ground (arith, h, nothing, d) in
              omega (arith, n, a, b, buffered, fewer)
        ]
      ]

  pub drain_round-Lightens :
      (fuel : ℕ) (x : World S K)
      → weight store (at x) < fuel
      → (r : Bool × World S K) × (drain_round store serialize write flush others fuel x ≡ some r)
        × Lightens store (at x) (at r.1)
        × (r.0 ≡ true → weight store (at r.1) < weight store (at x))
  unfolding drain_round
  drain_round-Lightens fuel (p, s, k) h =
      let (n, same) = take_batch_lem p in
      let (more, p') = take_batch p in
      let buffered = ap (λ c. length c.retry) same in
      let (r, e, f, delivered) =
        work-Advances fuel more (p', s, k) (omega (arith, h, n, buffered)) in
      (
        (goes_on store serialize write flush others (size p.pipeline.queue) more r, r.1),
        rw (drain_round, e) refl,
        (popped p s (at r.1) f).0,
        progress p s r f (λ t. let d = delivered t in omega (arith, d, buffered)),
      )

  -- With more fuel and more rounds than twice the queued events and those held or stored, the drain
  -- returns.
  pub drain_loop-Lightens :
      (barrier fuel rounds : ℕ) (x : World S K)
      → weight store (at x) < fuel
      → weight store (at x) < rounds
      → (y : World S K) × (drain_loop store serialize write flush others barrier fuel rounds x
          ≡ some y)
        × Lightens store (at x) (at y)
  unfolding drain_loop
  drain_loop-Lightens barrier fuel zero x h low = absurd (omega (arith, low))
  drain_loop-Lightens barrier fuel (suc rounds) x h low =
      elim (Option-cases (work_remains_at_or_below store barrier (at x))) [
        | inl clear ↦ (
          x,
          rw (drain_loop, clear) refl,
          record { lighter = omega arith; follows = board-Follows x.0.core x.0.core refl },
        )
        | inr (why, remains) ↦
            let (r, e, f, strict) = drain_round-Lightens fuel x h in
            elim (Bool-cases r.0) [
              | inr stalled ↦ (r.1, rw (drain_loop, remains, e, stalled) refl, f)
              | inl again ↦
                  let y = others.meanwhile r.1 in
                  let g =
                    Lightens-trans store (at x) (at r.1) (at y) f
                      (Advances-Lightens store (at r.1) (at y) (quiet.meanwhile r.1)) in
                  let less = strict again in
                  let lighter =
                    (Advances-Lightens store (at r.1) (at y) (quiet.meanwhile r.1)).lighter in
                  let (z, last, rest) =
                    drain_loop-Lightens barrier fuel rounds y (omega (arith, h, less, lighter))
                      (omega (arith, low, less, lighter)) in
                  (
                    z,
                    rw (drain_loop, remains, e, again) last,
                    Lightens-trans store (at x) (at y) (at z) g rest,
                  )
            ]
      ]
