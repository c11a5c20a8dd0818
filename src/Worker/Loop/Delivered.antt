-- ===== src/Worker/Loop/Delivered.antt =====
-- What the rounds of deliver_all (src/worker.cpp) do to the events and to the tokens.
use player_trace_sdk.Base.{
  ℕ, zero, suc, ◌+◌, ◌≤◌, ◌<◌, ◌≡◌, refl, ap, ◌⊎◌, Bool, true, false, List, length, map, inl, inr,
  some, arith, Bool-cases, ◌==◌,
}
use player_trace_sdk.Types.{Status, is_ok, is_granted, SerializedEvent}
use player_trace_sdk.Validator.Keys.{is_empty}
use player_trace_sdk.Pipeline.{
  release_outstanding, count_dropped_invalid, count_delivered, count_delivery_failures,
  report_error,
}
use player_trace_sdk.Worker.Core.{Shared, note_error}
use player_trace_sdk.Worker.Processing.{with_pipeline, purge_store}
use player_trace_sdk.Worker.Processing.Covered.{is_ok-ok, is_ok-failed}
use player_trace_sdk.Worker.Delivery.{
  Sink, safe_write, note_fetch, acknowledge_batch, write_batch, deliver_round, deliver_all,
}
use player_trace_sdk.Worker.Delivery.Progress.{length-map, positive}
use player_trace_sdk.Store.Interface.{EventStore, FetchResult}
use player_trace_sdk.Worker.Loop.{World}
use player_trace_sdk.Worker.Loop.Advance.{
  board, held, Advances, Advances-known, Advances-then, purge_store-Advances,
}

abbrev pub at : {S K : Type 0} → World S K → Shared × S
at (p, s, k) = (p, s)

note_fetch-frame :
    (f : FetchResult) (p : Shared)
    → ((note_fetch f p).pipeline.queue.queue ≡ p.pipeline.queue.queue)
      × ((note_fetch f p).core.retry ≡ p.core.retry)
      × (board (note_fetch f p).core ≡ board p.core)
unfolding note_fetch note_error release_outstanding count_dropped_invalid report_error
note_fetch-frame f p = (ground arith, ground arith, ground arith)

module _ {S : Type 0} (store : EventStore S) where
  -- A round that goes on has removed at least `n` rows.
  pub record Rounds (n : ℕ) (x : Shared × S) (again : Bool) (y : Shared × S) : Type 0 where
    pub steady : Advances store 0 x y
    pub strict : again ≡ true → held store y + n ≤ held store x

  Rounds-after :
      (n : ℕ) (x y : Shared × S) (again : Bool) (z : Shared × S)
      → Advances store 0 x y
      → Rounds n y again z
      → Rounds n x again z
  Rounds-after n x y again z f r = record {
    steady = Advances-then store 0 x y z f r.steady;
    strict = λ h. let m = f.more in let s = r.strict h in omega (arith, m, s);
  }

  stops : (n : ℕ) (x y : Shared × S) → Advances store 0 x y → Rounds n x false y
  stops n x y f = record { steady = f; strict = λ h. ground (arith, h) }

module _ {S K : Type 0} (store : EventStore S) where
  open store use {pending, fetch_pending, fetched, acknowledge, acknowledged, not_acknowledged}

  -- The other threads add no event, and take back no token.
  abbrev pub Quiet : (World S K → World S K) → Type 0
  Quiet w = (x : World S K) → Advances store 0 (at x) (at (w x))

  module _ (write : Sink K) (between during : World S K → World S K) where
    acknowledge_batch-Rounds :
        (events : List SerializedEvent) (p : Shared) (s : S) (k : K)
        → Rounds store
            (length events)
            (p, s)
            (acknowledge_batch store write between during events (p, s, k)).0
            (at (acknowledge_batch store write between during events (p, s, k)).1)
    unfolding acknowledge_batch note_error release_outstanding count_delivered report_error
    acknowledge_batch-Rounds events p s k =
        let ids = map (λ (e : SerializedEvent). e.event_id) events in
        elim (Bool-cases (is_ok (acknowledge ids s).0)) [
          | inr failed ↦
              let less = not_acknowledged ids s (is_ok-failed (acknowledge ids s).0 failed) in
              rw failed (
                stops store (length events) (p, s)
                  (note_error (acknowledge ids s).0 p, (acknowledge ids s).1)
                  (Advances-known store 0 (p, s)
                    (note_error (acknowledge ids s).0 p, (acknowledge ids s).1) refl
                    (ground (arith, less)) (ground arith)))
          | inl done ↦
              let gone = acknowledged ids s (is_ok-ok (acknowledge ids s).0 done) in
              let n = length-map (λ (e : SerializedEvent). e.event_id) events in
              rw done (record {
                steady = Advances-known store 0 (p, s) _ refl (omega (arith, gone)) refl;
                strict = λ h. omega (arith, gone, n);
              })
        ]

    module _ (quiet_between : Quiet between) (quiet_during : Quiet during) where
      failed_write :
          (status : Status) (p : Shared) (s : S)
          → Advances store 0
              (p, s)
              (
                with_pipeline
                    (count_delivery_failures 1 (note_error status p).pipeline)
                    (note_error status p),
                s,
              )
      unfolding note_error count_delivery_failures report_error
      failed_write status p s = Advances-known store 0 (p, s) _ refl (ground arith) (ground arith)

      write_batch-Rounds :
          (events : List SerializedEvent) (p : Shared) (s : S) (k : K)
          → Rounds store
              (length events)
              (p, s)
              (write_batch store write between during events (p, s, k)).0
              (at (write_batch store write between during events (p, s, k)).1)
      unfolding write_batch
      write_batch-Rounds events p s k =
          let n = length events in
          let (p', s', k') = during (p, s, (safe_write write events k).1) in
          let moved = quiet_during (p, s, (safe_write write events k).1) in
          let written = (safe_write write events k).0 in
          let gone = purge_store store (p', s') in
          let purges =
            stops store n (p, s) gone
              (Advances-then store 0 (p, s) (p', s') gone moved
                (purge_store-Advances store p' s')) in
          elim (Bool-cases (is_granted p.pipeline.consent)) [
            | inr denied ↦
                rw denied
                  (stops store n (p, s) (purge_store store (p, s)) (purge_store-Advances store p s))
            | inl granted ↦ elim (Bool-cases (is_ok written)) [
              | inr failed ↦
                  rw (granted, failed)
                    (stops store n (p, s) _
                      (Advances-then store 0 (p, s) (p', s') _ moved (failed_write written p' s')))
              | inl good ↦ elim (Bool-cases (is_granted p'.pipeline.consent)) [
                | inr denied ↦ rw (granted, good, denied) purges
                | inl still ↦
                    elim (Bool-cases
                      (p'.pipeline.consent_generation == p.pipeline.consent_generation)) [
                        | inr stale ↦ rw (granted, good, still, stale) purges
                        | inl current ↦
                            rw (granted, good, still, current)
                              (Rounds-after store n (p, s) (p', s') _ _ moved
                                (acknowledge_batch-Rounds events p' s' k'))
                      ]
              ]
            ]
          ]

      -- A round adds nothing, and one that goes on has removed a row.
      deliver_round-Rounds :
          (p : Shared) (s : S) (k : K)
          → Rounds store 1
              (p, s)
              (deliver_round store write between during (p, s, k)).0
              (at (deliver_round store write between during (p, s, k)).1)
      unfolding deliver_round
      deliver_round-Rounds p s k =
          let limit = p.pipeline.config.batch_size in
          let (got, s') = fetch_pending limit s in
          let (queue, retry, same) = note_fetch-frame got p in
          let noted = note_fetch got p in
          let fewer = fetched limit s in
          let buffered = ap length retry in
          let looked =
            Advances-known store 0 (p, s) (noted, s') queue (omega (arith, fewer, buffered)) same in
          elim (Bool-cases (is_granted p.pipeline.consent)) [
            | inr denied ↦
                rw denied
                  (stops store 1 (p, s) (purge_store store (p, s)) (purge_store-Advances store p s))
            | inl granted ↦ elim (Bool-cases (is_empty got.events)) [
              | inl nothing ↦ rw (granted, nothing) (stops store 1 (p, s) (noted, s') looked)
              | inr work ↦
                  let x = between (noted, s', k) in
                  let start =
                    Advances-then store 0 (p, s) (noted, s') (at x) looked
                      (quiet_between (noted, s', k)) in
                  let r =
                    Rounds-after store (length got.events) (p, s) (at x) _ _ start
                      (write_batch-Rounds got.events x.0 x.1 x.2) in
                  let many = positive got.events work in
                  rw (granted, work)
                    (record {
                      steady = r.steady;
                      strict = λ h. let m = r.strict h in omega (arith, m, many);
                    })
            ]
          ]

      -- deliver_all returns, given fuel beyond what is held; it adds nothing, and it has removed a row
      -- where it says that it delivered.
      pub deliver_all-Rounds :
          (fuel : ℕ) (delivered_any : Bool) (x : World S K)
          → held store (at x) < fuel
          → (r : Bool × World S K) × (deliver_all store write between during fuel delivered_any x
              ≡ some r)
            × Advances store 0 (at x) (at r.1)
            × ((r.0 ≡ delivered_any) ⊎ (held store (at r.1) < held store (at x)))
      unfolding deliver_all
      deliver_all-Rounds zero delivered_any x h = absurd (omega (arith, h))
      deliver_all-Rounds (suc fuel) delivered_any (p, s, k) h =
          let r = deliver_round-Rounds p s k in
          let y = (deliver_round store write between during (p, s, k)).1 in
          elim (Bool-cases (deliver_round store write between during (p, s, k)).0) [
            | inr last ↦ ((delivered_any, y), rw last refl, r.steady, inl refl)
            | inl again ↦
                let less = r.strict again in
                let (z, e, f, end) = deliver_all-Rounds fuel true y (omega (arith, h, less)) in
                let m = f.more in
                (
                  z,
                  rw again e,
                  Advances-then store 0 (p, s) (at y) (at z.1) r.steady f,
                  inr (omega (arith, less, m)),
                )
          ]
