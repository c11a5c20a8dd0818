-- ===== src/Worker/Delivery/Progress.antt =====
-- The rounds of deliver_all (src/worker.cpp), and how many there can be.
use player_trace_sdk.Base.{
  ℕ, zero, suc, ◌+◌, ◌≤◌, ◌<◌, ◌≡◌, refl, ap, sym, ◌∙◌, Bool, true, false, List, [], ◌∷◌, map,
  length, some, inl, inr, arith, Bool-cases, ==_iff, ◌==◌, subst,
}
use player_trace_sdk.Types.{ok, is_ok, is_granted, SerializedEvent}
use player_trace_sdk.Validator.Keys.{is_empty}
use player_trace_sdk.Worker.Core.{Shared}
use player_trace_sdk.Store.Interface.{EventStore}
use player_trace_sdk.Worker.Processing.Covered.{is_ok-ok}
use player_trace_sdk.Worker.Delivery.{
  Sink, safe_write, note_fetch, acknowledge_batch, write_batch, deliver_round, deliver_all,
}

pub length-map : {A B : Type 0} (f : A → B) (xs : List A) → length (map f xs) ≡ length xs
length-map f [] = refl
length-map f (x ∷ xs) = ap suc (length-map f xs)

pub positive : {A : Type 0} (xs : List A) → is_empty xs ≡ false → 1 ≤ length xs
positive [] h = absurd (ground arith)
positive (x ∷ xs) h = omega arith

module _ {S K : Type 0} (store : EventStore S) where
  open store use {pending, fetch_pending, fetched, acknowledge, acknowledged}

  -- Only the worker adds rows.
  abbrev pub AddsNone : (Shared × S × K → Shared × S × K) → Type 0
  AddsNone w = (x : Shared × S × K) → length (pending (w x).1) ≤ length (pending x.1)

  module _ (write : Sink K) (between during : Shared × S × K → Shared × S × K) where
    abbrev round : Shared × S × K → Bool × (Shared × S × K)
    round = deliver_round store write between during

    -- These rows left the store, `s` before that and `s'` after it.
    abbrev pub Removes : List SerializedEvent → S → S → Type 0
    Removes events s s' =
        let ids = map (λ (e : SerializedEvent). e.event_id) events in
        ((acknowledge ids s).0 ≡ ok)
        × (s' ≡ (acknowledge ids s).1)
        × (length events + length (pending s') ≤ length (pending s))

    acknowledge_batch-ok :
        (events : List SerializedEvent) (p : Shared) (s : S) (k : K)
        → (acknowledge_batch store write between during events (p, s, k)).0 ≡ true
        → Removes events s (acknowledge_batch store write between during events (p, s, k)).1.1
    unfolding acknowledge_batch
    acknowledge_batch-ok events p s k h =
        let ids = map (λ (e : SerializedEvent). e.event_id) events in
        elim (Bool-cases (is_ok (acknowledge ids s).0)) [
          | inr failed ↦ absurd (ground arith)
          | inl done ↦
              let fine = is_ok-ok (acknowledge ids s).0 done in
              let gone = acknowledged ids s fine in
              let n = length-map (λ (e : SerializedEvent). e.event_id) events in
              rw done (fine, refl, omega (arith, gone, n))
        ]

    -- Before the round removes a batch, with `p` as the worker before the write and `p'` after it.
    abbrev pub Delivers : List SerializedEvent → Shared × S × K → Type 0
    Delivers events (p, s, k) =
        let (p', s', k') = during (p, s, (safe_write write events k).1) in
        ((safe_write write events k).0 ≡ ok)
        × (is_granted p.pipeline.consent ≡ true)
        × (is_granted p'.pipeline.consent ≡ true)
        × (p'.pipeline.consent_generation ≡ p.pipeline.consent_generation)

    write_batch-gates :
        (events : List SerializedEvent) (p : Shared) (s : S) (k : K)
        → (write_batch store write between during events (p, s, k)).0 ≡ true
        → Delivers events (p, s, k)
          × (write_batch store write between during events (p, s, k)
              ≡ acknowledge_batch store write between during events
                  (during (p, s, (safe_write write events k).1)))
    unfolding write_batch
    write_batch-gates events p s k h =
        let (p', s', k') = during (p, s, (safe_write write events k).1) in
        elim (Bool-cases (is_granted p.pipeline.consent)) [
          | inr denied ↦ absurd (ground arith)
          | inl granted ↦ elim (Bool-cases (is_ok (safe_write write events k).0)) [
            | inr failed ↦ absurd (ground arith)
            | inl written ↦ elim (Bool-cases (is_granted p'.pipeline.consent)) [
              | inr denied ↦ absurd (ground arith)
              | inl still ↦
                  elim (Bool-cases
                    (p'.pipeline.consent_generation == p.pipeline.consent_generation)) [
                      | inr stale ↦ absurd (ground arith)
                      | inl current ↦ (
                        (
                          is_ok-ok (safe_write write events k).0 written,
                          granted,
                          still,
                          (==_iff p'.pipeline.consent_generation p.pipeline.consent_generation).0
                              current,
                        ),
                        rw (granted, written, still, current) refl,
                      )
                    ]
            ]
          ]
        ]

    round-gates :
        (p : Shared) (s : S) (k : K)
        → (round (p, s, k)).0 ≡ true
        → (is_granted p.pipeline.consent ≡ true)
          × (is_empty (fetch_pending p.pipeline.config.batch_size s).0.events ≡ false)
          × (round (p, s, k)
              ≡ write_batch store write between during
                  (fetch_pending p.pipeline.config.batch_size s).0.events
                  (between (
                    note_fetch (fetch_pending p.pipeline.config.batch_size s).0 p,
                    (fetch_pending p.pipeline.config.batch_size s).1,
                    k,
                  )))
    unfolding deliver_round
    round-gates p s k h = elim (Bool-cases (is_granted p.pipeline.consent)) [
      | inr denied ↦ absurd (ground arith)
      | inl granted ↦
          elim (Bool-cases (is_empty (fetch_pending p.pipeline.config.batch_size s).0.events)) [
            | inl nothing ↦ absurd (ground arith)
            | inr work ↦ (granted, work, rw (granted, work) refl)
          ]
    ]

    -- The state of a round in front of the write.
    abbrev pub fetched_world : Shared × S × K → Shared × S × K
    fetched_world (p, s, k) = between (
      note_fetch (fetch_pending p.pipeline.config.batch_size s).0 p,
      (fetch_pending p.pipeline.config.batch_size s).1,
      k,
    )

    -- A round goes on only if it fetched a batch that is not empty, the sink answered Ok for
    -- exactly that batch, consent was given before and after the write under one generation, and
    -- the acknowledgment of exactly its ids succeeded on the store as it was after the write: the
    -- store is what that left, with at least as many rows less as the batch has events.
    pub deliver_round-Delivers :
        (p : Shared) (s : S) (k : K)
        → (deliver_round store write between during (p, s, k)).0 ≡ true
        → (let events = (fetch_pending p.pipeline.config.batch_size s).0.events in
            let x = fetched_world (p, s, k) in
            (is_empty events ≡ false)
            × Delivers events x
            × Removes events
                (during (x.0, x.1, (safe_write write events x.2).1)).1
                (deliver_round store write between during (p, s, k)).1.1)
    deliver_round-Delivers p s k h =
        let (_, work, e) = round-gates p s k h in
        let events = (fetch_pending p.pipeline.config.batch_size s).0.events in
        let x1 = fetched_world (p, s, k) in
        let x2 = during (x1.0, x1.1, (safe_write write events x1.2).1) in
        let h1 = ap (λ r. r.0) (sym e) ∙ h in
        let (gates, e1) = write_batch-gates events x1.0 x1.1 x1.2 h1 in
        let h2 = ap (λ r. r.0) (sym e1) ∙ h1 in
        (
          work,
          gates,
          subst (Removes events x2.1) (ap (λ r. r.1.1) (sym (e ∙ e1)))
              (acknowledge_batch-ok events x2.0 x2.1 x2.2 h2),
        )

    module _ (b : AddsNone between) (d : AddsNone during) where
      round-shrinks :
          (p : Shared) (s : S) (k : K)
          → (round (p, s, k)).0 ≡ true
          → length (pending (round (p, s, k)).1.1) < length (pending s)
      round-shrinks p s k h =
          let (work, _, (_, _, taken)) = deliver_round-Delivers p s k h in
          let got = (fetch_pending p.pipeline.config.batch_size s).0 in
          let s' = (fetch_pending p.pipeline.config.batch_size s).1 in
          let x1 = fetched_world (p, s, k) in
          let some_events = positive got.events work in
          let f = fetched p.pipeline.config.batch_size s in
          let b1 = b (note_fetch got p, s', k) in
          let d1 = d (x1.0, x1.1, (safe_write write got.events x1.2).1) in
          omega (arith, taken, some_events, f, b1, d1)

      -- The loop ends: with fuel beyond the number of stored rows it returns.
      pub deliver_all-returns :
          (fuel : ℕ) (delivered_any : Bool) (x : Shared × S × K)
          → length (pending x.1) < fuel
          → (r : Bool × (Shared × S × K)) × (deliver_all store write between during fuel
                delivered_any x
              ≡ some r)
      unfolding deliver_all
      deliver_all-returns zero delivered_any x h = absurd (omega arith)
      deliver_all-returns (suc fuel) delivered_any (p, s, k) h =
          elim (Bool-cases (round (p, s, k)).0) [
            | inr last ↦ ((delivered_any, (round (p, s, k)).1), rw last refl)
            | inl again ↦
                let less = round-shrinks p s k again in
                let (r, e) = deliver_all-returns fuel true (round (p, s, k)).1 (omega arith) in
                (r, rw again e)
          ]
