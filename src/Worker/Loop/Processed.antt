-- ===== src/Worker/Loop/Processed.antt =====
-- What pop_wait and process_incoming of src/worker.cpp do to the events and to the tokens.
use player_trace_sdk.Base.{
  ℕ, ◌+◌, ◌≤◌, ◌≡◌, refl, ap, List, [], ◌∷◌, ◌++◌, length, length-append, length-take, length-drop,
  inl, inr, arith, Bool-cases,
}
use player_trace_sdk.Types.{Status, is_ok, is_granted, Bytes, Event, QueuedEvent}
use player_trace_sdk.Validator.Keys.{is_empty}
use player_trace_sdk.Queue.{pop_wait}
use player_trace_sdk.Queue.Laws.{move_out-take-drop}
use player_trace_sdk.Pipeline.{
  Pipeline, release_outstanding, count_discarded_consent, count_persisted, report_error,
}
use player_trace_sdk.Worker.Core.{WorkerCore, Shared, note_error, hold_for_retry, take_retry}
use player_trace_sdk.Worker.Processing.{
  with_pipeline, discard, screen, commit_batch, process_batch, process_incoming, purge_store,
}
use player_trace_sdk.Worker.Processing.Coverage.{
  screen_cases, screen-queue, discard-queue, screen-length, insert_or_ignore-length,
}
use player_trace_sdk.Worker.Processing.Covered.{is_ok-ok, is_ok-failed, hold_for_retry-length}
use player_trace_sdk.Store.Interface.{EventStore, StoredRecord}
use player_trace_sdk.Worker.Loop.{take_batch}
use player_trace_sdk.Worker.Loop.Advance.{
  board, board-Follows, Advances, Advances-known, Advances-more, Follows-trans, Advances-trans,
  Advances-then, purge_store-Advances,
}

-- What pop_wait takes leaves the queue, and nothing else changes.
pub take_batch_lem :
    (p : Shared)
    → (length (take_batch p).0 + length (take_batch p).1.pipeline.queue.queue
        ≡ length p.pipeline.queue.queue)
      × ((take_batch p).1.core ≡ p.core)
unfolding take_batch pop_wait
take_batch_lem p =
    let n = p.pipeline.config.batch_size in
    let es = p.pipeline.queue.queue in
    (rw (move_out-take-drop n es) (omega (arith, length-take n es, length-drop n es)), refl)

screen-shortens :
    (serialize : Event → Status × Bytes) (generation : ℕ) (batch : List QueuedEvent) (p : Pipeline)
    → length (screen serialize generation batch p).0.1 ≤ length batch
unfolding screen
screen-shortens serialize generation [] p = omega arith
screen-shortens serialize generation (qe ∷ batch) p =
    elim (screen_cases serialize generation qe batch p) [
      | inl (p', e, q, o) ↦
          rw e (let rest = screen-shortens serialize generation batch p' in omega arith)
      | inr (g, e) ↦ rw e (let rest = screen-shortens serialize generation batch p in omega arith)
    ]

hold_for_retry-board :
    (batch : List QueuedEvent) (c : WorkerCore) → board (hold_for_retry batch c) ≡ board c
unfolding hold_for_retry
hold_for_retry-board batch c = ground arith

module _ {S : Type 0} (store : EventStore S) where
  open store use {pending, insert, insert_ok, insert_failed}

  commit_batch-frame :
      (generation : ℕ) (records : List StoredRecord) (keep : List QueuedEvent) (p : Shared) (s : S)
      → ((commit_batch store generation (records, keep) (p, s)).0.pipeline.queue.queue
          ≡ p.pipeline.queue.queue)
        × (board (commit_batch store generation (records, keep) (p, s)).0.core ≡ board p.core)
  unfolding commit_batch discard release_outstanding count_discarded_consent note_error report_error
      count_persisted
  commit_batch-frame generation records keep p s = (
    ground arith,
    ground (arith, hold_for_retry-board keep (note_error (insert records s).0 p).core),
  )

  commit_batch-Advances :
      (generation : ℕ) (records : List StoredRecord) (keep : List QueuedEvent) (p : Shared) (s : S)
      → length records ≡ length keep
      → Advances store (length keep) (p, s) (commit_batch store generation (records, keep) (p, s))
  unfolding commit_batch discard release_outstanding count_discarded_consent note_error report_error
      count_persisted
  commit_batch-Advances generation records keep p s same =
      let (q, b) = commit_batch-frame generation records keep p s in
      Advances-known store (length keep) (p, s)
        (commit_batch store generation (records, keep) (p, s)) q
        (elim (Bool-cases (is_ok (insert records s).0)) [
          | inr failed ↦ ground (
            arith,
            ap length (insert_failed records s (is_ok-failed (insert records s).0 failed)),
            hold_for_retry-length keep p.core,
            hold_for_retry-length keep (note_error (insert records s).0 p).core,
          )
          | inl done ↦ ground (
            arith,
            ap length (insert_ok records s (is_ok-ok (insert records s).0 done)),
            insert_or_ignore-length records (pending s),
          )
        ])
        b

  -- Nothing but counters changes.
  counts-Advances :
      (f : Pipeline) (p : Shared) (s : S)
      → f.queue ≡ p.pipeline.queue
      → Advances store 0 (p, s) (with_pipeline f p, s)
  counts-Advances f p s e =
      Advances-known store 0 (p, s) (with_pipeline f p, s) (ap (λ q. q.queue) e) (omega arith) refl

  module _ (serialize : Event → Status × Bytes) (at_lock : Shared × S → Shared × S)
      (quiet : (x : Shared × S) → Advances store 0 x (at_lock x)) where
    process_batch-Advances :
        (batch : List QueuedEvent) (p : Shared) (s : S)
        → Advances store (length batch) (p, s) (process_batch store serialize at_lock batch (p, s))
    unfolding process_batch
    process_batch-Advances batch p s =
        let generation = p.pipeline.consent_generation in
        let screened = screen serialize generation batch p.pipeline in
        let x1 : Shared × S = (with_pipeline screened.1 p, s) in
        let f1 =
          counts-Advances screened.1 p s (screen-queue serialize generation batch p.pipeline) in
        let fewer = screen-shortens serialize generation batch p.pipeline in
        let x2 = at_lock x1 in
        let x3 = commit_batch store generation screened.0 x2 in
        elim (Bool-cases (is_empty screened.0.0)) [
          | inl none ↦ rw none (Advances-more store 0 (length batch) (p, s) x1 (omega arith) f1)
          | inr some ↦ rw some (
              Advances-more store (0 + length screened.0.1) (length batch) (p, s) x3
                (omega (arith, fewer))
                (Advances-trans store 0 (length screened.0.1) (p, s) x2 x3
                  (Advances-then store 0 (p, s) x1 x2 f1 (quiet x1))
                  (commit_batch-Advances generation screened.0.0 screened.0.1 x2.0 x2.1
                    (screen-length serialize generation batch p.pipeline))))
        ]

    -- The retry buffer is in the batch.
    taken_back :
        (drained : List QueuedEvent) (p : Shared) (s : S) (y : Shared × S)
        → Advances store
            (length (p.core.retry ++ drained))
            (record p { core = record p.core { retry = [] } }, s)
            y
        → Advances store (length drained) (p, s) y
    taken_back drained p s y f =
        let all = length-append p.core.retry drained in
        let m = f.more in
        let taken = record p.core { retry = [] } in
        record {
          queue = f.queue;
          more = omega (arith, m, all);
          follows = Follows-trans p.core taken y.0.core (board-Follows p.core taken refl) f.follows;
        }

    -- The queue stays, and no more events come to those held or stored than were drained.
    pub process_incoming-Advances :
        (drained : List QueuedEvent) (p : Shared) (s : S)
        → Advances store
            (length drained)
            (p, s)
            (process_incoming store serialize at_lock drained (p, s))
    unfolding process_incoming take_retry
    process_incoming-Advances drained p s =
        let batch = p.core.retry ++ drained in
        let taken = record p { core = record p.core { retry = [] } } in
        elim (Bool-cases (is_empty batch)) [
          | inl none ↦ rw none (
              taken_back drained p s (taken, s)
                (Advances-known store (length batch) (taken, s) (taken, s) refl (omega arith) refl))
          | inr some ↦ elim (Bool-cases (is_granted p.pipeline.consent)) [
            | inl granted ↦
                rw (some, granted)
                  (taken_back drained p s (process_batch store serialize at_lock batch (taken, s))
                    (process_batch-Advances batch taken s))
            | inr denied ↦
                rw (some, denied)
                  (let less = with_pipeline (discard (length batch) taken.pipeline) taken in
                    let purged = purge_store store (less, s) in
                    taken_back drained p s purged (
                      Advances-more store 0 (length batch) (taken, s) purged (omega arith)
                        (Advances-then store 0 (taken, s) (less, s) purged
                          (counts-Advances less.pipeline taken s
                            (discard-queue (length batch) p.pipeline))
                          (purge_store-Advances store less s))))
          ]
        ]
