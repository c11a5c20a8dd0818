-- ===== src/Worker/Processing/Boundary.antt =====
-- What process_incoming of src/worker.cpp writes to the store.
use player_trace_sdk.Base.{
  ℕ, ◌≡◌, refl, sym, subst, ◌⊎◌, inl, inr, true, false, List, [], ◌∷◌, ◌++◌, ◌==◌, ==_iff,
  Bool-cases, length,
}
use player_trace_sdk.Types.{Status, is_ok, is_granted, Bytes, Event, QueuedEvent}
use player_trace_sdk.Validator.Keys.{is_empty}
use player_trace_sdk.Pipeline.{Pipeline}
use player_trace_sdk.Worker.Core.{Shared, take_retry}
use player_trace_sdk.Store.Interface.{StoredRecord, EventStore, insert_or_ignore}
use player_trace_sdk.Worker.Processing.{
  screen, purge_store, commit_batch, process_batch, process_incoming, with_pipeline, discard,
}
use player_trace_sdk.Worker.Processing.Coverage.{screen_cases}
use player_trace_sdk.Worker.Processing.Covered.{is_ok-ok, is_ok-failed}

-- The records of events of one consent generation, in the order of the events; the others are left out.
pub data Records (generation : ℕ) : List StoredRecord → List QueuedEvent → Type 0 where
  nil : Records generation [] []
  passed :
      (qe : QueuedEvent) {records : List StoredRecord} {batch : List QueuedEvent}
      → Records generation records batch
      → Records generation records (qe ∷ batch)
  stored :
      (qe : QueuedEvent) (payload : Bytes) {records : List StoredRecord} {batch : List QueuedEvent}
      → qe.consent_generation ≡ generation
      → Records generation records batch
      → Records generation
          (record {
            event_id = qe.event.event_id;
            session_id = qe.event.session_id;
            sequence = qe.event.sequence;
            ordinal = qe.ordinal;
            created_ms = qe.event.timestamp_ms;
            payload = payload;
          }
            ∷ records)
          (qe ∷ batch)

screen-Records :
    (serialize : Event → Status × Bytes) (generation : ℕ) (batch : List QueuedEvent) (p : Pipeline)
    → Records generation (screen serialize generation batch p).0.0 batch
unfolding screen
screen-Records serialize generation [] p = nil
screen-Records serialize generation (qe ∷ batch) p =
    elim (screen_cases serialize generation qe batch p) [
      | inl (p', e, _, _) ↦ rw e (passed qe (screen-Records serialize generation batch p'))
      | inr (g, e) ↦
          rw e (stored qe (serialize qe.event).1 g (screen-Records serialize generation batch p))
    ]

module _ {S : Type 0} (store : EventStore S) where
  open store use {
    pending, insert, insert_ok, insert_failed, purge_and_clear_revocation, purge_ok, purge_failed,
  }

  -- What a write under the store's lock leaves: the rows as they were, or, where consent is given at
  -- that moment, the rows with the records of the generation in force at that moment.
  abbrev pub Writes : List QueuedEvent → Shared × S → S → Type 0
  Writes batch (p, s) after =
      (pending after ≡ pending s)
      ⊎ ((is_granted p.pipeline.consent ≡ true)
          × (records : List StoredRecord) × Records p.pipeline.consent_generation records batch
          × (pending after ≡ insert_or_ignore records (pending s)))

  purge_store-pending :
      (p : Shared) (s : S)
      → (pending (purge_store store (p, s)).1 ≡ pending s)
        ⊎ (pending (purge_store store (p, s)).1 ≡ [])
  unfolding purge_store
  purge_store-pending p s = elim (Bool-cases (is_ok (purge_and_clear_revocation s).0)) [
    | inr failed ↦
        rw failed (inl (purge_failed s (is_ok-failed (purge_and_clear_revocation s).0 failed)).1)
    | inl done ↦ rw done (inr (purge_ok s (is_ok-ok (purge_and_clear_revocation s).0 done)).1)
  ]

  commit_batch-Writes :
      (generation : ℕ) (records : List StoredRecord) (keep batch : List QueuedEvent) (p : Shared)
      (s : S)
      → Records generation records batch
      → Writes batch (p, s) (commit_batch store generation (records, keep) (p, s)).1
  unfolding commit_batch
  commit_batch-Writes generation records keep batch p s r =
      elim (Bool-cases (is_granted p.pipeline.consent)) [
        | inr denied ↦ rw denied (inl refl)
        | inl granted ↦ elim (Bool-cases (p.pipeline.consent_generation == generation)) [
          | inr stale ↦ rw (granted, stale) (inl refl)
          | inl current ↦ elim (Bool-cases (is_ok (insert records s).0)) [
            | inr failed ↦
                rw (granted, current, failed)
                  (inl (insert_failed records s (is_ok-failed (insert records s).0 failed)))
            | inl done ↦
                let same = sym ((==_iff p.pipeline.consent_generation generation).0 current) in
                rw (granted, current, done)
                  (inr (
                    refl,
                    records,
                    subst (λ g. Records g records batch) same r,
                    insert_ok records s (is_ok-ok (insert records s).0 done),
                  ))
          ]
        ]
      ]

  module _ (serialize : Event → Status × Bytes) (between : Shared × S → Shared × S)
      (drained : List QueuedEvent) (p : Shared) (s : S) where
    -- The worker as it takes the store's lock, once other threads have acted.
    abbrev pub at_lock : Shared × S
    at_lock = between (
      record {
        pipeline =
            (screen serialize p.pipeline.consent_generation (p.core.retry ++ drained) p.pipeline).1;
        core = record p.core { retry = [] };
      },
      s,
    )

    -- What process_incoming does to the table: nothing; or, where consent was not given, the purge; or one
    -- write, which needs consent at the moment when the store is locked and stores only
    -- events that were admitted under the consent generation of that moment, those held for retry first.
    pub process_incoming-boundary :
        (pending (process_incoming store serialize between drained (p, s)).1 ≡ pending s)
        ⊎ ((is_granted p.pipeline.consent ≡ false)
            × (pending (process_incoming store serialize between drained (p, s)).1 ≡ []))
        ⊎ Writes
            (p.core.retry ++ drained)
            at_lock
            (process_incoming store serialize between drained (p, s)).1
    unfolding process_incoming process_batch take_retry
    process_incoming-boundary =
        let batch = p.core.retry ++ drained in
        let generation = p.pipeline.consent_generation in
        elim (Bool-cases (is_empty batch)) [
          | inl none ↦ rw none (inl refl)
          | inr some ↦ elim (Bool-cases (is_granted p.pipeline.consent)) [
            | inr denied ↦
                rw (some, denied)
                  (elim (purge_store-pending
                    (with_pipeline (discard (length batch) p.pipeline)
                      (record p { core = record p.core { retry = [] } }))
                    s) [ inl e ↦ inl e | inr e ↦ inr (inl (refl, e)) ])
            | inl granted ↦
                elim (Bool-cases (is_empty (screen serialize generation batch p.pipeline).0.0)) [
                  | inl nothing ↦ rw (some, granted, nothing) (inl refl)
                  | inr work ↦
                      rw (some, granted, work)
                        (inr (
                          inr (
                            commit_batch-Writes generation
                              (screen serialize generation batch p.pipeline).0.0
                              (screen serialize generation batch p.pipeline).0.1 batch at_lock.0
                              at_lock.1 (screen-Records serialize generation batch p.pipeline))))
                ]
          ]
        ]
