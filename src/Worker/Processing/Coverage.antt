-- ===== src/Worker/Processing/Coverage.antt =====
-- How the loop of process_incoming (src/worker.cpp) counts the events that it drops and keeps.
use player_trace_sdk.Base.{
  ℕ, suc, ==_iff, ◌⊎◌, ◌+◌, ◌≤◌, ◌≡◌, refl, ap, ◌∙◌, inl, inr, List, [], ◌∷◌, ◌++◌, length,
  length-append, ◌==◌, arith, Bool-cases,
}
use player_trace_sdk.Types.{Status, is_ok, Bytes, Event, QueuedEvent}
use player_trace_sdk.Pipeline.{
  Pipeline, release_outstanding, count_discarded_consent, count_dropped_invalid, report_error,
}
use player_trace_sdk.Store.Interface.{StoredRecord, insert_or_ignore, is_ignored}
use player_trace_sdk.Worker.Processing.{with_event, discard, drop_invalid, screen}

pub insert_or_ignore-length :
    (records rows : List StoredRecord)
    → length (insert_or_ignore records rows) ≤ length records + length rows
unfolding insert_or_ignore
insert_or_ignore-length [] rows = omega arith
insert_or_ignore-length (r ∷ rest) rows = elim (Bool-cases (is_ignored r rows)) [
  | inl e ↦ rw e (let rest' = insert_or_ignore-length rest rows in omega arith)
  | inr e ↦ rw e (
      let rest' = insert_or_ignore-length rest (rows ++ r ∷ []) in
      omega (arith, rest', length-append rows (r ∷ [])))
]

pub discard-queue : (n : ℕ) (p : Pipeline) → (discard n p).queue ≡ p.queue
unfolding discard release_outstanding count_discarded_consent
discard-queue n p = refl

pub discard-outstanding : (n : ℕ) (p : Pipeline) → p.outstanding ≤ (discard n p).outstanding + n
unfolding discard release_outstanding count_discarded_consent
discard-outstanding n p = ground arith

drop_invalid-queue : (s : Status) (p : Pipeline) → (drop_invalid s p).queue ≡ p.queue
unfolding drop_invalid release_outstanding count_dropped_invalid report_error
drop_invalid-queue s p = refl

drop_invalid-outstanding :
    (s : Status) (p : Pipeline) → p.outstanding ≤ (drop_invalid s p).outstanding + 1
unfolding drop_invalid release_outstanding count_dropped_invalid report_error
drop_invalid-outstanding s p = ground arith

module _ (serialize : Event → Status × Bytes) (generation : ℕ) where
  -- The loop drops an event and releases its place, or keeps it, as one of the generation.
  pub screen_cases :
      (qe : QueuedEvent) (batch : List QueuedEvent) (p : Pipeline)
      → ((p' : Pipeline) × (screen serialize generation (qe ∷ batch) p
            ≡ screen serialize generation batch p')
          × (p'.queue ≡ p.queue)
          × (p.outstanding ≤ p'.outstanding + 1))
        ⊎ ((qe.consent_generation ≡ generation)
            × (screen serialize generation (qe ∷ batch) p ≡ (
              with_event qe (serialize qe.event).1 (screen serialize generation batch p).0,
              (screen serialize generation batch p).1,
            )))
  unfolding screen
  screen_cases qe batch p = elim (Bool-cases (qe.consent_generation == generation)) [
    | inr stale ↦ inl (discard 1 p, rw stale refl, discard-queue 1 p, discard-outstanding 1 p)
    | inl current ↦ elim (Bool-cases (is_ok (serialize qe.event).0)) [
      | inr bad ↦ inl (
        drop_invalid (serialize qe.event).0 p,
        rw (current, bad) refl,
        drop_invalid-queue (serialize qe.event).0 p,
        drop_invalid-outstanding (serialize qe.event).0 p,
      )
      | inl good ↦
          inr ((==_iff qe.consent_generation generation).0 current, rw (current, good) refl)
    ]
  ]

  -- Every event that the loop drops has its place released, and no other.
  pub screen-releases :
      (batch : List QueuedEvent) (p : Pipeline) (n : ℕ)
      → n + length batch ≤ p.outstanding
      → n + length (screen serialize generation batch p).0.1
        ≤ (screen serialize generation batch p).1.outstanding
  unfolding screen
  screen-releases [] p n h = h
  screen-releases (qe ∷ batch) p n h = elim (screen_cases qe batch p) [
    | inl (p', e, q, o) ↦ rw e (screen-releases batch p' n (omega arith))
    | inr (g, e) ↦ rw e (let rest = screen-releases batch p (suc n) (omega arith) in omega arith)
  ]

  pub screen-length :
      (batch : List QueuedEvent) (p : Pipeline)
      → length (screen serialize generation batch p).0.0
        ≡ length (screen serialize generation batch p).0.1
  unfolding screen
  screen-length [] p = refl
  screen-length (qe ∷ batch) p = elim (screen_cases qe batch p) [
    | inl (p', e, q, o) ↦ rw e (screen-length batch p')
    | inr (g, e) ↦ rw e (ap suc (screen-length batch p))
  ]

  pub screen-queue :
      (batch : List QueuedEvent) (p : Pipeline)
      → (screen serialize generation batch p).1.queue ≡ p.queue
  unfolding screen
  screen-queue [] p = refl
  screen-queue (qe ∷ batch) p = elim (screen_cases qe batch p) [
    | inl (p', e, q, o) ↦ rw e (screen-queue batch p' ∙ q)
    | inr (g, e) ↦ rw e (screen-queue batch p)
  ]
