-- ===== src/Client/Consent/Revoke.antt =====
-- set_consent of src/client.cpp, over a store that may fail at any step.
use player_trace_sdk.Base.{ℕ, ◌≡◌, ◌≢◌, ◌∙◌, ◌⊎◌, inl, inr, true, false, [], arith, Bool-cases}
use player_trace_sdk.Base.Words.{add64}
use player_trace_sdk.Types.{Status, ok, is_ok, storage_error, ConsentState, granted, is_granted}
use player_trace_sdk.Queue
use player_trace_sdk.Session
use player_trace_sdk.Pipeline
use player_trace_sdk.Worker.Core
use player_trace_sdk.Store.Interface.{RevocationStore}
use player_trace_sdk.Client.State.{Impl}
use player_trace_sdk.Client.Consent.{
  close_consent, discard_queued, run_purge, grant_consent, set_consent,
}

-- Collection is closed: the consent, the generation, no session, nothing queued, a purge owed.
pub record IsClosed (state : ConsentState) (generation : ℕ) (im : Impl) : Type 0 where
  pub consent_is : im.pipeline.consent ≡ state
  pub generation_is : im.pipeline.consent_generation ≡ generation
  pub no_session : im.session.active ≡ false
  pub nothing_queued : im.pipeline.queue.queue ≡ []

close_consent-IsClosed :
    (state : ConsentState) (im : Impl)
    → IsClosed state (add64 im.pipeline.consent_generation 1) (close_consent state im)
      × ((close_consent state im).purge_required ≡ true)
      × ((close_consent state im).core.retry ≡ [])
      × ((close_consent state im).core.pending_error ≡ ok)
unfolding close_consent discard_queued Queue.clear Pipeline.bump_consent_generation
    Pipeline.set_consent_state Pipeline.release_outstanding Pipeline.count_discarded_consent
    Session.deactivate Core.forget_errors Core.discard_in_flight
close_consent-IsClosed state im = (
  record {
    consent_is = ground arith;
    generation_is = ground arith;
    no_session = ground arith;
    nothing_queued = ground arith;
  },
  ground arith,
  ground arith,
  ground arith,
)

module _ {S : Type 0} (store : RevocationStore S) where
  open store use {
    mark_revocation_pending, purge_and_clear_revocation, pending, marked, mark_ok, mark_failed,
    purge_ok, purge_failed,
  }

  -- What other threads may do while the consent lock is held: they leave consent, its generation and
  -- the session alone, queue nothing, and clear the marker only with the rows.
  pub record Concurrent (a b : Impl × S) : Type 0 where
    pub consent_kept : b.0.pipeline.consent ≡ a.0.pipeline.consent
    pub generation_kept : b.0.pipeline.consent_generation ≡ a.0.pipeline.consent_generation
    pub session_kept : b.0.session ≡ a.0.session
    pub purge_kept : b.0.purge_required ≡ a.0.purge_required
    pub queue_kept : a.0.pipeline.queue.queue ≡ [] → b.0.pipeline.queue.queue ≡ []
    pub debt_kept : marked a.1 ≡ true → (marked b.1 ≡ true) ⊎ (pending b.1 ≡ [])

  abbrev pub IsConcurrent : (Impl × S → Impl × S) → Type 0
  IsConcurrent w = (a : Impl × S) → Concurrent a (w a)

  IsClosed-Concurrent :
      (state : ConsentState) (g : ℕ) (a b : Impl × S)
      → Concurrent a b
      → IsClosed state g a.0
      → IsClosed state g b.0
  IsClosed-Concurrent state g a b k c = record {
    consent_is = ground arith;
    generation_is = ground arith;
    no_session = ground arith;
    nothing_queued = k.queue_kept c.nothing_queued;
  }

  -- The purge is done: no row and no marker is left, and nothing counts against the cap.
  pub record IsPurged (im : Impl) (s : S) : Type 0 where
    pub no_rows : pending s ≡ []
    pub no_marker : marked s ≡ false
    pub settled : im.purge_required ≡ false
    pub nothing_counted : im.pipeline.outstanding ≡ 0

  module _ (w2 : Impl × S → Impl × S) (quiet : IsConcurrent w2) (im : Impl) (s : S) where
    abbrev purged : Status × Impl × S
    purged = run_purge store w2 (im, s)

    -- What is known where the purge failed: the client still owes it; and if the marker was written,
    -- it is still there, unless the rows are gone anyway.
    abbrev Owes : Type 0
    Owes =
        (purged.1.purge_required ≡ im.purge_required)
        × (((mark_revocation_pending s).0 ≢ ok)
            ⊎ (marked purged.2 ≡ true)
            ⊎ (pending purged.2 ≡ []))

    run_purge_cases :
        ((purged.0 ≡ ok) × IsPurged purged.1 purged.2) ⊎ ((purged.0 ≡ storage_error) × Owes)
    unfolding run_purge Pipeline.reset_outstanding Pipeline.report_error
    run_purge_cases =
        let s1 = (mark_revocation_pending s).1 in
        let k = quiet (im, s1) in
        elim (Bool-cases (is_ok (mark_revocation_pending s).0)) [
          | inr bad ↦ inr (ground arith, (ground arith, inl (λ e. ground arith)))
          | inl good ↦ elim (Bool-cases (is_ok (purge_and_clear_revocation (w2 (im, s1)).1).0)) [
            | inr bad ↦
                let m = mark_ok s (ground arith) in
                let f = purge_failed (w2 (im, s1)).1 (λ e. ground arith) in
                inr (
                  ground arith,
                  (
                    ground arith,
                    inr (elim (k.debt_kept m.0) [
                      | inl still ↦ inl (ground arith)
                      | inr gone ↦ inr (ground arith)
                    ]),
                  ),
                )
            | inl done ↦
                let p = purge_ok (w2 (im, s1)).1 (ground arith) in
                inl (
                  ground arith,
                  record {
                    no_rows = ground arith;
                    no_marker = ground arith;
                    settled = ground arith;
                    nothing_counted = ground arith;
                  },
                )
          ]
        ]

    run_purge-IsClosed :
        (state : ConsentState) (g : ℕ) → IsClosed state g im → IsClosed state g purged.1
    unfolding run_purge Pipeline.reset_outstanding Pipeline.report_error
    run_purge-IsClosed state g c =
        let s1 = (mark_revocation_pending s).1 in
        let k = quiet (im, s1) in
        let c2 = IsClosed-Concurrent state g (im, s1) (w2 (im, s1)) k c in
        record {
          consent_is = ground arith;
          generation_is = ground arith;
          no_session = ground arith;
          nothing_queued = ground arith;
        }

    run_purge-consent : purged.1.pipeline.consent ≡ im.pipeline.consent
    unfolding run_purge Pipeline.reset_outstanding Pipeline.report_error
    run_purge-consent = let k = quiet (im, (mark_revocation_pending s).1) in ground arith

  -- Taking consent away closes collection before anything else: whatever the store does, afterwards
  -- the consent is the new one, a new generation is in force, no session is active and nothing is
  -- queued. It succeeds only with no row, no marker and nothing counted left; otherwise it reports a
  -- storage error and the purge stays owed, in the store too if its marker could be written.
  pub set_consent_revoke :
      (w1 w2 : Impl × S → Impl × S) (state : ConsentState) (im : Impl) (s : S)
      → IsConcurrent w1
      → IsConcurrent w2
      → is_granted state ≡ false
      → let r = set_consent store w1 w2 state (im, s) in
        let before = w1 (close_consent state im, s) in
        IsClosed state (add64 im.pipeline.consent_generation 1) r.1
        × (((r.0 ≡ ok) × IsPurged r.1 r.2)
            ⊎ ((r.0 ≡ storage_error)
                × (r.1.purge_required ≡ true)
                × (((mark_revocation_pending before.1).0 ≢ ok)
                    ⊎ (marked r.2 ≡ true)
                    ⊎ (pending r.2 ≡ []))))
  unfolding set_consent
  set_consent_revoke w1 w2 state im s q1 q2 h =
      let start : Impl × S = (close_consent state im, s) in
      let c = close_consent-IsClosed state im in
      let before = w1 start in
      let g = add64 im.pipeline.consent_generation 1 in
      let k = q1 start in
      let c1 = IsClosed-Concurrent state g start before k c.0 in
      rw h (
        run_purge-IsClosed w2 q2 before.0 before.1 state g c1,
        elim (run_purge_cases w2 q2 before.0 before.1) [
          | inl good ↦ inl good
          | inr (e, o) ↦ inr (e, o.0 ∙ k.purge_kept ∙ c.1, o.1)
        ],
      )

  -- Consent is never given while a purge is owed: it is granted only once the purge has succeeded,
  -- and otherwise the call fails, the consent stays as it was and the purge stays owed.
  pub set_consent_grant :
      (w1 w2 : Impl × S → Impl × S) (im : Impl) (s : S)
      → IsConcurrent w2
      → im.purge_required ≡ true
      → let r = set_consent store w1 w2 granted (im, s) in
        ((r.0 ≡ ok) × (r.1.pipeline.consent ≡ granted) × IsPurged r.1 r.2)
        ⊎ ((r.0 ≡ storage_error)
            × (r.1.pipeline.consent ≡ im.pipeline.consent)
            × (r.1.purge_required ≡ true))
  unfolding set_consent grant_consent Pipeline.set_consent_state
  set_consent_grant w1 w2 im s q2 h = elim (run_purge_cases w2 q2 im s) [
    | inl (e, p) ↦ inl (
      ground arith,
      ground arith,
      record {
        no_rows = ground arith;
        no_marker = ground arith;
        settled = ground arith;
        nothing_counted = ground arith;
      },
    )
    | inr (e, o) ↦ inr (ground arith, ground (arith, run_purge-consent w2 q2 im s), ground arith)
  ]
