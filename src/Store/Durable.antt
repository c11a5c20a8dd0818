-- ===== src/Store/Durable.antt =====
-- The store of src/sqlite_store.cpp as what the client uses for a revocation.
pub mod Events
use player_trace_sdk.Base.{
  ◌≡◌, ◌≢◌, ◌⊎◌, refl, ap, inl, inr, Bool, true, false, List, [], ◌∷◌, length, arith, map, Option,
  none, some, arith, length,
}
use player_trace_sdk.Base.Words.{add64}
use player_trace_sdk.Types.{Status, ok, storage_error, ConsentState, is_granted}
use player_trace_sdk.Store.Interface.{RevocationStore, StoredRecord}
use player_trace_sdk.Store.Sqlite.{Sqlite, Tables, Row, has_key}
use player_trace_sdk.Store.Transactions.{
  revocation_key, mark_revocation_pending, purge_and_clear_revocation,
}
use player_trace_sdk.Store.Transactions.Atomic.{Result}
use player_trace_sdk.Store.Transactions.Methods.{
  records_of, Marks, Purges, mark_revocation_pending-IsAtomic, purge-IsAtomic,
}
use player_trace_sdk.Client.State.{Impl}
use player_trace_sdk.Client.Consent.{set_consent, close_consent}
use player_trace_sdk.Client.Consent.Revoke.{IsClosed, IsConcurrent, set_consent_revoke}

-- The status that a method returns.
unfoldable pub status_of : {A : Type 0} → Option A → Status
status_of none = storage_error
status_of (some a) = ok

no_rows : (rows : List Row) → map (λ (r : Row). r.stored) rows ≡ [] → rows ≡ []
no_rows [] h = refl
no_rows (r ∷ rows) h = absurd (ground (arith, ap length h))

module _ {D : Type 0} (db : Sqlite D) where
  open db use {committed}

  abbrev pub rows : D → List StoredRecord
  rows d = records_of (committed d)

  abbrev pub is_marked : D → Bool
  is_marked d = has_key revocation_key (committed d).meta

  pub marks :
      {A : Type 0} (d : D) (r : Option A) (d' : D)
      → Result db Marks d r d'
      → (status_of r ≡ ok → (is_marked d' ≡ true) × (rows d' ≡ rows d))
        × (status_of r ≢ ok → (is_marked d' ≡ is_marked d) × (rows d' ≡ rows d))
  unfolding status_of
  marks d none d' h = (
    λ e. absurd (ground (arith, e)),
    λ e. (ap (λ (t : Tables). has_key revocation_key t.meta) h, ap records_of h),
  )
  marks d (some a) d' (m, e) = (λ _. (m, ap (map (λ (r : Row). r.stored)) e), λ n. absurd (n refl))

  pub purges :
      {A : Type 0} (d : D) (r : Option A) (d' : D)
      → Result db Purges d r d'
      → (status_of r ≡ ok → (is_marked d' ≡ false) × (rows d' ≡ []))
        × (status_of r ≢ ok → (is_marked d' ≡ is_marked d) × (rows d' ≡ rows d))
  unfolding status_of
  purges d none d' h = (
    λ e. absurd (ground (arith, e)),
    λ e. (ap (λ (t : Tables). has_key revocation_key t.meta) h, ap records_of h),
  )
  purges d (some a) d' (m, e) = (λ _. (m, ap (map (λ (r : Row). r.stored)) e), λ n. absurd (n refl))

  -- The interface, filled with the methods of the store over SQLite.
  abbrev pub durable : RevocationStore D
  durable = record {
    mark_revocation_pending = λ d. let (r, d') = mark_revocation_pending db d in (status_of r, d');
    purge_and_clear_revocation =
        λ d. let (r, d') = purge_and_clear_revocation db d in (status_of r, d');
    pending = rows;
    marked = is_marked;
    mark_ok = λ d.
        (marks d (mark_revocation_pending db d).0 (mark_revocation_pending db d).1
          (mark_revocation_pending-IsAtomic db d)).0;
    mark_failed = λ d.
        (marks d (mark_revocation_pending db d).0 (mark_revocation_pending db d).1
          (mark_revocation_pending-IsAtomic db d)).1;
    purge_ok = λ d.
        (purges d (purge_and_clear_revocation db d).0 (purge_and_clear_revocation db d).1
          (purge-IsAtomic db d)).0;
    purge_failed = λ d.
        (purges d (purge_and_clear_revocation db d).0 (purge_and_clear_revocation db d).1
          (purge-IsAtomic db d)).1;
  }

  -- What a revocation leaves in the tables.
  pub record Revokes (state : ConsentState) (im : Impl) (before : D) (s : Status) (im' : Impl)
      (d : D) : Type 0 where
    pub closed : IsClosed state (add64 im.pipeline.consent_generation 1) im'
    pub cases :
        ((s ≡ ok)
          × ((committed d).events ≡ [])
          × (is_marked d ≡ false)
          × (im'.purge_required ≡ false)
          × (im'.pipeline.outstanding ≡ 0))
        ⊎ ((s ≡ storage_error)
            × (im'.purge_required ≡ true)
            × (((mark_revocation_pending db before).0 ≡ none)
                ⊎ (is_marked d ≡ true)
                ⊎ ((committed d).events ≡ [])))

  unwritten : {A : Type 0} (r : Option A) → status_of r ≢ ok → r ≡ none
  unfolding status_of
  unwritten none h = refl
  unwritten (some a) h = absurd (h refl)

  -- Where other threads act only within the limits of IsConcurrent, before the marker and before
  -- the purge: revoking consent over the SQLite store closes collection whatever the store does. It
  -- succeeds only once neither a row nor the marker is committed, with nothing counted; otherwise
  -- it reports a storage error with the purge still owed, and the marker is committed, or could not
  -- be written, or no row is left.
  pub revoke_durably :
      (w1 w2 : Impl × D → Impl × D) (state : ConsentState) (im : Impl) (d : D)
      → IsConcurrent durable w1
      → IsConcurrent durable w2
      → is_granted state ≡ false
      → (let r = set_consent durable w1 w2 state (im, d) in
          Revokes state im (w1 (close_consent state im, d)).1 r.0 r.1 r.2)
  revoke_durably w1 w2 state im d q1 q2 h =
      let (closed, result) = set_consent_revoke durable w1 w2 state im d q1 q2 h in
      let r = set_consent durable w1 w2 state (im, d) in
      let before = (w1 (close_consent state im, d)).1 in
      record {
        closed = closed;
        cases = elim result [
          | inl (e, p) ↦ inl (
            e,
            no_rows (committed r.2).events p.no_rows,
            p.no_marker,
            p.settled,
            p.nothing_counted,
          )
          | inr (e, owed, why) ↦ inr (
            e,
            owed,
            elim why [
              | inl bad ↦ inl (unwritten (mark_revocation_pending db before).0 bad)
              | inr (inl still) ↦ inr (inl still)
              | inr (inr gone) ↦ inr (inr (no_rows (committed r.2).events gone))
            ],
          )
        ];
      }
