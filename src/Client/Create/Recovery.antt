-- ===== src/Client/Create/Recovery.antt =====
-- What ClientInternal::create (src/client.cpp) recovers from the store.
use player_trace_sdk.Base.{
  ℕ, ◌≡◌, sym, ap, ◌∙◌, Bool, true, false, not, ◌||◌, [], Option, none, some, length, inl, inr,
  Bool-cases, arith, subst,
}
use player_trace_sdk.Types.{ConsentState, is_granted}
use player_trace_sdk.Store.Action.{After, Leads, Leads->>=, return}
use player_trace_sdk.Store.Sqlite.{Sqlite, Tables, has_key}
use player_trace_sdk.Store.Transactions.{revocation_key, purge_and_clear_revocation}
use player_trace_sdk.Store.Transactions.Atomic.{Result, Ended}
use player_trace_sdk.Store.Transactions.Methods.{Purges, purge-IsAtomic, purge-Ended}
use player_trace_sdk.Store.Reads.{
  Queries, Unmoved, greatest_ordinal, scalar_answer, count, max_ordinal, revocation_pending,
}
use player_trace_sdk.Store.Reads.Scalars.{Seen, reads_lem}
use player_trace_sdk.Client.Create.{Recovered, resolve, recover}

module _ {D : Type 0} (db : Sqlite D) (queries : Queries db) where
  open db use {autocommit, committed}

  abbrev pub IsIdle : D → Type 0
  IsIdle d = autocommit d ≡ true

  -- No revocation is left, and no row without consent.
  abbrev pub IsResolved : ConsentState → D → Type 0
  IsResolved consent d =
      (autocommit d ≡ true)
      × (has_key revocation_key (committed d).meta ≡ false)
      × (is_granted consent ≡ false → (committed d).events ≡ [])

  abbrev pub IsRecovered : ConsentState → Recovered → D → Type 0
  IsRecovered consent r d =
      IsResolved consent d
      × (r.outstanding ≡ length (committed d).events)
      × (r.highest_ordinal ≡ greatest_ordinal (committed d).events)

  move :
      (consent : ConsentState) (d d' : D)
      → Unmoved db d d'
      → IsResolved consent d
      → IsResolved consent d'
  move consent d d' (a, c, e) (idle, clear, empty) = (
    a ∙ idle,
    ap (λ (t : Tables). has_key revocation_key t.meta) c ∙ clear,
    λ h. ap (λ (t : Tables). t.events) c ∙ empty h,
  )

  purged :
      (consent : ConsentState) (d : D) (r : Option ℕ) (d' : D)
      → Result db Purges d r d'
      → Ended db r d'
      → After (λ _. IsResolved consent) r d'
  purged consent d none d' p e = tt
  purged consent d (some n) d' (clear, empty) e = (e, clear, λ _. empty)

  asked :
      (d : D) (r : Option Bool) (d' : D)
      → autocommit d ≡ true
      → Seen db (λ t. has_key revocation_key t.meta) d r d'
      → After
          (λ owed x. (autocommit x ≡ true) × (owed ≡ has_key revocation_key (committed x).meta))
          r
          d'
  asked d none d' idle s = tt
  asked d (some owed) d' idle ((a, c, e), s) =
      (a ∙ idle, s ∙ ap (λ (t : Tables). has_key revocation_key t.meta) (sym c))

  counted :
      (consent : ConsentState) (value : Tables → ℕ) (known : Tables → Type 0) (d : D) (r : Option ℕ)
      (d' : D)
      → IsResolved consent d
      → known (committed d)
      → Seen db value d r d'
      → After (λ n x. IsResolved consent x × known (committed x) × (n ≡ value (committed x))) r d'
  counted consent value known d none d' h k s = tt
  counted consent value known d (some n) d' h k (u, s) =
      (move consent d d' u h, subst known (sym u.1) k, s ∙ ap value (sym u.1))

  Leads-resolve :
      (consent : ConsentState) (owed : Bool)
      → Leads
          (λ x. (autocommit x ≡ true) × (owed ≡ has_key revocation_key (committed x).meta))
          (resolve db queries consent owed)
          (λ _. IsResolved consent)
  unfolding resolve
  Leads-resolve consent owed = elim (Bool-cases (owed || not (is_granted consent))) [
    | inl due ↦ rw due (
        Leads->>= (purge_and_clear_revocation db) (λ _. return tt) (λ _. IsResolved consent)
          (record {
            after = λ d h.
                purged consent d (purge_and_clear_revocation db d).0
                  (purge_and_clear_revocation db d).1 (purge-IsAtomic db d) (purge-Ended db d);
          })
          (λ n. record { after = λ d h. h }))
    | inr settled ↦ rw settled (record {
      after =
          λ d (idle, o). (idle, sym o ∙ ground (arith, settled), λ h. ground (arith, settled, h));
    })
  ]

  Leads-count :
      (consent : ConsentState)
      → Leads
          (IsResolved consent)
          (count db queries)
          (λ n x. IsResolved consent x × Unit {0} × (n ≡ length (committed x).events))
  unfolding scalar_answer
  Leads-count consent = record {
    after = λ d h.
        counted consent (λ t. length t.events) (λ _. Unit) d (count db queries d).0
          (count db queries d).1 h tt ((reads_lem db queries 0).0 d h.0);
  }

  Leads-max_ordinal :
      (consent : ConsentState) (n : ℕ)
      → Leads
          (λ x. IsResolved consent x × Unit {0} × (n ≡ length (committed x).events))
          (max_ordinal db queries)
          (λ highest. IsRecovered consent (record { outstanding = n; highest_ordinal = highest }))
  unfolding scalar_answer
  Leads-max_ordinal consent n = record {
    after = λ d (h, _, k).
        counted consent (λ t. greatest_ordinal t.events) (λ t. n ≡ length t.events) d
          (max_ordinal db queries d).0 (max_ordinal db queries d).1 h k
          ((reads_lem db queries 0).2 d h.0);
  }

  pub Leads-recover :
      (consent : ConsentState) → Leads IsIdle (recover db queries consent) (IsRecovered consent)
  unfolding recover
  Leads-recover consent =
      Leads->>= (revocation_pending db queries) _
        (λ owed x. (autocommit x ≡ true) × (owed ≡ has_key revocation_key (committed x).meta))
        (record {
          after = λ d idle.
              asked d (revocation_pending db queries d).0 (revocation_pending db queries d).1 idle
                ((reads_lem db queries 0).3 d idle);
        })
        (λ owed.
          Leads->>= (resolve db queries consent owed) _ (λ _. IsResolved consent)
            (Leads-resolve consent owed)
            (λ _.
              Leads->>= (count db queries) _
                (λ n x. IsResolved consent x × Unit {0} × (n ≡ length (committed x).events))
                (Leads-count consent)
                (λ n.
                  Leads->>= (max_ordinal db queries)
                    (λ highest. return (record { outstanding = n; highest_ordinal = highest }))
                    (λ highest.
                      IsRecovered consent (record { outstanding = n; highest_ordinal = highest }))
                    (Leads-max_ordinal consent n) (λ highest. record { after = λ d h. h }))))
