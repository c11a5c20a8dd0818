-- ===== src/Client/Create/Opened.antt =====
-- The client that ClientInternal::create (src/client.cpp) returns, and what its failures leave.
use player_trace_sdk.Base.{
  ◌≡◌, ◌⊎◌, refl, Bool, true, false, [], ◌∷◌, Option, none, some, length, inl, inr, Bool-cases,
  bytes_eq_refl, arith,
}
use player_trace_sdk.Types.{Status, ok, is_ok, Bytes, ConsentState, is_granted, running}
use player_trace_sdk.Validator.Keys.{contains}
use player_trace_sdk.Config.{Config, validate_config}
use player_trace_sdk.Pipeline.{init, reset_outstanding}
use player_trace_sdk.PathRegistry.{
  FileSystem, PathClaim, Registry, unclaimed, acquire, release, erase, normalize, is_in_memory,
}
use player_trace_sdk.Store.Action.{Ends, After, Leads, Leads->>=, ◌>>◌}
use player_trace_sdk.Store.Sqlite.{Sqlite, has_key}
use player_trace_sdk.Store.Schema.{Inspection}
use player_trace_sdk.Store.Schema.Inspect.{open_store}
use player_trace_sdk.Store.Schema.Opening.{Reports}
use player_trace_sdk.Store.Schema.Opening.Creating.{IsOpen, IsLeft}
use player_trace_sdk.Store.Schema.Opening.Opens.{open_store_cases}
use player_trace_sdk.Store.Reads.{Queries, greatest_ordinal}
use player_trace_sdk.Store.Transactions.{revocation_key}
use player_trace_sdk.Client.State.{Impl, construct}
use player_trace_sdk.Client.Create.{Recovered, CreateResult, recover, created, with_claim, create}
use player_trace_sdk.Client.Create.Recovery.{IsIdle, IsRecovered, Leads-recover}

erase-absent :
    (key : Bytes) (registry : Registry)
    → contains registry key ≡ false
    → erase key registry ≡ registry
unfolding contains erase
erase-absent key [] h = refl
erase-absent key (k ∷ rest) h = ground (arith, h, erase-absent key rest (ground (arith, h)))

-- The registry and the claim after an acquire that succeeded from no claim.
abbrev pub Claims : FileSystem → Bytes → Registry → PathClaim → Registry → Type 0
Claims fs path before claim registry =
    (is_in_memory path ≡ true) × (claim ≡ unclaimed) × (registry ≡ before)
    ⊎ (contains before (normalize fs path) ≡ false)
      × (claim ≡ record { key = normalize fs path; held = true })
      × (registry ≡ normalize fs path ∷ before)

acquire-Claims :
    (fs : FileSystem) (path : Bytes) (registry : Registry)
    → (acquire fs path (unclaimed, registry)).0 ≡ true
    → Claims fs path registry
        (acquire fs path (unclaimed, registry)).1
        (acquire fs path (unclaimed, registry)).2
unfolding acquire release
acquire-Claims fs path registry good = elim (Bool-cases (is_in_memory path)) [
  | inl e ↦ rw e (inl (refl, refl, refl))
  | inr e ↦ elim (Bool-cases (contains registry (normalize fs path))) [
    | inl c ↦ ground (arith, good, e, c)
    | inr c ↦ rw e (rw c (inr (refl, refl, refl)))
  ]
]

acquire-failed :
    (fs : FileSystem) (path : Bytes) (registry : Registry)
    → (acquire fs path (unclaimed, registry)).0 ≡ false
    → (acquire fs path (unclaimed, registry)).2 ≡ registry
unfolding acquire release
acquire-failed fs path registry bad = ground (arith, bad)

release-Claims :
    (fs : FileSystem) (path : Bytes) (before : Registry) (claim : PathClaim) (registry : Registry)
    → Claims fs path before claim registry
    → (release (claim, registry)).1 ≡ before
unfolding release erase
release-Claims fs path before claim registry (inl (m, c, r)) = rw c r
release-Claims fs path before claim registry (inr (m, c, r)) = rw c (
    rw r (
      ground (arith, bytes_eq_refl (normalize fs path), erase-absent (normalize fs path) before m)))

module _ {D : Type 0} (db : Sqlite D) (queries : Queries db) (fs : FileSystem) where
  open db use {autocommit, committed}

  -- A client that runs, alone on its path; its count and its ordinals continue those of the committed
  -- rows; no revocation is owed; and there is no row without consent.
  pub record IsOpened (config : Config) (before : Registry) (im : Impl) (claim : PathClaim)
      (after : Registry) (d : D) : Type 0 where
    pub config_ok : is_ok (validate_config config) ≡ true
    pub claims : Claims fs config.storage_path before claim after
    pub runs : (im.lifecycle ≡ running) × (im.pipeline.consent ≡ config.consent)
    pub counted_rows : im.pipeline.outstanding ≡ length (committed d).events
    pub continues : im.ordinal ≡ greatest_ordinal (committed d).events
    pub settled : has_key revocation_key (committed d).meta ≡ false
    pub consented : is_granted config.consent ≡ false → (committed d).events ≡ []

  -- Failure without a client or a claim, or success with a client.
  abbrev pub Creates :
      Config → Registry → Status → Option (Impl × PathClaim) → Registry → D → Type 0
  Creates config before s client after d =
      ((is_ok s ≡ false) × (client ≡ none) × (after ≡ before))
      ⊎ ((s ≡ ok)
          × (im : Impl) × (claim : PathClaim) × (client ≡ some (im, claim))
          × IsOpened config before im claim after d)

  module _ (inspection : Inspection D) (reports : Reports db inspection) where
    opened_connection :
        (start : D) (r : Option (Option Bytes)) (d : D)
        → Ends (IsLeft db inspection reports start) (λ _. IsOpen db inspection reports start) r d
        → After (λ _. IsIdle db queries) r d
    opened_connection start none d h = tt
    opened_connection start (some mode) d h = h.0

    Leads-open :
        (consent : ConsentState)
        → Leads
            (λ _. Unit)
            (open_store db inspection >> recover db queries consent)
            (IsRecovered db queries consent)
    Leads-open consent =
        Leads->>= (open_store db inspection) (λ _. recover db queries consent)
          (λ _. IsIdle db queries)
          (record {
            after = λ d _.
                opened_connection d (open_store db inspection d).0 (open_store db inspection d).1
                  (open_store_cases db inspection reports d);
          })
          (λ _. Leads-recover db queries consent)

    created-Creates :
        (config : Config) (before : Registry) (r : Option Recovered) (d : D) (claim : PathClaim)
        (registry : Registry)
        → is_ok (validate_config config) ≡ true
        → Claims fs config.storage_path before claim registry
        → After (IsRecovered db queries config.consent) r d
        → (let (result, after, d') =
              created db queries fs inspection config (r, d) (claim, registry) in
            Creates config before result.status result.client after d')
    unfolding created construct reset_outstanding init
    created-Creates config before none d claim registry valid claims h =
        inl (refl, refl, release-Claims fs config.storage_path before claim registry claims)
    created-Creates config before (some r) d claim registry valid claims
          ((idle, clear, empty), n, top) =
        inr (
          refl,
          construct config r.outstanding r.highest_ordinal,
          claim,
          refl,
          record {
            config_ok = valid;
            claims = claims;
            runs = (refl, refl);
            counted_rows = n;
            continues = top;
            settled = clear;
            consented = empty;
          },
        )

    abbrev pub CreatesAs : Config → Registry → CreateResult × Registry × D → Type 0
    CreatesAs config before r = Creates config before r.0.status r.0.client r.1 r.2

    with_claim-Creates :
        (config : Config) (sink_status : Status) (before : Registry) (d : D) (good : Bool)
        (claim : PathClaim) (registry : Registry)
        → is_ok (validate_config config) ≡ true
        → (good ≡ true → Claims fs config.storage_path before claim registry)
        → (good ≡ false → registry ≡ before)
        → CreatesAs config before
            (with_claim db queries fs inspection config sink_status d (good, claim, registry))
    unfolding with_claim
    with_claim-Creates config sink_status before d false claim registry valid taken busy =
        inl (refl, refl, busy refl)
    with_claim-Creates config sink_status before d true claim registry valid taken busy =
        let opened = (open_store db inspection >> recover db queries config.consent) d in
        elim (Bool-cases (is_ok sink_status)) [
          | inl fine ↦ rw fine (
              created-Creates config before opened.0 opened.1 claim registry valid (taken refl)
                ((Leads-open config.consent).after d tt))
          | inr bad ↦ rw bad (
              inl (
                bad,
                refl,
                release-Claims fs config.storage_path before claim registry (taken refl),
              ))
        ]

    -- create answers Ok with a client, or fails with none and leaves the registry of paths as it was,
    -- wherever SQLite reports the schema of the file as it is. A client runs with the consent of its
    -- accepted configuration and holds the path of its store, which nobody held before, or one in
    -- memory; it counts the committed rows and numbers on from their greatest ordinal; no revocation
    -- is owed, and without given consent no row is left.
    pub create_cases :
        (config : Config) (has_clock : Bool) (sink_status : Status) (before : Registry) (d : D)
        → CreatesAs config before
            (create db queries fs inspection config has_clock sink_status (before, d))
    unfolding create
    create_cases config has_clock sink_status before d =
        elim (Bool-cases (is_ok (validate_config config))) [
          | inr bad ↦ rw bad (inl (bad, refl, refl))
          | inl valid ↦ elim (Bool-cases has_clock) [
            | inr missing ↦ rw valid (rw missing (inl (refl, refl, refl)))
            | inl given ↦
                let held = acquire fs config.storage_path (unclaimed, before) in
                rw valid (
                  rw given (
                    with_claim-Creates config sink_status before d held.0 held.1 held.2 valid
                      (acquire-Claims fs config.storage_path before)
                      (acquire-failed fs config.storage_path before)))
          ]
        ]
