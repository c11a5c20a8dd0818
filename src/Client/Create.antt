-- ===== src/Client/Create.antt =====
-- ClientInternal::create of src/client.cpp, from the check of the configuration to the constructor.
--
-- `sink_status` is what failed() says of the sink that create makes where the configuration has none,
-- Ok where it has one. The claim that such a sink holds on its own file is left out, and so are
-- exceptions.
pub mod Recovery
pub mod Opened
use player_trace_sdk.Base.{
  ℕ, Bool, true, false, not, ◌||◌, List, [], Option, none, some, if◌then◌else◌,
}
use player_trace_sdk.Types.{
  Status, ok, is_ok, invalid_config, storage_error, Bytes, ConsentState, is_granted,
}
use player_trace_sdk.Config.{Config, validate_config}
use player_trace_sdk.PathRegistry.{FileSystem, PathClaim, Registry, unclaimed, acquire, release}
use player_trace_sdk.Store.Action.{Action, ◌>>=◌, ◌>>◌, return, try}
use player_trace_sdk.Store.Sqlite.{Sqlite}
use player_trace_sdk.Store.Transactions.{purge_and_clear_revocation}
use player_trace_sdk.Store.Schema.{Inspection}
use player_trace_sdk.Store.Schema.Inspect.{open_store}
use player_trace_sdk.Store.Reads.{Queries, count, max_ordinal, revocation_pending}
use player_trace_sdk.Client.State.{Impl, construct}

pub record Recovered : Type 0 where
  pub outstanding : ℕ
  pub highest_ordinal : ℕ

-- Client::CreateResult
pub record CreateResult : Type 0 where
  pub status : Status
  pub client : Option (Impl × PathClaim)

abbrev pub refused : Status → CreateResult
refused s = record { status = s; client = none }

module _ {D : Type 0} (db : Sqlite D) (queries : Queries db) where
  -- A revocation that is owed is resolved before anything else.
  unfoldable pub resolve : ConsentState → Bool → Action D (Unit {0})
  resolve initial_consent owed =
      if owed || not (is_granted initial_consent)
      then purge_and_clear_revocation db >> return tt
      else return tt

  unfoldable pub recover : ConsentState → Action D Recovered
  recover initial_consent = do
    owed ← revocation_pending db queries
    resolve initial_consent owed
    recovered ← count db queries
    highest ← max_ordinal db queries
    return (record { outstanding = recovered; highest_ordinal = highest })

  module _ (fs : FileSystem) (inspection : Inspection D) where
    -- The claim is released where creation fails.
    unfoldable pub created :
        Config → Option Recovered × D → PathClaim × Registry → CreateResult × Registry × D
    created config (none, d) held = (refused storage_error, (release held).1, d)
    created config (some r, d) (claim, registry) = (
      record {
        status = ok;
        client = some (construct config r.outstanding r.highest_ordinal, claim);
      },
      registry,
      d,
    )

    unfoldable pub with_claim :
        Config → Status → D → Bool × PathClaim × Registry → CreateResult × Registry × D
    with_claim config sink_status d (good, claim, registry) =
        if not good
        then (refused invalid_config, registry, d)
        else if not (is_ok sink_status)
        then (refused sink_status, (release (claim, registry)).1, d)
        else created config ((open_store db inspection >> recover config.consent) d)
            (claim, registry)

    unfoldable pub create : Config → Bool → Status → Registry × D → CreateResult × Registry × D
    create config has_clock sink_status (registry, d) =
        let config_status = validate_config config in
        if not (is_ok config_status)
        then (refused config_status, registry, d)
        else if not has_clock
        then (refused invalid_config, registry, d)
        else with_claim config sink_status d (acquire fs config.storage_path (unclaimed, registry))
