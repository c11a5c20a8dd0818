-- ===== src/Examples/Revocation.antt =====
-- Revoking consent over a store in memory that holds rows.
use player_trace_sdk.Base.{◌≡◌, refl, inl, length}
use player_trace_sdk.Types.{Status, ok, denied}
use player_trace_sdk.Client.State.{Impl}
use player_trace_sdk.Client.Consent.{set_consent, run_purge}
use player_trace_sdk.Client.Consent.Revoke.{IsConcurrent}
use player_trace_sdk.Store.Durable.{durable, status_of, Revokes, revoke_durably}
use player_trace_sdk.Store.Sqlite.{effect}
use player_trace_sdk.Store.Transactions.{
  mark_revocation_pending, transaction, or_rollback, purge_and_clear_revocation, purge_rows,
}
use player_trace_sdk.Examples.Sample.{client}
use player_trace_sdk.Examples.Database.{Connection, memory, filled, saved_tables}

abbrev alone : Impl × Connection → Impl × Connection
alone x = x

alone-IsConcurrent : IsConcurrent (durable memory) alone
alone-IsConcurrent a = record {
  consent_kept = refl;
  generation_kept = refl;
  session_kept = refl;
  purge_kept = refl;
  queue_kept = λ h. h;
  debt_kept = λ h. inl h;
}

abbrev revoked : Status × Impl × Connection
revoked = set_consent (durable memory) alone alone denied (client, filled)

revoke_durably_example : Revokes memory denied client filled revoked.0 revoked.1 revoked.2
revoke_durably_example =
    revoke_durably memory alone alone denied client filled alone-IsConcurrent alone-IsConcurrent
      refl

-- Two rows were there.
purged : (revoked.0 ≡ ok) × (length (saved_tables revoked.2).events ≡ 0)
unfolding set_consent run_purge status_of mark_revocation_pending transaction or_rollback
    purge_and_clear_revocation purge_rows effect
purged = (refl, refl)
