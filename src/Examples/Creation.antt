-- ===== src/Examples/Creation.antt =====
-- The theorem on the creation of a client, over a store that holds rows of an earlier run.
use player_trace_sdk.Base.{◌≡◌, refl, true, [], length, some}
use player_trace_sdk.Store.Sqlite.{has_key, effect, remove_key}
use player_trace_sdk.Store.Transactions.{
  purge_and_clear_revocation, transaction, or_rollback, purge_rows,
}
use player_trace_sdk.Store.Reads.{
  revocation_pending, count, scalar_uint64, max_ordinal, scalar_answer, greatest_ordinal,
}
use player_trace_sdk.Types.{ok, denied, granted}
use player_trace_sdk.Config.{Config}
use player_trace_sdk.Client.Create.{create, recover, resolve}
use player_trace_sdk.Client.Create.Opened.{CreatesAs, create_cases}
use player_trace_sdk.Examples.Sample.{config}
use player_trace_sdk.Examples.Paths.{files}
use player_trace_sdk.Examples.Schemas.{sound, inspecting, reporting}
use player_trace_sdk.Examples.Database.{saved_tables, memory, lookups, filled}

abbrev refusing : Config
refusing = record config { consent = denied }

create_cases_example :
    CreatesAs memory lookups files
      (inspecting sound)
      (reporting sound)
      refusing
      []
      (create memory lookups files (inspecting sound) refusing true ok ([], filled))
create_cases_example =
    create_cases memory lookups files (inspecting sound) (reporting sound) refusing true ok []
      filled

-- Without consent the rows of the earlier run are gone.
emptied : length (saved_tables (recover memory lookups denied filled).1).events ≡ 0
unfolding recover resolve revocation_pending has_key purge_and_clear_revocation transaction
    or_rollback purge_rows effect remove_key count scalar_uint64 max_ordinal
emptied = refl

-- With it they count, and the numbering goes on after them.
kept :
    (recover memory lookups granted filled).0
    ≡ some (record { outstanding = 2; highest_ordinal = 5 })
unfolding recover resolve revocation_pending has_key count scalar_uint64 max_ordinal scalar_answer
    greatest_ordinal
kept = refl
