-- ===== src/Pipeline.antt =====
-- The state shared by the client and the worker: src/internal/pipeline.hpp and
-- src/internal/stats.hpp.
use player_trace_sdk.Base.{ℕ, ◌-◌, Bool, true, false, List, [], ◌∷◌, ltb, if◌then◌else◌}
use player_trace_sdk.Base.Words.{add64}
use player_trace_sdk.Types.{ConsentState, Status}
use player_trace_sdk.Queue
use player_trace_sdk.Queue.{EventQueue}
use player_trace_sdk.Config.{Config}

pub record Stats : Type 0 where
  pub accepted : ℕ
  pub dropped_queue_full : ℕ
  pub dropped_storage_full : ℕ
  pub discarded_consent : ℕ
  pub dropped_invalid : ℕ
  pub persisted : ℕ
  pub delivered : ℕ
  pub delivery_failures : ℕ

abbrev pub no_stats : Stats
no_stats = record {
  accepted = 0;
  dropped_queue_full = 0;
  dropped_storage_full = 0;
  discarded_consent = 0;
  dropped_invalid = 0;
  persisted = 0;
  delivered = 0;
  delivery_failures = 0;
}

-- `reported` holds the arguments of report_error so far, the latest first.
pub record Pipeline : Type 0 where
  pub config : Config
  pub queue : EventQueue
  pub stats : Stats
  pub consent : ConsentState
  pub consent_generation : ℕ
  pub outstanding : ℕ
  pub terminated : Bool
  pub reported : List Status

unfoldable pub init : Config → Pipeline
init config = record {
  config = config;
  queue = Queue.init config.max_queue_size config.batch_size;
  stats = no_stats;
  consent = config.consent;
  consent_generation = 0;
  outstanding = 0;
  terminated = false;
  reported = [];
}

unfoldable pub set_consent_state : ConsentState → Pipeline → Pipeline
set_consent_state state p = record p { consent = state }

unfoldable pub bump_consent_generation : Pipeline → Pipeline
bump_consent_generation p = record p { consent_generation = add64 p.consent_generation 1 }

unfoldable pub add_outstanding : ℕ → Pipeline → Pipeline
add_outstanding n p = record p { outstanding = add64 p.outstanding n }

-- The compare-exchange loop, as the exchange that succeeds.
unfoldable pub release_outstanding : ℕ → Pipeline → Pipeline
release_outstanding n p = record p {
  outstanding = if ltb n p.outstanding then p.outstanding - n else 0;
}

unfoldable pub reset_outstanding : ℕ → Pipeline → Pipeline
reset_outstanding n p = record p { outstanding = n }

unfoldable pub set_terminated : Pipeline → Pipeline
set_terminated p = record p { terminated = true }

unfoldable pub report_error : Status → Pipeline → Pipeline
report_error status p = record p { reported = status ∷ p.reported }

-- `fetch_add` on one counter each.
unfoldable pub count_accepted : ℕ → Pipeline → Pipeline
count_accepted n p = record p { stats = record p.stats { accepted = add64 p.stats.accepted n } }

unfoldable pub count_dropped_queue_full : ℕ → Pipeline → Pipeline
count_dropped_queue_full n p = record p {
  stats = record p.stats { dropped_queue_full = add64 p.stats.dropped_queue_full n };
}

unfoldable pub count_dropped_storage_full : ℕ → Pipeline → Pipeline
count_dropped_storage_full n p = record p {
  stats = record p.stats { dropped_storage_full = add64 p.stats.dropped_storage_full n };
}

unfoldable pub count_discarded_consent : ℕ → Pipeline → Pipeline
count_discarded_consent n p = record p {
  stats = record p.stats { discarded_consent = add64 p.stats.discarded_consent n };
}

unfoldable pub count_dropped_invalid : ℕ → Pipeline → Pipeline
count_dropped_invalid n p = record p {
  stats = record p.stats { dropped_invalid = add64 p.stats.dropped_invalid n };
}

unfoldable pub count_persisted : ℕ → Pipeline → Pipeline
count_persisted n p = record p { stats = record p.stats { persisted = add64 p.stats.persisted n } }

unfoldable pub count_delivered : ℕ → Pipeline → Pipeline
count_delivered n p = record p { stats = record p.stats { delivered = add64 p.stats.delivered n } }

unfoldable pub count_delivery_failures : ℕ → Pipeline → Pipeline
count_delivery_failures n p = record p {
  stats = record p.stats { delivery_failures = add64 p.stats.delivery_failures n };
}
