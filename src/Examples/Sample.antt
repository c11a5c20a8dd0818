-- ===== src/Examples/Sample.antt =====
-- Concrete states and surroundings for the examples.
use player_trace_sdk.Base.{ℕ, suc, ◌*◌, true, false, [], ◌∷◌, none, codes}
use player_trace_sdk.Base.Int.{pos}
use player_trace_sdk.Types.{granted, running, QueuedEvent, Properties, int, string, Bytes}
use player_trace_sdk.Validator.Keys.{Validator}
use player_trace_sdk.Queue.{EventQueue}
use player_trace_sdk.Session.{SessionManager}
use player_trace_sdk.Config.{Config}
use player_trace_sdk.Pipeline.{Pipeline, no_stats}
use player_trace_sdk.Worker.Core
use player_trace_sdk.Client.State.{Environment, Impl}

abbrev pub config : Config
config = record {
  app_id = codes "game";
  storage_path = codes "game.db";
  consent = granted;
  max_queue_size = 4;
  batch_size = 2;
  batch_interval = pos 1000;
  max_pending_events = 10;
  max_name_length = 16;
  max_properties = 2;
  max_string_length = 8;
  max_player_id_length = 8;
  property_filter = none;
}

abbrev pub limits : Validator
limits = record {
  max_name_length = 16;
  max_properties = 2;
  max_string_length = 8;
  max_player_id_length = 8;
}

abbrev pub level_started : Bytes
level_started = codes "level_started"

abbrev pub properties : Properties
properties = (codes "level", string (codes "forest")) ∷ (codes "deaths", int (pos 3)) ∷ []

abbrev pub env : Environment
env = record { uuid = λ n. suc n ∷ []; now = λ n. pos (n * 10); seconds = λ d. 0 }

abbrev pub event : ℕ → QueuedEvent
event n = record {
  event = record {
    event_id = n ∷ [];
    app_id = codes "game";
    name = level_started;
    schema_version = 1;
    timestamp_ms = pos n;
    session_id = 7 ∷ [];
    player_id = [];
    sequence = n;
    properties = [];
  };
  ordinal = n;
  consent_generation = 0;
}

abbrev pub queue : EventQueue
queue = record { queue = event 1 ∷ []; capacity = 4; batch_threshold = 2; kicked = false }

abbrev pub session : SessionManager
session = record {
  active = true;
  session_id = 7 ∷ [];
  player_id = [];
  sequence = 2;
  started_ms = pos 0;
}

abbrev pub pipeline : Pipeline
pipeline = record {
  config = config;
  queue = queue;
  stats = no_stats;
  consent = granted;
  consent_generation = 0;
  outstanding = 1;
  terminated = false;
  reported = [];
}

-- A client in a session, with one event queued.
abbrev pub client : Impl
client = record {
  validator = limits;
  session = session;
  max_pending_events = 10;
  shared = record { pipeline = pipeline; core = Core.init };
  lifecycle = running;
  ordinal = 1;
  purge_required = false;
  ids_taken = 0;
  times_taken = 0;
}
