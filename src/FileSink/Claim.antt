-- ===== src/FileSink/Claim.antt =====
-- A FileSink (src/file_sink.cpp) on a path that another component of the process holds.
use player_trace_sdk.Base.{◌≡◌, refl, Bool, true, false, List}
use player_trace_sdk.Types.{invalid_config, sink_error, Bytes, SerializedEvent}
use player_trace_sdk.Validator.Keys.{contains}
use player_trace_sdk.PathRegistry.{
  FileSystem, Registry, unclaimed, acquire, release, normalize, is_in_memory,
}
use player_trace_sdk.FileSink.{Files, make, request_cancel, ensure_open, write, flush_now}

made_refused :
    (fs : FileSystem) (path : Bytes) (durable_sync : Bool) (registry : Registry)
    → is_in_memory path ≡ false
    → contains registry (normalize fs path) ≡ true
    → make fs path durable_sync registry ≡ (
      record {
        durable_sync = durable_sync;
        is_open = false;
        failure = invalid_config;
        cancelled = false;
      },
      unclaimed,
      registry,
    )
unfolding make acquire release
made_refused fs path durable_sync registry file taken = rw (file, taken) refl

-- A sink that is made on a path in a file which another component holds gets no claim, and says so:
-- its writes and flushes fail with InvalidConfig, its writes with SinkError once it is cancelled,
-- and they touch no file.
pub make_refused :
    {W : Type 0} (files : Files W) (fs : FileSystem) (path : Bytes) (durable_sync : Bool)
    (registry : Registry) (events : List SerializedEvent) (w : W)
    → is_in_memory path ≡ false
    → contains registry (normalize fs path) ≡ true
    → (let (sink, claim, registry') = make fs path durable_sync registry in
        (sink.failure ≡ invalid_config)
        × (claim ≡ unclaimed)
        × (registry' ≡ registry)
        × (write files events sink w ≡ (invalid_config, sink, w))
        × (write files events (request_cancel sink) w ≡ (sink_error, request_cancel sink, w))
        × (flush_now files sink w ≡ (invalid_config, w)))
unfolding write ensure_open flush_now request_cancel
make_refused files fs path durable_sync registry events w file taken =
    rw (made_refused fs path durable_sync registry file taken) (refl, refl, refl, refl, refl, refl)
