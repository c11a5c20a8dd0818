-- ===== src/FileSink.antt =====
-- FileSink::Impl of src/file_sink.cpp: write, flush_now, ensure_open, repair_tail, roll_back and
-- fail_hard, and find_last_complete_line_end.
--
-- The C file functions are a parameter, over a state that holds the file and the stream: `disk` is
-- the content of the file, `pending` what is buffered and not yet written. Message texts are left out.
pub mod Append
pub mod Cut
pub mod Search
pub mod Repair
pub mod Reopen
pub mod Claim
pub mod Atomic
pub mod Tail
use player_trace_sdk.Base.{
  ℕ, zero, suc, ◌+◌, ◌-◌, ◌*◌, ◌/◌, ◌<◌, ◌≡◌, Bool, true, false, not, ◌||◌, List, [], ◌∷◌, ◌++◌,
  Option, none, some, length, take, ltb, leb, ◌==◌, codes, if◌then◌else◌,
}
use player_trace_sdk.PathRegistry.{FileSystem, PathClaim, Registry, unclaimed, acquire}
use player_trace_sdk.Types.{invalid_config, Status, ok, is_ok, sink_error, Bytes, SerializedEvent}
use player_trace_sdk.Validator.Keys.{is_empty}
use player_trace_sdk.Store.Action.{Action, ◌>>=◌, ◌>>◌, return, fail, try, run, read}

-- `open_existing` is fopen with "r+b", `open_new` with "w+b", `seek_to_end` the seek with the position
-- then told, and `read_at` a seek and a read of so many bytes.
pub record Files (W : Type 0) : Type 0 where
  pub open_existing : W → Bool × W
  pub open_new : W → Bool × W
  pub close : W → W
  pub seek_to_end : W → Option ℕ × W
  pub seek_end : W → Bool × W
  pub read_at : ℕ → ℕ → W → Option Bytes × W
  pub fwrite : Bytes → W → ℕ × W
  pub fputc : ℕ → W → Bool × W
  pub fflush : W → Bool × W
  pub clearerr : W → W
  pub sync : W → Bool × W
  pub truncate : ℕ → W → Bool × W
  pub fault : Bytes → W → Bool
  pub disk : W → Bytes
  pub pending : W → Bytes
  pub at_end : W → Bool

pub record FileSink : Type 0 where
  pub durable_sync : Bool
  pub is_open : Bool
  pub failure : Status
  pub cancelled : Bool

-- The constructor, which claims the path.
unfoldable pub make : FileSystem → Bytes → Bool → Registry → FileSink × PathClaim × Registry
make fs path durable_sync registry =
    let (good, claim, registry') = acquire fs path (unclaimed, registry) in
    (
      record {
        durable_sync = durable_sync;
        is_open = false;
        failure = if good then ok else invalid_config;
        cancelled = false;
      },
      claim,
      registry',
    )

unfoldable pub request_cancel : FileSink → FileSink
request_cancel sink = record sink { cancelled = true }

-- The block of find_last_complete_line_end.
abbrev pub block : ℕ
block = 64 * 1024

-- One past the last newline of a block, if it has one.
unfoldable pub last_newline : Bytes → Option ℕ
last_newline [] = none
last_newline (b ∷ rest) =
    let later = last_newline rest in
    elim later [ some i ↦ some (i + 1) | none ↦ if b == 10 then some 1 else none ]

module _ {W : Type 0} (files : Files W) where
  open files use {
    open_existing, open_new, close, seek_to_end, seek_end, read_at, fwrite, fputc, fflush, clearerr,
    sync, truncate, fault,
  }

  abbrev pub no_fault : Bytes → Action W (Unit {0})
  no_fault operation w = (if fault operation w then none else some tt, w)

  unfoldable pub fail_hard : FileSink → W → Status × FileSink × W
  fail_hard sink w = (
    sink_error,
    record sink { is_open = false; failure = sink_error },
    (if sink.is_open then close w else w),
  )

  -- From the truncation on.
  unfoldable pub cut : ℕ → Action W (Unit {0})
  cut offset = do no_fault (codes "truncate"); try (truncate offset); try sync

  unfoldable pub roll_back : ℕ → FileSink → W → Status × FileSink × W
  roll_back offset sink w =
      if not sink.is_open
      then fail_hard sink w
      else let (done, w') =
          (cut offset >> (λ x. (some tt, clearerr x)) >> try seek_end)
            (clearerr (fflush (clearerr w)).1) in
        elim done [ none ↦ fail_hard sink w' | some _ ↦ (sink_error, sink, w') ]

  -- The blocks in front of `pos`, from the last one on, on fuel.
  unfoldable pub find_last_complete_line_end : ℕ → ℕ → Action W ℕ
  find_last_complete_line_end zero pos w = (none, w)
  find_last_complete_line_end (suc fuel) pos w =
      let chunk = if ltb pos block then pos else block in
      if pos == 0
      then (some 0, w)
      else let (got, w') = read_at (pos - chunk) chunk w in
        elim got [
          | none ↦ (none, w')
          | some bytes ↦ elim (last_newline bytes) [
            | some i ↦ (some (pos - chunk + i), w')
            | none ↦ find_last_complete_line_end fuel (pos - chunk) w'
          ]
        ]

  -- The tail is complete, or is cut off.
  unfoldable pub trim : ℕ → ℕ → W → Option (Unit {0}) × W
  unfolding cut
  trim size good_end w =
      if good_end == size
      then try seek_end w
      else (cut good_end >> try seek_end) (clearerr (fflush w).1)

  unfoldable pub repair : Action W (Unit {0})
  repair = do
    size ← seek_to_end
    (if size == 0
        then return tt
        else (do good_end ← find_last_complete_line_end (size + 1) size; trim size good_end))

  unfoldable pub repair_tail : FileSink → W → Status × FileSink × W
  repair_tail sink w =
      let (done, w') = repair w in elim done [ none ↦ fail_hard sink w' | some _ ↦ (ok, sink, w') ]

  unfoldable pub open_either : W → Bool × W
  open_either w = let (good, w') = open_existing w in if good then (true, w') else open_new w'

  unfoldable pub ensure_open : FileSink → W → Status × FileSink × W
  ensure_open sink w =
      if not (is_ok sink.failure)
      then (sink.failure, sink, w)
      else if sink.is_open
      then (ok, sink, w)
      else if fault (codes "open") w
      then (sink_error, sink, w)
      else let (good, w') = open_either w in
        if not good then (sink_error, sink, w') else repair_tail (record sink { is_open = true }) w'

  -- fwrite of all the bytes, unless there are none.
  unfoldable pub put : Bytes → Action W (Unit {0})
  put json w =
      if is_empty json
      then (some tt, w)
      else let (n, w') = fwrite json w in (if n == length json then some tt else none, w')

  unfoldable pub write_event : SerializedEvent → Action W (Unit {0})
  unfolding put
  write_event e w =
      if fault (codes "partial_write") w
      then (none, (put (take (length e.json / 2 + 1) e.json) w).1)
      else (no_fault (codes "write") >> put e.json >> try (fputc 10)) w

  unfoldable pub write_events : List SerializedEvent → Action W (Unit {0})
  write_events [] = return tt
  write_events (e ∷ rest) = write_event e >> write_events rest

  unfoldable pub sync_if : Bool → Action W (Unit {0})
  sync_if durable_sync = if durable_sync then no_fault (codes "sync") >> try sync else return tt

  -- From the first event to the sync.
  unfoldable pub append : Bool → List SerializedEvent → Action W (Unit {0})
  append durable_sync events = do
    write_events events
    no_fault (codes "flush")
    try fflush
    sync_if durable_sync

  unfoldable pub append_at : Option ℕ → List SerializedEvent → FileSink → W → Status × FileSink × W
  append_at none events sink w = fail_hard sink w
  append_at (some start) events sink w =
      let (done, w') = append sink.durable_sync events w in
      elim done [ some _ ↦ (ok, sink, w') | none ↦ roll_back start sink w' ]

  unfoldable pub write : List SerializedEvent → FileSink → W → Status × FileSink × W
  write events sink w =
      if sink.cancelled
      then (sink_error, sink, w)
      else let (ready, opened, w') = ensure_open sink w in
        if not (is_ok ready)
        then (ready, opened, w')
        else let (start, w'') = seek_to_end w' in append_at start events opened w''

  unfoldable pub flush_now : FileSink → W → Status × W
  unfolding sync_if
  flush_now sink w =
      if not (is_ok sink.failure)
      then (sink.failure, w)
      else if not sink.is_open
      then (ok, w)
      else let (done, w') =
          (no_fault (codes "flush") >> try fflush >> sync_if sink.durable_sync) w in
        (elim done [ none ↦ sink_error | some _ ↦ ok ], w')
