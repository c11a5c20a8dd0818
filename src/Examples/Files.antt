-- ===== src/Examples/Files.antt =====
-- The theorem on the file sink, over a file in memory whose flush works or fails.
use player_trace_sdk.Base.{
  ◌≡◌, refl, sym, ap, ◌∙◌, Bool, true, false, List, [], ◌∷◌, ◌++◌, append_assoc, append-nil, some,
  length, arith, take, drop, codes, bytes_eq, if◌then◌else◌,
}
use mathlib.Core.Option.{some-injective}
use player_trace_sdk.Types.{ok, sink_error, invalid_config, Bytes, SerializedEvent}
use player_trace_sdk.FileSink.{
  Files, FileSink, write, ensure_open, open_either, flush_now, sync_if, append_at, append,
  write_events, write_event, put, roll_back, cut, repair_tail, repair, find_last_complete_line_end,
  last_newline, trim,
}
use player_trace_sdk.FileSink.Append.{FileLaws, Grows, Unbuffered}
use player_trace_sdk.FileSink.Tail.{IsComplete, find_last_complete_line_end-IsComplete}
use player_trace_sdk.FileSink.{make, request_cancel}
use player_trace_sdk.PathRegistry.{unclaimed, is_in_memory, normalize}
use player_trace_sdk.Validator.Keys.{contains}
use player_trace_sdk.FileSink.Claim.{make_refused}
use player_trace_sdk.Examples.Paths
use player_trace_sdk.FileSink.Cut.{Holds}
use player_trace_sdk.FileSink.Search.{TailLaws}
use player_trace_sdk.FileSink.Reopen.{Reopens, write-Reopens}
use player_trace_sdk.FileSink.Atomic.{Writes, write_cases}

record Memory : Type 0 where
  disk : Bytes
  pending : Bytes
  works : Bool

abbrev settle : Memory → Memory
settle w = record w { disk = w.disk ++ w.pending; pending = [] }

-- `readable` says whether fopen with "r+b" succeeds.
abbrev files : Bool → Files Memory
files readable = record {
  open_existing = λ w. (readable, record w { pending = [] });
  open_new = λ w. (true, record w { disk = []; pending = [] });
  close = settle;
  seek_to_end = λ w. (some (length (w.disk ++ w.pending)), settle w);
  seek_end = λ w. (true, settle w);
  read_at = λ start count w. (some (take count (drop start w.disk)), w);
  fwrite = λ bytes w. (length bytes, record w { pending = w.pending ++ bytes });
  fputc = λ b w. (true, record w { pending = w.pending ++ b ∷ [] });
  fflush = λ w. if w.works then (true, settle w) else (false, w);
  clearerr = λ w. w;
  sync = λ w. (true, w);
  truncate = λ n w. (true, record w { disk = take n w.disk });
  fault = λ operation w. false;
  disk = λ w. w.disk;
  pending = λ w. w.pending;
  at_end = λ w. true;
}

abbrev memory : Bytes → Bytes → Bool → Memory
memory disk pending works = record { disk = disk; pending = pending; works = works }

flush-Grows :
    (disk pending : Bytes) (works : Bool)
    → Grows
        (files true)
        (memory disk pending works)
        ((files true).fflush (memory disk pending works)).1
flush-Grows disk pending true = (refl, pending, refl)
flush-Grows disk pending false = (refl, [], sym (append-nil disk))

flush-Unbuffered :
    (disk pending : Bytes) (works : Bool)
    → ((files true).fflush (memory disk pending works)).0 ≡ true
    → Unbuffered
        (files true)
        (memory disk pending works)
        ((files true).fflush (memory disk pending works)).1
flush-Unbuffered disk pending true good = (refl, refl, refl)
flush-Unbuffered disk pending false good = ground (arith, good)

laws : FileLaws (files true)
laws = record {
  sought = λ w n e. ((refl, refl, refl), sym (some-injective (length (w.disk ++ w.pending)) n e));
  sought_end = λ w good. (refl, refl, refl);
  wrote = λ bytes w end.
      ((refl, [], sym (append-nil w.disk)), λ all. sym (append_assoc w.disk w.pending bytes));
  wrote_byte = λ b w end.
      ((refl, [], sym (append-nil w.disk)), λ good. sym (append_assoc w.disk w.pending (b ∷ [])));
  flushed =
      λ w end. (flush-Grows w.disk w.pending w.works, flush-Unbuffered w.disk w.pending w.works);
  cleared = λ w. (refl, refl, refl);
  synced = λ w. (refl, refl, refl);
  truncated = λ n w good. (refl, refl);
}

abbrev line : Bytes → SerializedEvent
line json = record { event_id = 1 ∷ []; json = json }

abbrev batch : List SerializedEvent
batch = line (codes "{}") ∷ line (codes "[]") ∷ []

abbrev sink : FileSink
sink = record { durable_sync = true; is_open = true; failure = ok; cancelled = false }

-- The flush fails, and the file is rolled back.
write_cases_example :
    Writes
      (files true)
      laws
      batch
      sink
      (memory (5 ∷ 10 ∷ []) [] false)
      (write (files true) batch sink (memory (5 ∷ 10 ∷ []) [] false))
write_cases_example =
    write_cases (files true) laws batch sink (memory (5 ∷ 10 ∷ []) [] false) refl refl refl

-- The flush retains what it could not write, and the lines are in the file all the same.
reappeared :
    write (files true) batch sink (memory (5 ∷ 10 ∷ []) [] false)
    ≡ (sink_error, sink, memory (codes "\u{5}\n{}\n[]\n") [] false)
unfolding write ensure_open append_at append write_events write_event put roll_back cut sync_if
reappeared = refl

written :
    (write (files true) batch sink (memory (5 ∷ 10 ∷ []) [] true)).2.disk ≡ codes "\u{5}\n{}\n[]\n"
unfolding write ensure_open append_at append write_events write_event put roll_back cut sync_if
written = refl

-- An incomplete last line is cut off as the file is opened.
repaired :
    (ensure_open
      (files true)
      (record sink { is_open = false })
      (memory (5 ∷ 10 ∷ 6 ∷ []) [] true)).2.disk
    ≡ 5 ∷ 10 ∷ []
unfolding ensure_open open_either repair_tail repair find_last_complete_line_end last_newline trim
    cut
repaired = refl

-- Where "r+b" fails on a file that is there, "w+b" empties it.
truncated :
    (ensure_open
      (files false)
      (record sink { is_open = false })
      (memory (5 ∷ 10 ∷ []) [] true)).2.disk
    ≡ []
unfolding ensure_open open_either repair_tail repair
truncated = refl

-- A flush after request_cancel still works.
flushed :
    flush_now (files true) (record sink { cancelled = true }) (memory [] (5 ∷ []) true)
    ≡ (ok, memory (5 ∷ []) [] true)
unfolding flush_now sync_if
flushed = refl

find_last_complete_line_end-IsComplete_example :
    (content : Bytes) × IsComplete (5 ∷ 10 ∷ 6 ∷ []) content
    × ((find_last_complete_line_end (files true) 4 3 (memory (5 ∷ 10 ∷ 6 ∷ []) [] true)).0
        ≡ some (length content))
find_last_complete_line_end-IsComplete_example =
    find_last_complete_line_end-IsComplete (files true) (λ start count w fits. (refl, refl)) 4 3
      (memory (5 ∷ 10 ∷ 6 ∷ []) [] true) (omega arith) (omega arith)

still_empty :
    (content disk pending : Bytes) (works : Bool)
    → Holds (files true) content (memory disk pending works)
    → Holds (files true) content ((files true).fflush (memory disk pending works)).1
still_empty content disk pending true (d, p) = (ap (λ x. disk ++ x) p ∙ append-nil disk ∙ d, refl)
still_empty content disk pending false (d, p) = (d, p)

tail_laws : TailLaws (files true)
tail_laws = record {
  opened = λ w good. (refl, refl);
  emptied = λ w good. (refl, refl);
  bytes_read =
      λ start count w bytes e. sym (some-injective (take count (drop start w.disk)) bytes e);
  unchanged = λ start count w. (refl, refl);
  nothing_to_flush = λ content w h. still_empty content w.disk w.pending w.works h;
}

abbrev closed : FileSink
closed = record sink { is_open = false }

-- A line that was torn at the end of the file.
abbrev torn : Memory
torn = memory (5 ∷ 10 ∷ 6 ∷ []) [] true

write-Reopens_example :
    Reopens (files true) laws tail_laws batch closed torn (write (files true) batch closed torn)
write-Reopens_example = write-Reopens (files true) laws tail_laws batch closed torn refl refl refl

-- It is gone, and the new lines follow the complete one.
repaired_first : (write (files true) batch closed torn).2.disk ≡ codes "\u{5}\n{}\n[]\n"
unfolding write ensure_open open_either repair_tail repair find_last_complete_line_end last_newline
    trim append_at append write_events write_event put roll_back cut sync_if
repaired_first = refl

not_in_memory : is_in_memory (codes "out.ndjson") ≡ false
unfolding is_in_memory bytes_eq
not_in_memory = refl

taken : contains (codes "out.ndjson" ∷ []) (normalize Paths.files (codes "out.ndjson")) ≡ true
unfolding contains normalize bytes_eq
taken = refl

-- The path is taken.
make_refused_example :
    (let (refused, claim, registry) =
        make Paths.files (codes "out.ndjson") true (codes "out.ndjson" ∷ []) in
      (refused.failure ≡ invalid_config)
      × (claim ≡ unclaimed)
      × (registry ≡ codes "out.ndjson" ∷ [])
      × (write (files true) batch refused torn ≡ (invalid_config, refused, torn))
      × (write (files true) batch (request_cancel refused) torn
          ≡ (sink_error, request_cancel refused, torn))
      × (flush_now (files true) refused torn ≡ (invalid_config, torn)))
make_refused_example =
    make_refused (files true) Paths.files (codes "out.ndjson") true (codes "out.ndjson" ∷ []) batch
      torn not_in_memory taken
