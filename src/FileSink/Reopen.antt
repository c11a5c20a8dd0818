-- ===== src/FileSink/Reopen.antt =====
-- A write of FileSink::Impl (src/file_sink.cpp) that opens the file of an earlier run.
use player_trace_sdk.Base.{
  ◌≡◌, ◌⊎◌, refl, Bool, true, false, not, List, [], Option, none, some, inl, inr, Bool-cases, codes,
  if◌then◌else◌, subst,
}
use player_trace_sdk.Types.{Status, ok, is_ok, sink_error, Bytes, SerializedEvent}
use player_trace_sdk.Store.Action.{After}
use player_trace_sdk.FileSink.{
  Files, FileSink, repair, repair_tail, fail_hard, open_either, ensure_open, append_at, write,
}
use player_trace_sdk.FileSink.Append.{FileLaws}
use player_trace_sdk.FileSink.Cut.{Holds}
use player_trace_sdk.FileSink.Tail.{line_end, IsComplete, take-nil}
use player_trace_sdk.FileSink.Repair.{complete, complete-IsComplete, Leads-repair}
use player_trace_sdk.FileSink.Search.{TailLaws}
use player_trace_sdk.FileSink.Atomic.{Writes, write_cases}

module _ {W : Type 0} (files : Files W) (laws : FileLaws files) (tail : TailLaws files) where
  open files use {open_existing, open_new, seek_to_end, fflush, fault, disk, pending}
  open tail use {opened, emptied}

  -- What is kept of the file: its complete lines, or nothing if it could not be opened as it is.
  abbrev pub Kept : W → Bytes → Type 0
  Kept w content = IsComplete (disk w) content ⊎ (((open_existing w).0 ≡ false) × (content ≡ []))

  -- The file is open with what is kept of it; or it was not opened; or the sink has failed for good.
  abbrev pub Opens : FileSink → W → Status × FileSink × W → Type 0
  Opens sink w r =
      ((r.0 ≡ ok)
        × (r.1 ≡ record sink { is_open = true })
        × (content : Bytes) × Kept w content
        × Holds files content r.2)
      ⊎ ((is_ok r.0 ≡ false) × (r.1 ≡ sink))
      ⊎ ((is_ok r.0 ≡ false) × (is_ok r.1.failure ≡ false) × (r.1.is_open ≡ false))

  repaired :
      (sink : FileSink) (w : W) (content : Bytes) (r : Option (Unit {0})) (w' : W)
      → Kept w (complete content)
      → After (λ _. Holds files (complete content)) r w'
      → Opens sink w (elim r as (λ _. Status × FileSink × W) [
        | none ↦ fail_hard files (record sink { is_open = true }) w'
        | some _ ↦ (ok, record sink { is_open = true }, w')
      ])
  unfolding fail_hard
  repaired sink w content none w' kept h = inr (inr (refl, refl, refl))
  repaired sink w content (some _) w' kept h = inl (refl, refl, complete content, kept, h)

  repair_tail-Opens :
      (sink : FileSink) (w w' : W) (content : Bytes)
      → Kept w (complete content)
      → Holds files content w'
      → Opens sink w (repair_tail files (record sink { is_open = true }) w')
  unfolding repair_tail
  repair_tail-Opens sink w w' content kept held =
      repaired sink w content (repair files w').0 (repair files w').1 kept
        ((Leads-repair files laws tail content).after w' held)

  complete-nil : complete [] ≡ []
  complete-nil = take-nil (line_end [])

  either-existing :
      (w : W) → (open_existing w).0 ≡ true → open_either files w ≡ (true, (open_existing w).1)
  unfolding open_either
  either-existing w e = rw e refl

  either-new :
      (w : W) → (open_existing w).0 ≡ false → open_either files w ≡ open_new (open_existing w).1
  unfolding open_either
  either-new w e = rw e refl

  abbrev continued : FileSink → Bool × W → Status × FileSink × W
  continued sink (good, w') =
      if not good
      then (sink_error, sink, w')
      else repair_tail files (record sink { is_open = true }) w'

  opened_file : (sink : FileSink) (w : W) → Opens sink w (continued sink (open_either files w))
  opened_file sink w = elim (Bool-cases (open_existing w).0) [
    | inl e ↦ rw (either-existing w e) (
        repair_tail-Opens sink w (open_existing w).1 (disk w) (inl (complete-IsComplete (disk w)))
          (opened w e))
    | inr e ↦
        let w' = (open_existing w).1 in
        rw (either-new w e) (elim (Bool-cases (open_new w').0) [
          | inl good ↦ rw good (
              repair_tail-Opens sink w (open_new w').1 [] (inr (e, complete-nil)) (emptied w' good))
          | inr bad ↦ rw bad (inr (inl (refl, refl)))
        ])
  ]

  ensure_open-closed :
      (sink : FileSink) (w : W)
      → sink.is_open ≡ false
      → is_ok sink.failure ≡ true
      → ensure_open files sink w ≡ (
          if fault (codes "open") w
          then (sink_error, sink, w)
          else continued sink (open_either files w))
  unfolding ensure_open
  ensure_open-closed sink w closed fine = rw (fine, closed) refl

  ensure_open-Opens :
      (sink : FileSink) (w : W)
      → sink.is_open ≡ false
      → is_ok sink.failure ≡ true
      → Opens sink w (ensure_open files sink w)
  ensure_open-Opens sink w closed fine =
      rw (ensure_open-closed sink w closed fine) (elim (Bool-cases (fault (codes "open") w)) [
        | inl h ↦ rw h (inr (inl (refl, refl)))
        | inr h ↦ rw h (opened_file sink w)
      ])

  -- The sink is open and the write is one to what is kept of the file, or nothing is written and it
  -- fails.
  abbrev pub Reopens : List SerializedEvent → FileSink → W → Status × FileSink × W → Type 0
  Reopens events sink w r =
      ((w' : W) × (content : Bytes) × Kept w content
        × Holds files content w'
        × Writes files laws events (record sink { is_open = true }) w' r)
      ⊎ ((is_ok r.0 ≡ false) × (r.1 ≡ sink))
      ⊎ ((is_ok r.0 ≡ false) × (is_ok r.1.failure ≡ false) × (r.1.is_open ≡ false))

  write-open :
      (events : List SerializedEvent) (sink : FileSink) (w : W)
      → sink.is_open ≡ true
      → is_ok sink.failure ≡ true
      → sink.cancelled ≡ false
      → write files events sink w ≡ append_at files (seek_to_end w).0 events sink (seek_to_end w).1
  unfolding write ensure_open
  write-open events sink w is_open fine active = rw (active, fine, is_open) refl

  written :
      (events : List SerializedEvent) (sink : FileSink) (w : W) (s : Status) (o : FileSink) (w' : W)
      → sink.cancelled ≡ false
      → is_ok sink.failure ≡ true
      → Opens sink w (s, o, w')
      → Reopens events sink w (
          if not (is_ok s)
          then (s, o, w')
          else append_at files (seek_to_end w').0 events o (seek_to_end w').1)
  written events sink w s o w' active fine (inl (e, same, content, kept, held)) =
      let opened_sink = record sink { is_open = true } in
      rw e (
        rw same (
          inl (
            w',
            content,
            kept,
            held,
            subst (Writes files laws events opened_sink w')
                (write-open events opened_sink w' refl fine active)
                (write_cases files laws events opened_sink w' refl fine held.1),
          )))
  written events sink w s o w' active fine (inr (inl (bad, same))) = rw bad (inr (inl (bad, same)))
  written events sink w s o w' active fine (inr (inr (bad, failed, shut))) =
      rw bad (inr (inr (bad, failed, shut)))

  write-active :
      (events : List SerializedEvent) (sink : FileSink) (w : W)
      → sink.cancelled ≡ false
      → write files events sink w ≡ (
          let (s, o, w') = ensure_open files sink w in
          if not (is_ok s)
          then (s, o, w')
          else append_at files (seek_to_end w').0 events o (seek_to_end w').1)
  unfolding write
  write-active events sink w active = rw active refl

  -- Over the C file functions: a write of a sink that is neither open nor failed nor cancelled either
  -- fails with the sink as it was, or fails with the sink failed for good, or is one to the complete
  -- lines of the file that was there, all of it up to its last newline, or to nothing where that
  -- file could not be opened. It then answers Ok with one line for each event behind them, or an
  -- error with just them in the file and at most the bytes that a failed fflush retained, or an error
  -- with the sink failed for good.
  pub write-Reopens :
      (events : List SerializedEvent) (sink : FileSink) (w : W)
      → sink.is_open ≡ false
      → is_ok sink.failure ≡ true
      → sink.cancelled ≡ false
      → Reopens events sink w (write files events sink w)
  write-Reopens events sink w closed fine active =
      let r = ensure_open files sink w in
      rw (write-active events sink w active)
        (written events sink w r.0 r.1 r.2 active fine (ensure_open-Opens sink w closed fine))
