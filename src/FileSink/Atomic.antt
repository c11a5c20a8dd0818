-- ===== src/FileSink/Atomic.antt =====
-- A write of FileSink::Impl (src/file_sink.cpp) as a whole: the lines, or the rollback.
use player_trace_sdk.Base.{
  ℕ, ◌≡◌, ◌⊎◌, refl, sym, ap, ◌∙◌, Bool, true, false, List, [], ◌++◌, append-nil, Option, none,
  some, length, take, inl, inr, Bool-cases, if◌then◌else◌, append_assoc,
}
use player_trace_sdk.Types.{Status, ok, is_ok, sink_error, Bytes, SerializedEvent}
use player_trace_sdk.Store.Action.{◌>>◌, try, After, Leads, Leads->>=}
use player_trace_sdk.FileSink.{
  Files, FileSink, fail_hard, cut, roll_back, ensure_open, append, append_at, write,
}
use player_trace_sdk.FileSink.Cut.{Holds, Buffers, Leads-cut, Leads-seek_kept}
use player_trace_sdk.FileSink.Append.{
  lines, take-length-append, FileLaws, Grows, Unbuffered, Finished, append_lem,
}

module _ {W : Type 0} (files : Files W) (laws : FileLaws files) where
  open files use {
    seek_to_end, seek_end, fflush, clearerr, sync, truncate, fault, disk, pending, at_end,
  }
  open laws use {sought, sought_end, flushed, cleared, synced, truncated}

  -- The file has grown from `before`, and the buffer holds `kept`.
  abbrev Longer : Bytes → Bytes → W → Type 0
  Longer before kept w = (x : Bytes) × (disk w ≡ before ++ x) × (pending w ≡ kept)

  cut_back :
      (before kept x : Bytes) (r : Option (Unit {0})) (w : W)
      → After (λ _. Buffers files (take (length before) (before ++ x)) kept) r w
      → After (λ _. Buffers files before kept) r w
  cut_back before kept x none w h = tt
  cut_back before kept x (some _) w (d, p) = (d ∙ take-length-append before x, p)

  Leads-back :
      (before kept : Bytes)
      → Leads (Longer before kept) (cut files (length before)) (λ _. Buffers files before kept)
  Leads-back before kept = record {
    after = λ w (x, d, p).
        cut_back before kept x (cut files (length before) w).0 (cut files (length before) w).1
          ((Leads-cut files laws (before ++ x) kept (length before)).after w (d, p));
  }

  Leads-restore :
      (before kept : Bytes)
      → Leads
          (Longer before kept)
          (cut files (length before) >> (λ x. (some tt, clearerr x)) >> try seek_end)
          (λ _. Holds files (before ++ kept))
  Leads-restore before kept =
      Leads->>= (cut files (length before) >> (λ x. (some tt, clearerr x))) (λ _. try seek_end)
        (λ _. Buffers files before kept)
        (Leads->>= (cut files (length before)) (λ _ x. (some tt, clearerr x))
          (λ _. Buffers files before kept) (Leads-back before kept)
          (λ _. record { after = λ w (d, p). ((cleared w).1 ∙ d, (cleared w).2 ∙ p) }))
        (λ _. Leads-seek_kept files laws before kept)

  -- Nothing, or the bytes that a failed fflush left in the buffer.
  abbrev pub Retained : Bytes → Type 0
  Retained kept = (kept ≡ []) ⊎ ((x : W) × ((fflush x).0 ≡ false) × (kept ≡ pending (fflush x).1))

  -- What a write answers and leaves: Ok and the lines at the end of the file; an error and the file as
  -- it was, but for what a failed fflush retained; or an error, the sink failed for good.
  abbrev pub Writes : List SerializedEvent → FileSink → W → Status × FileSink × W → Type 0
  Writes events sink w r =
      ((r.0 ≡ ok) × (r.1 ≡ sink) × (disk r.2 ≡ disk w ++ lines events) × (pending r.2 ≡ []))
      ⊎ ((is_ok r.0 ≡ false)
          × (r.1 ≡ sink)
          × (pending r.2 ≡ [])
          × (kept : Bytes) × Retained kept
          × (disk r.2 ≡ disk w ++ kept))
      ⊎ ((is_ok r.0 ≡ false) × (is_ok r.1.failure ≡ false) × (r.1.is_open ≡ false))

  rolled_after :
      (events : List SerializedEvent) (sink : FileSink) (w : W) (kept : Bytes)
      (r : Option (Unit {0})) (w' : W)
      → Retained kept
      → After (λ _. Holds files (disk w ++ kept)) r w'
      → Writes events sink w (elim r as (λ _. Status × FileSink × W) [
        | none ↦ fail_hard files sink w'
        | some _ ↦ (sink_error, sink, w')
      ])
  unfolding fail_hard
  rolled_after events sink w kept none w' why h = inr (inr (refl, refl, refl))
  rolled_after events sink w kept (some _) w' why (d, p) = inr (inl (refl, refl, p, kept, why, d))

  roll_back-open :
      (offset : ℕ) (sink : FileSink) (w : W)
      → sink.is_open ≡ true
      → (let restored =
            (cut files offset >> (λ x. (some tt, clearerr x)) >> try seek_end)
              (clearerr (fflush (clearerr w)).1) in
          roll_back files offset sink w ≡ elim restored.0 as (λ _. Status × FileSink × W) [
            | none ↦ fail_hard files sink restored.1
            | some _ ↦ (sink_error, sink, restored.1)
          ])
  unfolding roll_back
  roll_back-open offset sink w is_open = rw is_open refl

  retained : (w : W) → at_end w ≡ true → Retained (pending (fflush w).1)
  retained w end = elim (Bool-cases (fflush w).0) [
    | inl good ↦ inl ((flushed w end).1 good).2
    | inr bad ↦ inr (w, bad, refl)
  ]

  longer :
      (w w' : W)
      → Grows files w w'
      → Longer (disk w) (pending (fflush (clearerr w')).1) (clearerr (fflush (clearerr w')).1)
  longer w w' (end, x, d) =
      let (e1, d1, p1) = cleared w' in
      let w1 = clearerr w' in
      let ((_, y, d2), _) = flushed w1 (e1 ∙ end) in
      let (e3, d3, p3) = cleared (fflush w1).1 in
      (x ++ y, d3 ∙ d2 ∙ ap (λ t. t ++ y) (d1 ∙ d) ∙ append_assoc (disk w) x y, p3)

  rolled :
      (events : List SerializedEvent) (sink : FileSink) (w w' : W)
      → sink.is_open ≡ true
      → Grows files w w'
      → Writes events sink w (roll_back files (length (disk w)) sink w')
  rolled events sink w w' is_open g =
      let kept = pending (fflush (clearerr w')).1 in
      let w3 = clearerr (fflush (clearerr w')).1 in
      let restored =
        (cut files (length (disk w)) >> (λ x. (some tt, clearerr x)) >> try seek_end) w3 in
      rw (roll_back-open (length (disk w)) sink w' is_open) (
        rolled_after events sink w kept restored.0 restored.1
          (retained (clearerr w') ((cleared w').0 ∙ g.0))
          ((Leads-restore (disk w) kept).after w3 (longer w w' g)))

  finished :
      (events : List SerializedEvent) (sink : FileSink) (w : W) (r : Option (Unit {0})) (w' : W)
      → sink.is_open ≡ true
      → pending w ≡ []
      → Finished files laws events w r w'
      → Writes events sink w (elim r as (λ _. Status × FileSink × W) [
        | some _ ↦ (ok, sink, w')
        | none ↦ roll_back files (length (disk w)) sink w'
      ])
  finished events sink w none w' is_open p g = rolled events sink w w' is_open g
  finished events sink w (some _) w' is_open p (d, p') = inl (
    refl,
    refl,
    d ∙ ap (λ t. t ++ lines events) (ap (λ t. disk w ++ t) p ∙ append-nil (disk w)),
    p',
  )

  same_file :
      (events : List SerializedEvent) (sink : FileSink) (w w' : W) (r : Status × FileSink × W)
      → disk w' ≡ disk w
      → Writes events sink w' r
      → Writes events sink w r
  same_file events sink w w' r e (inl (s, k, d, p)) =
      inl (s, k, d ∙ ap (λ t. t ++ lines events) e, p)
  same_file events sink w w' r e (inr (inl (s, k, p, kept, why, d))) =
      inr (inl (s, k, p, kept, why, d ∙ ap (λ t. t ++ kept) e))
  same_file events sink w w' r e (inr (inr f)) = inr (inr f)

  -- At the end of the file, which `start` tells.
  appended_at :
      (events : List SerializedEvent) (sink : FileSink) (w : W) (start : Option ℕ) (w' : W)
      → sink.is_open ≡ true
      → pending w ≡ []
      → ((n : ℕ) → start ≡ some n → Unbuffered files w w' × (n ≡ length (disk w')))
      → Writes events sink w (append_at files start events sink w')
  unfolding append_at fail_hard
  appended_at events sink w none w' is_open p known = inr (inr (refl, refl, refl))
  appended_at events sink w (some n) w' is_open p known =
      let ((end, d, p'), told) = known n refl in
      let r = append files sink.durable_sync events w' in
      rw told (
        same_file events sink w w' _ (d ∙ ap (λ t. disk w ++ t) p ∙ append-nil (disk w)) (
          finished events sink w' r.0 r.1 is_open p'
            (append_lem files laws sink.durable_sync events w' end)))

  ensure_open-open :
      (sink : FileSink) (w : W)
      → sink.is_open ≡ true
      → is_ok sink.failure ≡ true
      → ensure_open files sink w ≡ (ok, sink, w)
  unfolding ensure_open
  ensure_open-open sink w is_open fine = rw fine (rw is_open refl)

  unless_cancelled :
      (events : List SerializedEvent) (sink : FileSink) (w : W) (cancelled : Bool)
      (r : Status × FileSink × W)
      → pending w ≡ []
      → Writes events sink w r
      → Writes events sink w (if cancelled then (sink_error, sink, w) else r)
  unless_cancelled events sink w true r p h =
      inr (inl (refl, refl, p, [], inl refl, sym (append-nil (disk w))))
  unless_cancelled events sink w false r p h = h

  -- Over the C file functions: a write of an open sink that has not failed, with nothing buffered,
  -- answers Ok with one line for each event at the end of the file, or an error with the file as it
  -- was, behind which there are at most the bytes that a failed fflush retained, or an error with
  -- the sink failed for good; in the first two cases nothing stays buffered.
  pub write_cases :
      (events : List SerializedEvent) (sink : FileSink) (w : W)
      → sink.is_open ≡ true
      → is_ok sink.failure ≡ true
      → pending w ≡ []
      → Writes events sink w (write files events sink w)
  unfolding write
  write_cases events sink w is_open fine p = unless_cancelled events sink w sink.cancelled _ p (
      rw (ensure_open-open sink w is_open fine) (
        appended_at events sink w (seek_to_end w).0 (seek_to_end w).1 is_open p
          (λ n e. sought w n e)))
