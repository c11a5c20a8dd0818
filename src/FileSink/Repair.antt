-- ===== src/FileSink/Repair.antt =====
-- repair_tail of src/file_sink.cpp: what is left of the file of an earlier run.
use player_trace_sdk.Base.{
  ℕ, ◌+◌, ◌≡◌, refl, sym, ap, subst, ◌∙◌, [], ◌∷◌, ◌++◌, append-nil, Option, none, some, length,
  take, inl, inr, Bool-cases, ◌==◌, ==_iff, arith, if◌then◌else◌,
}
use player_trace_sdk.Types.{Bytes}
use player_trace_sdk.Store.Action.{◌>>=◌, ◌>>◌, try, After, Leads, Leads->>=}
use player_trace_sdk.FileSink.{
  Files, last_newline, find_last_complete_line_end, trim, repair, cut, Action, return,
}
use player_trace_sdk.FileSink.Append.{FileLaws, take-length-append}
use player_trace_sdk.FileSink.Tail.{line_end, IsComplete, line_end-IsComplete}
use player_trace_sdk.FileSink.Cut.{Holds, Leads-cut, Leads-seek}
use player_trace_sdk.FileSink.Search.{TailLaws, find-Found}

-- The complete lines of the content: all of it but a torn line at its end.
abbrev pub complete : Bytes → Bytes
complete content = take (line_end content) content

pub complete-IsComplete : (whole : Bytes) → IsComplete whole (complete whole)
complete-IsComplete whole =
    let (content, parts, n) = line_end-IsComplete whole in
    let ((torn, e, free), end) = parts in
    let same : complete whole ≡ content =
      ap (λ i. take i whole) n ∙ ap (take (length content)) e ∙ take-length-append content torn in
    subst (IsComplete whole) (sym same) parts

module _ {W : Type 0} (files : Files W) (laws : FileLaws files) (tail : TailLaws files) where
  open files use {
    open_existing, open_new, seek_to_end, seek_end, read_at, fflush, clearerr, disk, pending,
  }
  open laws use {sought, cleared}
  open tail use {opened, emptied, bytes_read, unchanged, nothing_to_flush}

  take-whole : (xs : Bytes) → take (length xs) xs ≡ xs
  take-whole xs = ap (λ x. take (length xs) x) (sym (append-nil xs)) ∙ take-length-append xs []

  short-complete : (content : Bytes) → length content ≡ 0 → complete content ≡ content
  unfolding line_end last_newline
  short-complete [] h = refl
  short-complete (b ∷ content) h = absurd (ground (arith, h))

  cut_off :
      (content : Bytes)
      → Leads
          (Holds files content)
          (cut files (line_end content) >> try seek_end)
          (λ _. Holds files (complete content))
  cut_off content =
      Leads->>= (cut files (line_end content)) (λ _. try seek_end)
        (λ _. Holds files (complete content)) (Leads-cut files laws content [] (line_end content))
        (λ _. Leads-seek files laws (complete content))

  trim-trims :
      (content : Bytes) (size good_end : ℕ) (w : W)
      → size ≡ length content
      → good_end ≡ line_end content
      → Holds files content w
      → After
          (λ _. Holds files (complete content))
          (trim files size good_end w).0
          (trim files size good_end w).1
  unfolding trim
  trim-trims content size good_end w n e held = elim (Bool-cases (good_end == size)) [
    | inl whole ↦
        let all : complete content ≡ content =
          ap (λ i. take i content) (sym e ∙ (==_iff good_end size).0 whole ∙ n)
          ∙ take-whole content in
        rw whole (rw all ((Leads-seek files laws content).after w held))
    | inr torn ↦
        let (d, p) = nothing_to_flush content w held in
        let c = cleared (fflush w).1 in
        rw torn (rw e ((cut_off content).after (clearerr (fflush w).1) (c.1 ∙ d, c.2 ∙ p)))
  ]

  Leads-trim :
      (content : Bytes) (size : ℕ)
      → size ≡ length content
      → Leads
          (Holds files content)
          (find_last_complete_line_end files (size + 1) size >>= λ good_end.
            trim files size good_end)
          (λ _. Holds files (complete content))
  Leads-trim content size n =
      Leads->>= (find_last_complete_line_end files (size + 1) size)
        (λ good_end. trim files size good_end)
        (λ i w. (i ≡ line_end (take size content)) × Holds files content w)
        (record {
          after = λ w held.
              find-Found files laws tail content (size + 1) size w held (omega (arith, n));
        })
        (λ good_end. record {
          after = λ w (e, held).
              trim-trims content size good_end w n
                (e
                  ∙ ap (λ (x : Bytes). line_end x)
                      (ap (λ i. take i content) n ∙ take-whole content))
                held;
        })

  sized :
      (content : Bytes) (r : Option ℕ) (w w' : W)
      → Holds files content w
      → ((n : ℕ)
          → r ≡ some n
          → (disk w' ≡ disk w ++ pending w) × (pending w' ≡ []) × (n ≡ length (disk w')))
      → After (λ n x. (n ≡ length content) × Holds files content x) r w'
  sized content none w w' held told = tt
  sized content (some n) w w' (d, p) told =
      let (d', p', e) = told n refl in
      let same = d' ∙ ap (λ t. disk w ++ t) p ∙ append-nil (disk w) ∙ d in
      (e ∙ ap (λ (x : Bytes). length x) same, (same, p'))

  -- What comes once the size is known.
  after_size : ℕ → Action W (Unit {0})
  after_size size =
      if size == 0
      then return tt
      else (find_last_complete_line_end files (size + 1) size >>= λ good_end.
          trim files size good_end)

  Leads-after_size :
      (content : Bytes) (size : ℕ)
      → size ≡ length content
      → Leads (Holds files content) (after_size size) (λ _. Holds files (complete content))
  unfolding after_size
  Leads-after_size content size n = elim (Bool-cases (size == 0)) [
    | inl z ↦ rw z (record {
      after =
          λ w held. (held.0 ∙ sym (short-complete content (sym n ∙ (==_iff size 0).0 z)), held.1);
    })
    | inr z ↦ rw z (Leads-trim content size n)
  ]

  pub Leads-repair :
      (content : Bytes)
      → Leads (Holds files content) (repair files) (λ _. Holds files (complete content))
  unfolding repair after_size
  Leads-repair content =
      Leads->>= seek_to_end after_size (λ n w. (n ≡ length content) × Holds files content w)
        (record {
          after = λ w held.
              sized content (seek_to_end w).0 w (seek_to_end w).1 held
                (λ n e. let ((_, d, p), m) = sought w n e in (d, p, m));
        })
        (λ size. record { after = λ w (n, held). (Leads-after_size content size n).after w held })
