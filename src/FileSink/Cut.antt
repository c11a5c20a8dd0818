-- ===== src/FileSink/Cut.antt =====
-- The truncation of the file in src/file_sink.cpp, and the seek to its end.
use player_trace_sdk.Base.{ℕ, ◌≡◌, ap, ◌∙◌, [], ◌++◌, append-nil, take, inl, inr, Bool-cases, codes}
use player_trace_sdk.Types.{Bytes}
use player_trace_sdk.Store.Action.{try, Leads, Leads->>=, Leads-try}
use player_trace_sdk.FileSink.{Files, no_fault, cut}
use player_trace_sdk.FileSink.Append.{FileLaws}

-- The file holds `content`, and the buffer nothing.
abbrev pub Holds : {W : Type 0} → Files W → Bytes → W → Type 0
Holds files content w = (Files.disk files w ≡ content) × (Files.pending files w ≡ [])

-- The file holds `content`, and the buffer `kept`.
abbrev pub Buffers : {W : Type 0} → Files W → Bytes → Bytes → W → Type 0
Buffers files content kept w = (Files.disk files w ≡ content) × (Files.pending files w ≡ kept)

module _ {W : Type 0} (files : Files W) (laws : FileLaws files) where
  open files use {seek_end, sync, truncate, fault, disk, pending}
  open laws use {sought_end, synced, truncated}

  Leads-no_fault :
      (operation : Bytes) (pre : W → Type 0) → Leads pre (no_fault files operation) (λ _. pre)
  Leads-no_fault operation pre = record {
    after = λ w h. elim (Bool-cases (fault operation w)) [ inl e ↦ rw e tt | inr e ↦ rw e h ];
  }

  pub Leads-cut :
      (content kept : Bytes) (n : ℕ)
      → Leads (Buffers files content kept) (cut files n) (λ _. Buffers files (take n content) kept)
  unfolding cut
  Leads-cut content kept n =
      Leads->>= (no_fault files (codes "truncate")) _ (λ _. Buffers files content kept)
        (Leads-no_fault (codes "truncate") (Buffers files content kept))
        (λ _.
          Leads->>= (try (truncate n)) (λ _. try sync) (λ _. Buffers files (take n content) kept)
            (Leads-try (truncate n) (λ w (d, p) good.
              ((truncated n w good).0 ∙ ap (take n) d, (truncated n w good).1 ∙ p)))
            (λ _. Leads-try sync (λ w (d, p) good. ((synced w).1 ∙ d, (synced w).2 ∙ p))))

  pub Leads-seek_kept :
      (content kept : Bytes)
      → Leads (Buffers files content kept) (try seek_end) (λ _. Holds files (content ++ kept))
  Leads-seek_kept content kept = Leads-try seek_end (λ w (d, p) good.
      let (_, d', p') = sought_end w good in
      (d' ∙ ap (λ t. t ++ pending w) d ∙ ap (λ t. content ++ t) p, p'))

  pub Leads-seek :
      (content : Bytes) → Leads (Holds files content) (try seek_end) (λ _. Holds files content)
  Leads-seek content = Leads-try seek_end (λ w (d, p) good.
      let (_, d', p') = sought_end w good in
      (d' ∙ ap (λ t. disk w ++ t) p ∙ append-nil (disk w) ∙ d, p'))
