-- ===== src/FileSink/Search.antt =====
-- The search for the last complete line in src/file_sink.cpp, where any read may fail.
use player_trace_sdk.Base.{
  ℕ, zero, suc, ◌+◌, ◌-◌, ◌≤◌, ◌≡◌, refl, sym, ap, ◌∙◌, true, [], Option, none, some, length, take,
  drop, ltb, inl, inr, Bool-cases, ◌==◌, ==_iff, arith, if◌then◌else◌,
}
use player_trace_sdk.Types.{Bytes}
use player_trace_sdk.Store.Action.{After}
use player_trace_sdk.FileSink.{Files, block, last_newline, find_last_complete_line_end}
use player_trace_sdk.FileSink.Append.{FileLaws}
use player_trace_sdk.FileSink.Tail.{line_end, line_in, line_end-block, line_end-nil, chunk-whole}
use player_trace_sdk.FileSink.Cut.{Holds}

-- C on opening and reading: "r+b" leaves the file, "w+b" empties it, a new stream has nothing
-- buffered; a read that succeeds yields the bytes of the file; and where nothing is buffered, a flush
-- writes nothing.
pub record TailLaws {W : Type 0} (files : Files W) : Type 0 where
  pub opened :
      (w : W)
      → (Files.open_existing files w).0 ≡ true
      → Holds files (Files.disk files w) (Files.open_existing files w).1
  pub emptied :
      (w : W) → (Files.open_new files w).0 ≡ true → Holds files [] (Files.open_new files w).1
  pub bytes_read :
      (start count : ℕ) (w : W) (bytes : Bytes)
      → (Files.read_at files start count w).0 ≡ some bytes
      → bytes ≡ take count (drop start (Files.disk files w))
  pub unchanged :
      (start count : ℕ) (w : W)
      → (Files.disk files (Files.read_at files start count w).1 ≡ Files.disk files w)
        × (Files.pending files (Files.read_at files start count w).1 ≡ Files.pending files w)
  pub nothing_to_flush :
      (content : Bytes) (w : W)
      → Holds files content w
      → Holds files content (Files.fflush files w).1

module _ {W : Type 0} (files : Files W) (laws : FileLaws files) (tail : TailLaws files) where
  open files use {
    open_existing, open_new, seek_to_end, seek_end, read_at, fflush, clearerr, disk, pending,
  }
  open laws use {sought, cleared}
  open tail use {opened, emptied, bytes_read, unchanged, nothing_to_flush}

  -- The end of the last complete line in front of `pos`, in a file that stays.
  abbrev pub Found : Bytes → ℕ → Option ℕ → W → Type 0
  Found content pos r w =
      After (λ i w'. (i ≡ line_end (take pos content)) × Holds files content w') r w

  earlier_end :
      (content : Bytes) (start pos : ℕ) (r : Option ℕ) (w : W)
      → line_end (take pos content) ≡ line_end (take start content)
      → Found content start r w
      → Found content pos r w
  earlier_end content start pos none w e h = tt
  earlier_end content start pos (some i) w e (a, held) = (a ∙ sym e, held)

  in_block :
      (content : Bytes) (fuel start pos : ℕ) (w : W) (r : Option ℕ)
      → line_end (take pos content) ≡ line_in start (line_end (take start content)) r
      → Holds files content w
      → Found content start
          (find_last_complete_line_end files fuel start w).0
          (find_last_complete_line_end files fuel start w).1
      → (let s = elim r as (λ _. Option ℕ × W) [
        | some i ↦ (some (start + i), w)
        | none ↦ find_last_complete_line_end files fuel start w
      ] in
          Found content pos s.0 s.1)
  in_block content fuel start pos w none e held h =
      earlier_end content start pos (find_last_complete_line_end files fuel start w).0
        (find_last_complete_line_end files fuel start w).1 e h
  in_block content fuel start pos w (some i) e held h = (sym e, held)

  searched :
      (content : Bytes) (fuel start pos : ℕ) (w : W) (got : Option Bytes)
      → ((bytes : Bytes)
          → got ≡ some bytes
          → line_end (take pos content)
            ≡ line_in start (line_end (take start content)) (last_newline bytes))
      → Holds files content w
      → Found content start
          (find_last_complete_line_end files fuel start w).0
          (find_last_complete_line_end files fuel start w).1
      → (let s = elim got as (λ _. Option ℕ × W) [
        | none ↦ (none, w)
        | some bytes ↦ elim (last_newline bytes) as (λ _. Option ℕ × W) [
          | some i ↦ (some (start + i), w)
          | none ↦ find_last_complete_line_end files fuel start w
        ]
      ] in
          Found content pos s.0 s.1)
  searched content fuel start pos w none e held h = tt
  searched content fuel start pos w (some bytes) e held h =
      in_block content fuel start pos w (last_newline bytes) (e bytes refl) held h

  pub find-Found :
      (content : Bytes) (fuel pos : ℕ) (w : W)
      → Holds files content w
      → pos ≤ length content
      → Found content pos
          (find_last_complete_line_end files fuel pos w).0
          (find_last_complete_line_end files fuel pos w).1
  unfolding find_last_complete_line_end
  find-Found content zero pos w held inside = tt
  find-Found content (suc fuel) pos w held inside = elim (Bool-cases (pos == 0)) [
    | inl z ↦
        rw z (
          sym (ap (λ (n : ℕ). line_end (take n content)) ((==_iff pos 0).0 z) ∙ line_end-nil),
          held,
        )
    | inr z ↦
        let chunk = if ltb pos block then pos else block in
        let start = pos - chunk in
        let whole : start + chunk ≡ pos = chunk-whole pos in
        let fits : start + chunk ≤ length content = omega (arith, whole, inside) in
        let w' = (read_at start chunk w).1 in
        let (d, p) = unchanged start chunk w in
        let kept : Holds files content w' = (d ∙ held.0, p ∙ held.1) in
        rw z (
          searched content fuel start pos w' (read_at start chunk w).0
            (λ bytes got.
              ap (λ (n : ℕ). line_end (take n content)) (sym whole)
              ∙ line_end-block start chunk content fits
              ∙ ap (λ x. line_in start (line_end (take start content)) (last_newline x))
                  (ap (λ x. take chunk (drop start x)) (sym held.0)
                    ∙ sym (bytes_read start chunk w bytes got)))
            kept (find-Found content fuel start w' kept (omega (arith, fits))))
  ]
