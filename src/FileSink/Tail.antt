-- ===== src/FileSink/Tail.antt =====
-- find_last_complete_line_end of src/file_sink.cpp against a search of the whole content.
use player_trace_sdk.Base.{
  ℕ, zero, suc, ◌+◌, ◌-◌, ◌≤◌, ◌<◌, ◌≡◌, ◌≢◌, ◌⊎◌, All, refl, sym, ap, ◌∙◌, false, [], ◌∷◌, ◌++◌,
  Option, none, some, length, length-take, take, drop, ltb, ◌==◌, ==_iff, inl, inr, Bool-cases,
  arith, if◌then◌else◌,
}
use player_trace_sdk.Types.{Bytes}
use player_trace_sdk.FileSink.{Files, block, last_newline, find_last_complete_line_end}

abbrev pub or_zero : Option ℕ → ℕ
or_zero none = 0
or_zero (some i) = i

-- One past the last newline, 0 without one.
unfoldable pub line_end : Bytes → ℕ
line_end bytes = or_zero (last_newline bytes)

-- The last newline of the second part, or else of the first.
abbrev later_or : ℕ → Option ℕ → Option ℕ → Option ℕ
later_or n none first = first
later_or n (some i) first = some (n + i)

-- The step of last_newline at a byte in front.
abbrev before : ℕ → Option ℕ → Option ℕ
before b later = elim later [ some i ↦ some (i + 1) | none ↦ if b == 10 then some 1 else none ]

later_or-zero : (r : Option ℕ) → r ≡ later_or 0 r none
later_or-zero none = refl
later_or-zero (some i) = ap some (omega arith)

before-later_or :
    (b n : ℕ) (r first : Option ℕ)
    → before b (later_or n r first) ≡ later_or (suc n) r (before b first)
before-later_or b n none first = refl
before-later_or b n (some i) first = ap some (omega arith)

last_newline-append :
    (xs ys : Bytes)
    → last_newline (xs ++ ys) ≡ later_or (length xs) (last_newline ys) (last_newline xs)
unfolding last_newline
last_newline-append [] ys = later_or-zero (last_newline ys)
last_newline-append (x ∷ xs) ys =
    ap (before x) (last_newline-append xs ys)
    ∙ before-later_or x (length xs) (last_newline ys) (last_newline xs)

pub take-nil : (n : ℕ) → take {A = ℕ} n [] ≡ []
take-nil zero = refl
take-nil (suc n) = refl

take-split : (a b : ℕ) (xs : Bytes) → take (a + b) xs ≡ take a xs ++ take b (drop a xs)
take-split zero b xs = let e : 0 + b ≡ b = omega arith in ap (λ (n : ℕ). take n xs) e
take-split (suc a) b [] = take-nil (suc a + b) ∙ sym (take-nil b)
take-split (suc a) b (x ∷ xs) =
    let e : suc a + b ≡ suc (a + b) = omega arith in
    ap (λ (n : ℕ). take n (x ∷ xs)) e ∙ ap (x ∷◌) (take-split a b xs)

-- One past a newline of the block from `start` on, or what is known of the part before.
abbrev pub line_in : ℕ → ℕ → Option ℕ → ℕ
line_in start base none = base
line_in start base (some i) = start + i

or_zero-later_or :
    (n start : ℕ) (r first : Option ℕ)
    → n ≡ start
    → or_zero (later_or n r first) ≡ line_in start (or_zero first) r
or_zero-later_or n start none first e = refl
or_zero-later_or n start (some i) first e = ap (λ m. m + i) e

pub line_end-block :
    (start count : ℕ) (xs : Bytes)
    → start + count ≤ length xs
    → line_end (take (start + count) xs)
      ≡ line_in start (line_end (take start xs)) (last_newline (take count (drop start xs)))
unfolding line_end
line_end-block start count xs fits =
    ap or_zero (
      ap last_newline (take-split start count xs)
      ∙ last_newline-append (take start xs) (take count (drop start xs)))
    ∙ or_zero-later_or (length (take start xs)) start (last_newline (take count (drop start xs)))
        (last_newline (take start xs)) (omega (arith, length-take start xs, fits))

pub line_end-nil : line_end [] ≡ 0
unfolding line_end last_newline
line_end-nil = refl

pub chunk-whole :
    (pos : ℕ)
    → pos - (if ltb pos block then pos else block) + (if ltb pos block then pos else block) ≡ pos
chunk-whole pos = ground arith

pub chunk-start :
    (pos fuel : ℕ)
    → (pos == 0) ≡ false
    → pos < suc fuel
    → pos - (if ltb pos block then pos else block) < fuel
chunk-start pos fuel z more = ground (arith, z, more)

-- `content` is the complete lines of `whole`: it is empty or ends with the byte 10, and what comes
-- behind it has none.
abbrev pub IsComplete : Bytes → Bytes → Type 0
IsComplete whole content =
    ((torn : Bytes) × (whole ≡ content ++ torn) × All (λ b. b ≢ 10) torn)
    × ((content ≡ []) ⊎ ((front : Bytes) × (content ≡ front ++ 10 ∷ [])))

-- What the search of a block answers.
abbrev Last : Bytes → Option ℕ → Type 0
Last xs none = All (λ b. b ≢ 10) xs
Last xs (some i) =
    (front : Bytes) × (torn : Bytes) × (xs ≡ (front ++ 10 ∷ []) ++ torn)
    × (i ≡ length (front ++ 10 ∷ []))
    × All (λ b. b ≢ 10) torn

before-Last : (x : ℕ) (xs : Bytes) (r : Option ℕ) → Last xs r → Last (x ∷ xs) (before x r)
before-Last x xs none free = elim (Bool-cases (x == 10)) [
  | inl e ↦ rw e ([], xs, ap (λ b. b ∷ xs) ((==_iff x 10).0 e), refl, free)
  | inr e ↦ rw e (λ same. absurd (ground (arith, same, e)), free)
]
before-Last x xs (some i) (front, torn, e, n, free) =
    (x ∷ front, torn, ap (x ∷◌) e, omega (arith, n), free)

last_newline-Last : (xs : Bytes) → Last xs (last_newline xs)
unfolding last_newline
last_newline-Last [] = tt
last_newline-Last (x ∷ xs) = before-Last x xs (last_newline xs) (last_newline-Last xs)

Last-IsComplete :
    (xs : Bytes) (r : Option ℕ)
    → Last xs r
    → (content : Bytes) × IsComplete xs content × (or_zero r ≡ length content)
Last-IsComplete xs none free = ([], ((xs, refl, free), inl refl), refl)
Last-IsComplete xs (some i) (front, torn, e, n, free) =
    (front ++ 10 ∷ [], ((torn, e, free), inr (front, refl)), n)

pub line_end-IsComplete :
    (xs : Bytes) → (content : Bytes) × IsComplete xs content × (line_end xs ≡ length content)
unfolding line_end
line_end-IsComplete xs = Last-IsComplete xs (last_newline xs) (last_newline-Last xs)

module _ {W : Type 0} (files : Files W) where
  open files use {read_at, disk}

  in_block :
      (fuel start : ℕ) (w : W) (r : Option ℕ) (base : ℕ)
      → (find_last_complete_line_end files fuel start w).0 ≡ some base
      → (elim r as (λ _. Option ℕ × W) [
        | some i ↦ (some (start + i), w)
        | none ↦ find_last_complete_line_end files fuel start w
      ]).0
        ≡ some (line_in start base r)
  in_block fuel start w none base h = h
  in_block fuel start w (some i) base h = refl

  searched :
      (fuel start : ℕ) (w : W) (got : Option Bytes) (bytes : Bytes) (base : ℕ)
      → got ≡ some bytes
      → (find_last_complete_line_end files fuel start w).0 ≡ some base
      → (elim got as (λ _. Option ℕ × W) [
        | none ↦ (none, w)
        | some bytes ↦ elim (last_newline bytes) as (λ _. Option ℕ × W) [
          | some i ↦ (some (start + i), w)
          | none ↦ find_last_complete_line_end files fuel start w
        ]
      ]).0
        ≡ some (line_in start base (last_newline bytes))
  searched fuel start w got bytes base e h =
      rw e (in_block fuel start w (last_newline bytes) base h)

  find-line_end :
      ((start count : ℕ) (w : W)
        → start + count ≤ length (disk w)
        → ((read_at start count w).0 ≡ some (take count (drop start (disk w))))
          × (disk (read_at start count w).1 ≡ disk w))
      → (fuel pos : ℕ) (w : W) → pos < fuel
      → pos ≤ length (disk w)
      → (find_last_complete_line_end files fuel pos w).0 ≡ some (line_end (take pos (disk w)))
  unfolding find_last_complete_line_end
  find-line_end reads zero pos w more inside = ground (arith, more)
  find-line_end reads (suc fuel) pos w more inside = elim (Bool-cases (pos == 0)) [
    | inl z ↦ rw z (
        ap some
          (sym (ap (λ (n : ℕ). line_end (take n (disk w))) ((==_iff pos 0).0 z) ∙ line_end-nil)))
    | inr z ↦
        let chunk = if ltb pos block then pos else block in
        let start = pos - chunk in
        let whole : start + chunk ≡ pos = chunk-whole pos in
        let small : start < fuel = chunk-start pos fuel z more in
        let fits : start + chunk ≤ length (disk w) = omega (arith, whole, inside) in
        let (got, same) = reads start chunk w fits in
        let w' = (read_at start chunk w).1 in
        let size = ap (λ (x : Bytes). length x) same in
        rw z (
          searched fuel start w' (read_at start chunk w).0 (take chunk (drop start (disk w)))
            (line_end (take start (disk w))) got
            (find-line_end reads fuel start w' small (omega (arith, fits, size))
              ∙ ap (λ x. some (line_end (take start x))) same)
          ∙ ap some (
              sym (line_end-block start chunk (disk w) fits)
              ∙ ap (λ (n : ℕ). line_end (take n (disk w))) whole))
  ]

  -- With fuel for each byte, and where every read of bytes of the file succeeds and leaves it as it
  -- is, the search in blocks from the end on answers with the length of the complete lines in front
  -- of `pos`: those are empty or end with a newline, and behind them there is none.
  pub find_last_complete_line_end-IsComplete :
      ((start count : ℕ) (w : W)
        → start + count ≤ length (disk w)
        → ((read_at start count w).0 ≡ some (take count (drop start (disk w))))
          × (disk (read_at start count w).1 ≡ disk w))
      → (fuel pos : ℕ) (w : W) → pos < fuel
      → pos ≤ length (disk w)
      → (content : Bytes) × IsComplete (take pos (disk w)) content
        × ((find_last_complete_line_end files fuel pos w).0 ≡ some (length content))
  find_last_complete_line_end-IsComplete reads fuel pos w more inside =
      let (content, whole, n) = line_end-IsComplete (take pos (disk w)) in
      (content, whole, find-line_end reads fuel pos w more inside ∙ ap some n)
