-- ===== src/Store/SqlText/Clean.antt =====
-- What strip_sql_noise of src/sqlite_store.cpp leaves.
use player_trace_sdk.Base.{
  ℕ, ◌≡◌, ◌⊎◌, refl, sym, ap, ◌∙◌, Bool, true, false, not, ◌||◌, ◌&&◌, [], ◌∷◌, ◌==◌, inl, inr,
  Bool-cases, arith, if◌then◌else◌, sym,
}
use player_trace_sdk.Types.{Bytes}
use player_trace_sdk.Store.SqlText.{
  head_is, is_quote, Mode, code, line, skipped, block, closing, quoted, escaped, turn, ending, scan,
  strip_sql_noise,
}

-- Does a comment open here?
abbrev pub opens : ℕ → Bytes → Bool
opens c rest = (c == 45 && head_is 45 rest) || (c == 47 && head_is 42 rest)

-- ' " ` [
abbrev pub opens_quote : ℕ → Bool
opens_quote c = c == 39 || c == 34 || c == 96 || c == 91

-- Neither a quote nor the opening of a comment.
unfoldable pub is_clean : Bytes → Bool
is_clean [] = true
is_clean (c ∷ rest) =
    let others = is_clean rest in if opens_quote c || opens c rest then false else others

abbrev is_code : Mode → Bool
is_code code = true
is_code _ = false

-- Inside of a region the next character to be written is a blank.
scan_blank : (m : Mode) (xs : Bytes) → is_code m ≡ false → head_is 32 (scan m xs) ≡ true
unfolding scan turn ending head_is
scan_blank code xs h = ground (arith, h)
scan_blank line [] h = refl
scan_blank line (c ∷ rest) h = elim (Bool-cases (c == 10)) [
  | inl e ↦ rw e refl
  | inr e ↦ rw e (scan_blank line rest refl)
]
scan_blank skipped [] h = refl
scan_blank skipped (c ∷ rest) h = scan_blank block rest refl
scan_blank block [] h = refl
scan_blank block (c ∷ rest) h = elim (Bool-cases (c == 42 && head_is 47 rest)) [
  | inl e ↦ rw e (scan_blank closing rest refl)
  | inr e ↦ rw e (scan_blank block rest refl)
]
scan_blank closing [] h = refl
scan_blank closing (c ∷ rest) h = refl
scan_blank (quoted close doubling) [] h = refl
scan_blank (quoted close doubling) (c ∷ rest) h = elim (Bool-cases (c == close)) [
  | inr e ↦ rw e (scan_blank (quoted close doubling) rest refl)
  | inl e ↦ rw e (elim (Bool-cases (doubling && head_is close rest)) [
    | inl d ↦ rw d (scan_blank (escaped close doubling) rest refl)
    | inr d ↦ rw d refl
  ])
]
scan_blank (escaped close doubling) [] h = refl
scan_blank (escaped close doubling) (c ∷ rest) h = scan_blank (quoted close doubling) rest refl

head_unique : (a b : ℕ) (xs : Bytes) → head_is a xs ≡ true → head_is b xs ≡ true → a ≡ b
unfolding head_is
head_unique a b [] h k = ground (arith, h)
head_unique a b (c ∷ rest) h k = ground (arith, h, k)

inside_head :
    (b : ℕ) (m : Mode) (xs : Bytes)
    → (b == 32) ≡ false
    → is_code m ≡ false
    → head_is b (scan m xs) ≡ false
inside_head b m xs n i = elim (Bool-cases (head_is b (scan m xs))) [
  | inl yes_b ↦
      let e = head_unique b 32 (scan m xs) yes_b (scan_blank m xs i) in ground (arith, e, n)
  | inr no_b ↦ no_b
]

-- A character at the top opens a region and is not written, or is plain and is written.
at_top :
    (c : ℕ) (rest : Bytes)
    → ((m : Mode) × (is_code m ≡ false) × (scan code (c ∷ rest) ≡ scan m rest))
      ⊎ (is_quote c ≡ false) × (opens c rest ≡ false) × (scan code (c ∷ rest) ≡ c ∷ scan code rest)
unfolding scan turn
at_top c rest = elim (Bool-cases (c == 45 && head_is 45 rest)) [
  | inl a ↦ inl (line, refl, rw a refl)
  | inr a ↦ elim (Bool-cases (c == 47 && head_is 42 rest)) [
    | inl b ↦ inl (skipped, refl, rw a (rw b refl))
    | inr b ↦ elim (Bool-cases (is_quote c)) [
      | inl q ↦
          inl (quoted (if c == 91 then 93 else c) (not (c == 91)), refl, rw a (rw b (rw q refl)))
      | inr q ↦ inr (q, rw a b, rw a (rw b (rw q refl)))
    ]
  ]
]

-- At the top the next character to be written is the next of the text, or a blank.
scan_head :
    (b : ℕ) (xs : Bytes) → (b == 32) ≡ false → head_is b (scan code xs) ≡ true → head_is b xs ≡ true
unfolding head_is scan ending
scan_head b [] n h = h
scan_head b (c ∷ rest) n h = elim (at_top c rest) [
  | inl (m, i, e) ↦
      let k = ap (head_is b) e in let no_b = inside_head b m rest n i in ground (arith, h, k, no_b)
  | inr (q, o, e) ↦
      let k : head_is b (scan code (c ∷ rest)) ≡ (c == b) = ap (head_is b) e in sym k ∙ h
]

opens-scan : (c : ℕ) (rest : Bytes) → opens c rest ≡ false → opens c (scan code rest) ≡ false
opens-scan c rest o = elim (Bool-cases (opens c (scan code rest))) [
  | inr fine ↦ fine
  | inl bad ↦ ground (arith, o, bad, scan_head 45 rest refl, scan_head 42 rest refl)
]

is_clean-cons :
    (c : ℕ) (rest : Bytes)
    → is_quote c ≡ false
    → opens c rest ≡ false
    → is_clean rest ≡ true
    → is_clean (c ∷ rest) ≡ true
unfolding is_clean is_quote
is_clean-cons c rest q o h = let plain : opens_quote c ≡ false = q in rw plain (rw o h)

is_clean_blank : (rest : Bytes) → is_clean rest ≡ true → is_clean (32 ∷ rest) ≡ true
unfolding is_quote
is_clean_blank rest h = is_clean-cons 32 rest refl refl h

is_clean-scan : (m : Mode) (xs : Bytes) → is_clean (scan m xs) ≡ true
unfolding scan turn ending is_clean is_quote head_is
is_clean-scan code [] = refl
is_clean-scan code (c ∷ rest) = elim (at_top c rest) [
  | inl (m, i, e) ↦ ap is_clean e ∙ is_clean-scan m rest
  | inr (q, o, e) ↦
      ap is_clean e
      ∙ is_clean-cons c (scan code rest) q (opens-scan c rest o) (is_clean-scan code rest)
]
is_clean-scan line [] = refl
is_clean-scan line (c ∷ rest) = elim (Bool-cases (c == 10)) [
  | inl e ↦ rw e (
      is_clean_blank (c ∷ scan code rest) (
        is_clean-cons c (scan code rest) (ground (arith, e)) (ground (arith, e))
          (is_clean-scan code rest)))
  | inr e ↦ rw e (is_clean-scan line rest)
]
is_clean-scan skipped [] = refl
is_clean-scan skipped (c ∷ rest) = is_clean-scan block rest
is_clean-scan block [] = refl
is_clean-scan block (c ∷ rest) = elim (Bool-cases (c == 42 && head_is 47 rest)) [
  | inl e ↦ rw e (is_clean-scan closing rest)
  | inr e ↦ rw e (is_clean-scan block rest)
]
is_clean-scan closing [] = refl
is_clean-scan closing (c ∷ rest) = is_clean_blank (scan code rest) (is_clean-scan code rest)
is_clean-scan (quoted close doubling) [] = refl
is_clean-scan (quoted close doubling) (c ∷ rest) = elim (Bool-cases (c == close)) [
  | inr e ↦ rw e (is_clean-scan (quoted close doubling) rest)
  | inl e ↦ rw e (elim (Bool-cases (doubling && head_is close rest)) [
    | inl d ↦ rw d (is_clean-scan (escaped close doubling) rest)
    | inr d ↦ rw d (is_clean_blank (scan code rest) (is_clean-scan code rest))
  ])
]
is_clean-scan (escaped close doubling) [] = refl
is_clean-scan (escaped close doubling) (c ∷ rest) = is_clean-scan (quoted close doubling) rest

-- Stripped text has no quote and no opening of a comment, whatever the text was.
pub strip_sql_noise-is_clean : (sql : Bytes) → is_clean (strip_sql_noise sql) ≡ true
unfolding strip_sql_noise
strip_sql_noise-is_clean sql = is_clean-scan code sql
