-- ===== src/Worker/Tokens/Results.antt =====
-- The map of outcomes of src/worker.cpp: lookup, order and pruning.
use player_trace_sdk.Base.{
  ℕ, zero, suc, ◌+◌, ◌≤◌, ◌<◌, ◌≡◌, refl, ◌⊎◌, inl, inr, ◌&&◌, [], ◌∷◌, none, some, length, ltb,
  leb, ◌==◌, if◌then◌else◌, arith, Bool-cases, ◌∙◌,
}
use player_trace_sdk.Base.Words.{u64_mod, add64}
use player_trace_sdk.Types.{Status}
use player_trace_sdk.Worker.Tokens.{Results, max_retained_passes, store, find, prune, answer}

-- Writing one key changes the answer for that key alone.
pub find-store :
    (token t : ℕ) (s : Status) (r : Results)
    → find t (store token s r) ≡ (if token == t then some s else find t r)
unfolding find store
find-store token t s [] = refl
find-store token t s ((k, v) ∷ r) = ground (arith, find-store token t s r)

-- Keys that ascend above `low`.
abbrev pub Ascending : ℕ → Results → Type 0
Ascending low [] = Unit
Ascending low (e ∷ r) = (low < e.0) × Ascending e.0 r

abbrev pub KeysUpTo : ℕ → Results → Type 0
KeysUpTo high [] = Unit
KeysUpTo high (e ∷ r) = (e.0 ≤ high) × KeysUpTo high r

pub store-Ascending :
    (low token : ℕ) (s : Status) (r : Results)
    → Ascending low r
    → low < token
    → Ascending low (store token s r)
unfolding store
store-Ascending low token s [] a h = (h, tt)
store-Ascending low token s ((k, v) ∷ r) a h = ground (arith, store-Ascending k token s r a.1)

pub store-KeysUpTo :
    (high token : ℕ) (s : Status) (r : Results)
    → KeysUpTo high r
    → token ≤ high
    → KeysUpTo high (store token s r)
unfolding store
store-KeysUpTo high token s [] a h = (h, tt)
store-KeysUpTo high token s ((k, v) ∷ r) a h = ground (arith, store-KeysUpTo high token s r a.1)

pub KeysUpTo-mono : (low high : ℕ) (r : Results) → low ≤ high → KeysUpTo low r → KeysUpTo high r
KeysUpTo-mono low high [] h k = tt
KeysUpTo-mono low high (e ∷ r) h k = (omega arith, KeysUpTo-mono low high r h k.1)

Ascending-mono : (low high : ℕ) (r : Results) → low ≤ high → Ascending high r → Ascending low r
Ascending-mono low high [] h a = tt
Ascending-mono low high (e ∷ r) h a = (omega arith, a.1)

pub prune-Ascending : (low : ℕ) (r : Results) → Ascending low r → Ascending low (prune r)
unfolding prune
prune-Ascending low [] a = tt
prune-Ascending low (e ∷ r) a =
    ground (arith, Ascending-mono low e.0 (prune r), prune-Ascending e.0 r a.1)

pub prune-KeysUpTo : (high : ℕ) (r : Results) → KeysUpTo high r → KeysUpTo high (prune r)
unfolding prune
prune-KeysUpTo high [] k = tt
prune-KeysUpTo high (e ∷ r) k = ground (arith, prune-KeysUpTo high r k.1)

-- At most 256 outcomes are retained.
pub length-prune : (r : Results) → length (prune r) ≤ max_retained_passes
unfolding prune
length-prune [] = omega arith
length-prune (e ∷ r) = ground (arith, length-prune r)

-- Between two bounds there is only so much room.
Ascending-length :
    (low high : ℕ) (r : Results)
    → Ascending low r
    → KeysUpTo high r
    → (length r + low ≤ high) ⊎ (r ≡ [])
Ascending-length low high [] a k = inr refl
Ascending-length low high (e ∷ r) a k = inl (ground (arith, Ascending-length e.0 high r a.1 k.1))

-- A token below every key has no record.
pub find_below : (t low : ℕ) (r : Results) → Ascending low r → t ≤ low → find t r ≡ none
unfolding find
find_below t low [] a h = refl
find_below t low (e ∷ r) a h = ground (arith, find_below t e.0 r a.1)

-- Pruning only forgets: an answer that is left is the one that was recorded for that very token.
pub find-prune_cases :
    (t low : ℕ) (r : Results)
    → Ascending low r
    → (find t (prune r) ≡ none) ⊎ (find t (prune r) ≡ find t r)
unfolding find prune
find-prune_cases t low [] a = inl refl
find-prune_cases t low (e ∷ r) a = elim (Bool-cases (ltb max_retained_passes (length (e ∷ r)))) [
  | inr few ↦ inr (ground arith)
  | inl many ↦ elim (Bool-cases (e.0 == t)) [
    | inr other ↦ ground (arith, find-prune_cases t e.0 r a.1)
    | inl hit ↦ inl (ground (arith, find_below t e.0 (prune r) (prune-Ascending e.0 r a.1)))
  ]
]

-- A token among the 256 latest keeps its answer.
pub find-prune :
    (t low high : ℕ) (r : Results)
    → Ascending low r
    → KeysUpTo high r
    → high < t + max_retained_passes
    → find t (prune r) ≡ find t r
unfolding find prune
find-prune t low high [] a k h = refl
find-prune t low high (e ∷ r) a k h =
    ground (arith, find-prune t e.0 high r a.1 k.1 h, Ascending-length e.0 high r a.1 k.1)

within_step {ℓ} :
    {A : Type ℓ} (t first n : ℕ) (o x : A)
    → (if leb (first + 1) t && ltb t (first + 1 + n) then o else (if first == t then o else x))
      ≡ (if leb first t && ltb t (first + suc n) then o else x)
within_step t first n o x = ground arith

-- The loop of a pass writes its outcome for every token that it answers and for no other.
pub find-answer :
    (t first n : ℕ) (o : Status) (r : Results)
    → first + n < u64_mod
    → find t (answer first n o r) ≡ (if leb first t && ltb t (first + n) then some o else find t r)
unfolding answer
find-answer t first zero o r h = ground arith
find-answer t first (suc n) o r h =
    let next : add64 first 1 ≡ first + 1 = omega arith in
    rw next (
      find-answer t (first + 1) n o (store first o r) (omega arith)
      ∙ rw (find-store first t o r) (within_step t first n (some o) (find t r)))

pub answer-Ascending :
    (low first n : ℕ) (o : Status) (r : Results)
    → first + n < u64_mod
    → low < first
    → Ascending low r
    → Ascending low (answer first n o r)
unfolding answer
answer-Ascending low first zero o r h l a = a
answer-Ascending low first (suc n) o r h l a =
    let next : add64 first 1 ≡ first + 1 = omega arith in
    rw next (
      answer-Ascending low (first + 1) n o (store first o r) (omega arith) (omega arith)
        (store-Ascending low first o r a l))

pub answer-KeysUpTo :
    (high first n : ℕ) (o : Status) (r : Results)
    → first + n < u64_mod
    → first + n ≤ high + 1
    → KeysUpTo high r
    → KeysUpTo high (answer first n o r)
unfolding answer
answer-KeysUpTo high first zero o r h l k = k
answer-KeysUpTo high first (suc n) o r h l k =
    let next : add64 first 1 ≡ first + 1 = omega arith in
    rw next (
      answer-KeysUpTo high (first + 1) n o (store first o r) (omega arith) (omega arith)
        (store-KeysUpTo high first o r k (omega arith)))
