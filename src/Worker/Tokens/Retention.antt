-- ===== src/Worker/Tokens/Retention.antt =====
-- wait_flush of src/worker.cpp against the history of the passes.
use player_trace_sdk.Base.{
  ℕ, ◌+◌, ◌-◌, ◌≤◌, ◌<◌, ◌≡◌, ◌⊎◌, refl, sym, ◌∙◌, inl, inr, Bool-cases, true, ◌&&◌, Option, some,
  length, ltb, leb, if◌then◌else◌, arith, Option-cases,
}
use player_trace_sdk.Base.Words.{u64_mod, add64}
use player_trace_sdk.Types.{Status, ok, already_shutdown}
use player_trace_sdk.Worker.Core.{WorkerCore}
use player_trace_sdk.Worker.Tokens.{
  Results, max_retained_passes, find, answer, flush_result, wait_flush, record_pass, finish,
}
use player_trace_sdk.Worker.Tokens.Results.{
  find-answer, find-prune, find-prune_cases, answer-Ascending, answer-KeysUpTo, prune-Ascending,
  prune-KeysUpTo, Ascending, KeysUpTo, KeysUpTo-mono, length-prune,
}

-- The worker has answered the tokens up to `handled`, and its record is in order.
pub record IsAnswered (handled : ℕ) (c : WorkerCore) : Type 0 where
  pub ascending : Ascending 0 c.pass_results
  pub known : KeysUpTo handled c.pass_results
  pub few : length c.pass_results ≤ max_retained_passes
  pub issued : handled ≤ c.flush_seq
  pub no_wrap : c.flush_seq + 2 < u64_mod

module _ (handled want : ℕ) (o : Status) (c : WorkerCore) (inv : IsAnswered handled c)
    (fresh : handled ≤ want) (asked : want ≤ c.flush_seq) where
  first-eq : add64 handled 1 ≡ handled + 1
  first-eq = let n = inv.no_wrap in let i = inv.issued in omega arith

  written : Results
  written = answer (handled + 1) (want + 1 - (handled + 1)) o c.pass_results

  written-Ascending : Ascending 0 written
  unfolding written
  written-Ascending =
      let n = inv.no_wrap in
      answer-Ascending 0 (handled + 1) (want + 1 - (handled + 1)) o c.pass_results (omega arith)
        (omega arith) inv.ascending

  written-KeysUpTo : KeysUpTo want written
  unfolding written
  written-KeysUpTo =
      let n = inv.no_wrap in
      answer-KeysUpTo want (handled + 1) (want + 1 - (handled + 1)) o c.pass_results (omega arith)
        (omega arith) (KeysUpTo-mono handled want c.pass_results fresh inv.known)

  -- A pass keeps the record in order and bounded, and moves the answered tokens on to `want`.
  pub record_pass-IsAnswered : IsAnswered want (record_pass handled want o c)
  unfolding record_pass written
  record_pass-IsAnswered = rw first-eq (record {
    ascending = prune-Ascending 0 written written-Ascending;
    known = prune-KeysUpTo want written written-KeysUpTo;
    few = length-prune written;
    issued = asked;
    no_wrap = inv.no_wrap;
  })

  find-record_pass :
      (t : ℕ)
      → want < t + max_retained_passes
      → find t (record_pass handled want o c).pass_results
        ≡ (if leb (handled + 1) t && ltb t (want + 1) then some o else find t c.pass_results)
  unfolding record_pass written
  find-record_pass t near =
      let n = inv.no_wrap in
      let span : handled + 1 + (want + 1 - (handled + 1)) ≡ want + 1 = omega arith in
      rw first-eq (
        find-prune t 0 want written written-Ascending written-KeysUpTo near
        ∙ find-answer t (handled + 1) (want + 1 - (handled + 1)) o c.pass_results (omega arith)
        ∙ rw span)

  -- Every token that a pass covers gets the outcome of that pass, as long as fewer than 256 later
  -- tokens were answered by it.
  pub flush_result-record_pass :
      (t : ℕ)
      → handled < t
      → t ≤ want
      → want < t + max_retained_passes
      → flush_result t (record_pass handled want o c) ≡ o
  unfolding flush_result
  flush_result-record_pass t new old near = ground (arith, find-record_pass t near)

-- For every token the outcome of the pass that answered it, where there was one.
abbrev pub History : Type 0
History = ℕ → Option Status

abbrev pub extend : ℕ → ℕ → Status → History → History
extend handled want o past t = if leb (handled + 1) t && ltb t (want + 1) then some o else past t

-- Each outcome on record is the one of the token under which it is filed.
pub record IsHonest (past : History) (c : WorkerCore) : Type 0 where
  pub filed : (t : ℕ) (s : Status) → find t c.pass_results ≡ some s → past t ≡ some s

module _ (handled want : ℕ) (o : Status) (c : WorkerCore) (inv : IsAnswered handled c)
    (fresh : handled ≤ want) (asked : want ≤ c.flush_seq) (past : History)
    (honest : IsHonest past c) where
  found-extend :
      (t : ℕ) (s : Status)
      → find t (answer (handled + 1) (want + 1 - (handled + 1)) o c.pass_results) ≡ some s
      → extend handled want o past t ≡ some s
  found-extend t s h =
      let n = inv.no_wrap in
      let span : handled + 1 + (want + 1 - (handled + 1)) ≡ want + 1 = omega arith in
      ground (
        arith,
        find-answer t (handled + 1) (want + 1 - (handled + 1)) o c.pass_results (omega arith),
        span,
        honest.filed t s,
      )

  -- A pass files its outcome under exactly the tokens that it answered.
  pub record_pass-IsHonest : IsHonest (extend handled want o past) (record_pass handled want o c)
  unfolding record_pass written
  record_pass-IsHonest = rw (first-eq handled want o c inv fresh asked) (record {
    filed = λ t s h.
        found-extend t s
          (elim (find-prune_cases t 0 (written handled want o c inv fresh asked)
            (written-Ascending handled want o c inv fresh asked)) [
              | inl gone ↦ absurd (ground arith)
              | inr kept ↦ sym kept ∙ h
            ]);
  })

-- The outcome is on record for the tokens above `handled` up to `want`, of which the 256 latest tokens
-- are kept, with what was there for those before; and nothing else is.
pub record IsFiled (handled want : ℕ) (o : Status) (before after : Results) : Type 0 where
  pub covered :
      (t : ℕ) → handled < t → t ≤ want → want < t + max_retained_passes → find t after ≡ some o
  pub kept : (t : ℕ) → t ≤ handled → want < t + max_retained_passes → find t after ≡ find t before
  pub nothing_else :
      (t : ℕ) (s : Status)
      → find t after ≡ some s
      → (handled < t) × (t ≤ want) × (s ≡ o) ⊎ (find t before ≡ some s)

extended :
    (handled want : ℕ) (o : Status) (past : History) (t : ℕ) (s : Status)
    → extend handled want o past t ≡ some s
    → (handled < t) × (t ≤ want) × (s ≡ o) ⊎ (past t ≡ some s)
extended handled want o past t s h = elim (Bool-cases (leb (handled + 1) t && ltb t (want + 1))) [
  | inl e ↦ inl (ground (arith, e), ground (arith, e), ground (arith, e, h))
  | inr e ↦ inr (ground (arith, e, h))
]

-- With the record in order up to the tokens handled, a pass files its outcome under every token that
-- it answered, if that is one of the 256 latest; of those, the earlier ones keep their outcomes; and
-- no other token has an outcome that it did not have.
pub record_pass-IsFiled :
    (handled want : ℕ) (o : Status) (c : WorkerCore)
    → IsAnswered handled c
    → handled ≤ want
    → want ≤ c.flush_seq
    → IsFiled handled want o c.pass_results (record_pass handled want o c).pass_results
record_pass-IsFiled handled want o c inv fresh asked = record {
  covered = λ t new old near.
      ground (arith, find-record_pass handled want o c inv fresh asked t near, new, old);
  kept =
      λ t old near. ground (arith, find-record_pass handled want o c inv fresh asked t near, old);
  nothing_else = λ t s h.
      let before : History = λ x. find x c.pass_results in
      extended handled want o before t s (
        (record_pass-IsHonest handled want o c inv fresh asked before
            (record { filed = λ x a e. e })).filed
          t s h);
}

-- wait_flush files nothing new, and reports success for a token only if the pass that answered that
-- very token succeeded: never another flush's outcome, never a pass that did not run.
pub wait_flush-ok :
    (past : History) (t : ℕ) (c c' : WorkerCore)
    → IsHonest past c
    → wait_flush t c ≡ (some ok, c')
    → past t ≡ some ok
unfolding wait_flush flush_result
wait_flush-ok past t c c' honest h = elim (Option-cases (find t c.pass_results)) [
  | inl e ↦ absurd (ground arith)
  | inr (s, e) ↦ ground (arith, honest.filed t s e)
]

-- As the worker exits, it files a refusal under every token that it never served, as a pass that
-- answers all of them would.
pub finish-record_pass :
    (handled : ℕ) (c : WorkerCore)
    → finish handled c
      ≡ record (record_pass handled c.flush_seq already_shutdown c) { finished = true }
unfolding finish record_pass
finish-record_pass handled c = refl
