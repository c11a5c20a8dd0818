-- ===== src/Worker/Tokens.antt =====
-- Flush tokens and the record of their outcomes (src/worker.cpp): submit_flush, wait_flush,
-- flush_result_locked, prune_pass_results_locked, and the two loops of `run` that write outcomes.
pub mod Results
pub mod Retention
use player_trace_sdk.Base.{
  ℕ, zero, suc, ◌+◌, ◌-◌, Bool, true, false, ◌&&◌, ◌||◌, List, [], ◌∷◌, Option, none, some, length,
  ltb, leb, ◌==◌, if◌then◌else◌,
}
use player_trace_sdk.Base.Words.{add64}
use player_trace_sdk.Types.{Status, ok, is_ok, already_shutdown, internal}
use player_trace_sdk.Queue
use player_trace_sdk.Pipeline.{Pipeline}
use player_trace_sdk.Worker.Core.{WorkerCore, Shared}

-- kMaxRetainedPasses
abbrev pub max_retained_passes : ℕ
max_retained_passes = 256

-- std::map<uint64_t, Status>, as the list of its entries in the order of their keys.
abbrev pub Results : Type 0
Results = List (ℕ × Status)

-- results[token] = status
unfoldable pub store : ℕ → Status → Results → Results
store token status [] = (token, status) ∷ []
store token status ((t, s) ∷ rest) =
    if token == t
    then (token, status) ∷ rest
    else if ltb token t
    then (token, status) ∷ (t, s) ∷ rest
    else (t, s) ∷ store token status rest

-- results.find(token)
unfoldable pub find : ℕ → Results → Option Status
find token [] = none
find token ((t, s) ∷ rest) = if t == token then some s else find token rest

-- results.rbegin()->first
unfoldable pub last_key : Results → Option ℕ
last_key [] = none
last_key ((t, s) ∷ []) = some t
last_key ((t, s) ∷ e ∷ rest) = last_key (e ∷ rest)

-- while (size > kMaxRetainedPasses) erase(begin): one round for each entry is enough.
unfoldable pub prune : Results → Results
prune [] = []
prune (e ∷ rest) =
    let pruned = prune rest in
    if ltb max_retained_passes (length (e ∷ rest)) then pruned else e ∷ rest

-- The loop `while (t <= want) results[t] = outcome` from `first` on, over the tokens left.
unfoldable pub answer : ℕ → ℕ → Status → Results → Results
answer first zero outcome results = results
answer first (suc left) outcome results =
    answer (add64 first 1) left outcome (store first outcome results)

-- The tokens first, …, last.
abbrev pub tokens_left : ℕ → ℕ → ℕ
tokens_left first last = last + 1 - first

unfoldable pub submit_flush : ℕ → Shared → ℕ × Shared
submit_flush barrier_ordinal s =
    let barrier =
      if ltb s.core.flush_barrier barrier_ordinal then barrier_ordinal else s.core.flush_barrier in
    let token = add64 s.core.flush_seq 1 in
    (
      token,
      record {
        pipeline = record s.pipeline { queue = Queue.kick s.pipeline.queue };
        core = record s.core { flush_barrier = barrier; flush_seq = token };
      },
    )

-- token > results.rbegin()->first, or there is no entry at all.
abbrev pub above_all : ℕ → Option ℕ → Bool
above_all token none = true
above_all token (some last) = ltb last token

unfoldable pub flush_result : ℕ → WorkerCore → Status
flush_result token c = elim (find token c.pass_results) [
  | some status ↦ status
  | none ↦
      if c.finished && above_all token (last_key c.pass_results) then already_shutdown else internal
]

-- The predicate of the wait of wait_flush.
unfoldable pub flush_ready : ℕ → WorkerCore → Bool
flush_ready token c = leb token c.flush_done || c.finished

-- wait_flush from the moment its wait ends: `none` where the timeout came first.
unfoldable pub wait_flush : ℕ → WorkerCore → Option Status × WorkerCore
wait_flush token c =
    if flush_ready token c
    then (
      some (if is_ok c.terminal_status then flush_result token c else c.terminal_status),
      record c { pass_results = prune c.pass_results },
    )
    else (none, c)

-- What `run` records at the end of a pass that answers the tokens handled + 1, …, want.
unfoldable pub record_pass : ℕ → ℕ → Status → WorkerCore → WorkerCore
record_pass handled want outcome c =
    let first = add64 handled 1 in
    record c {
      pass_results = prune (answer first (tokens_left first want) outcome c.pass_results);
      flush_done = want;
    }

-- What `run` records as it exits, having answered the tokens up to `handled`.
unfoldable pub finish : ℕ → WorkerCore → WorkerCore
finish handled c =
    let first = add64 handled 1 in
    record c {
      finished = true;
      pass_results =
          prune (answer first (tokens_left first c.flush_seq) already_shutdown c.pass_results);
      flush_done = c.flush_seq;
    }
