-- ===== src/Worker/Loop/Finishes.antt =====
-- The end of `run` (src/worker.cpp), once it is asked to stop.
use player_trace_sdk.Base.{ℕ, ◌+◌, ◌≤◌, ◌<◌, ◌≡◌, refl, true, arith, Bool}
use player_trace_sdk.Types.{already_shutdown}
use player_trace_sdk.Worker.Core.{WorkerCore, Shared}
use player_trace_sdk.Worker.Tokens.{
  max_retained_passes, record_pass, finish, flush_result, flush_ready,
}
use player_trace_sdk.Worker.Tokens.Retention.{
  IsAnswered, record_pass-IsAnswered, flush_result-record_pass,
}
use player_trace_sdk.Worker.Loop.Advance.{board, board-Follows}
use player_trace_sdk.Worker.Loop.{caught, close_admission, leave}
use player_trace_sdk.Worker.Loop.Passes.{Follows-IsAnswered}

-- No token is left without a record: those up to `handled` were served, and the others are refused.
pub record Finishes (handled : ℕ) (c : WorkerCore) : Type 0 where
  pub finished : c.finished ≡ true
  pub recorded : IsAnswered c.flush_seq c
  pub ready : (t : ℕ) → t ≤ c.flush_seq → flush_ready t c ≡ true
  pub refused :
      (t : ℕ)
      → handled < t
      → t ≤ c.flush_seq
      → c.flush_seq < t + max_retained_passes
      → flush_result t c ≡ already_shutdown

finish-told :
    (t handled : ℕ) (c : WorkerCore)
    → flush_result t (record_pass handled c.flush_seq already_shutdown c) ≡ already_shutdown
    → flush_result t (finish handled c) ≡ already_shutdown
unfolding flush_result finish record_pass
finish-told t handled c h = ground (arith, h)

pub finish-Finishes :
    (handled : ℕ) (c : WorkerCore) → IsAnswered handled c → Finishes handled (finish handled c)
unfolding finish flush_ready record_pass
finish-Finishes handled c a =
    let inv =
      record_pass-IsAnswered handled c.flush_seq already_shutdown c a a.issued (omega arith) in
    record {
      finished = refl;
      recorded = record {
        ascending = inv.ascending;
        known = inv.known;
        few = inv.few;
        issued = inv.issued;
        no_wrap = inv.no_wrap;
      };
      ready = λ t h. ground (arith, h);
      refused = λ t new old near. finish-told t handled c (
          flush_result-record_pass handled c.flush_seq already_shutdown c a a.issued (omega arith) t
            new old near);
    }

caught-board :
    (threw : Bool) (p : Shared) → board (close_admission (caught threw p)).core ≡ board p.core
unfolding caught close_admission
caught-board threw p = ground arith

-- However the loop ended, no token is left without a record.
pub leave-Finishes :
    (threw : Bool) (handled : ℕ) (p : Shared)
    → IsAnswered handled p.core
    → Finishes handled (leave threw handled p).core
unfolding leave
leave-Finishes threw handled p a =
    let left = close_admission (caught threw p) in
    finish-Finishes handled left.core (
      Follows-IsAnswered handled p.core left.core
        (board-Follows p.core left.core (caught-board threw p)) a)
