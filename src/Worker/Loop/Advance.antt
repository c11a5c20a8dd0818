-- ===== src/Worker/Loop/Advance.antt =====
-- What a step of the worker may do to the events and to the tokens (src/worker.cpp).
use player_trace_sdk.Base.{
  ℕ, ◌+◌, ◌≤◌, ◌<◌, ◌≡◌, refl, ap, ◌∙◌, Bool, true, length, inl, inr, arith, Bool-cases,
}
use player_trace_sdk.Base.Words.{u64_mod}
use player_trace_sdk.Types.{is_ok}
use player_trace_sdk.Pipeline.{reset_outstanding, report_error}
use player_trace_sdk.Worker.Core.{WorkerCore, Shared, note_error}
use player_trace_sdk.Worker.Tokens.{Results}
use player_trace_sdk.Worker.Processing.{purge_store}
use player_trace_sdk.Worker.Processing.Covered.{is_ok-ok, is_ok-failed}
use player_trace_sdk.Store.Interface.{EventStore}

-- The tokens submitted, the barrier and the request to stop only grow, and the record stays. (The
-- pruning by wait_flush changes nothing of a record that has at most 256 entries.)
pub record Follows (c c' : WorkerCore) : Type 0 where
  pub results : c'.pass_results ≡ c.pass_results
  pub submitted : c.flush_seq ≤ c'.flush_seq
  pub covered : c.flush_barrier ≤ c'.flush_barrier
  pub stopped : c.stop ≡ true → c'.stop ≡ true
  pub no_wrap : c.flush_seq + 2 < u64_mod → c'.flush_seq + 2 < u64_mod

-- What the worker's own steps leave.
abbrev pub board : WorkerCore → Results × ℕ × ℕ × Bool
board c = (c.pass_results, c.flush_seq, c.flush_barrier, c.stop)

pub board-Follows : (c c' : WorkerCore) → board c' ≡ board c → Follows c c'
board-Follows c c' e =
    let n = ap (λ b. b.1) e in
    let barrier = ap (λ b. b.2) e in
    record {
      results = ap (λ b. b.0) e;
      submitted = omega (arith, n);
      covered = omega (arith, barrier);
      stopped = λ h. ap (λ b. b.3) e ∙ h;
      no_wrap = λ h. omega (arith, n, h);
    }

pub Follows-trans : (a b c : WorkerCore) → Follows a b → Follows b c → Follows a c
Follows-trans a b c f g =
    let s1 = f.submitted in
    let s2 = g.submitted in
    let b1 = f.covered in
    let b2 = g.covered in
    record {
      results = g.results ∙ f.results;
      submitted = omega arith;
      covered = omega arith;
      stopped = λ h. g.stopped (f.stopped h);
      no_wrap = λ h. g.no_wrap (f.no_wrap h);
    }

module _ {S : Type 0} (store : EventStore S) where
  open store use {pending, purge_and_clear_revocation, purge_ok, purge_failed}

  abbrev pub queued : Shared × S → ℕ
  queued (p, s) = length p.pipeline.queue.queue

  -- Held for retry, or stored.
  abbrev pub held : Shared × S → ℕ
  held (p, s) = length p.core.retry + length (pending s)

  -- The queue does not grow, and `n` events at most come to those that are held or stored.
  pub record Advances (n : ℕ) (x x' : Shared × S) : Type 0 where
    pub queue : queued x' ≤ queued x
    pub more : held x' ≤ held x + n
    pub follows : Follows x.0.core x'.0.core

  pub Advances-trans :
      (n m : ℕ) (x y z : Shared × S) → Advances n x y → Advances m y z → Advances (n + m) x z
  Advances-trans n m x y z f g =
      let q1 = f.queue in
      let q2 = g.queue in
      let h1 = f.more in
      let h2 = g.more in
      record {
        queue = omega arith;
        more = omega arith;
        follows = Follows-trans x.0.core y.0.core z.0.core f.follows g.follows;
      }

  pub Advances-more : (n m : ℕ) (x y : Shared × S) → n ≤ m → Advances n x y → Advances m x y
  Advances-more n m x y fewer f =
      let h = f.more in
      record { queue = f.queue; more = omega (arith, h, fewer); follows = f.follows }

  -- The same, where the second step adds nothing.
  pub Advances-then :
      (n : ℕ) (x y z : Shared × S) → Advances n x y → Advances 0 y z → Advances n x z
  Advances-then n x y z f g =
      let a = Advances-trans n 0 x y z f g in
      let h = a.more in record { queue = a.queue; more = omega arith; follows = a.follows }

  -- A step of which the queue, the retry buffer, the record and the rows are known.
  pub Advances-known :
      (n : ℕ) (x x' : Shared × S)
      → x'.0.pipeline.queue.queue ≡ x.0.pipeline.queue.queue
      → held x' ≤ held x + n
      → board x'.0.core ≡ board x.0.core
      → Advances n x x'
  Advances-known n x x' q h b = record {
    queue = let e = ap length q in omega (arith, e);
    more = h;
    follows = board-Follows x.0.core x'.0.core b;
  }

  pub Advances-refl : (x : Shared × S) → Advances 0 x x
  Advances-refl x = Advances-known 0 x x refl (omega arith) refl

  purge_store-frame :
      (p : Shared) (s : S)
      → ((purge_store store (p, s)).0.pipeline.queue.queue ≡ p.pipeline.queue.queue)
        × (board (purge_store store (p, s)).0.core ≡ board p.core)
        × ((purge_store store (p, s)).0.core.retry ≡ p.core.retry)
  unfolding purge_store note_error reset_outstanding report_error
  purge_store-frame p s = (ground arith, ground arith, ground arith)

  pub purge_store-Advances : (p : Shared) (s : S) → Advances 0 (p, s) (purge_store store (p, s))
  unfolding purge_store note_error reset_outstanding report_error
  purge_store-Advances p s =
      let (q, b, r) = purge_store-frame p s in
      Advances-known 0 (p, s) (purge_store store (p, s)) q
        (elim (Bool-cases (is_ok (purge_and_clear_revocation s).0)) [
          | inr failed ↦
              let e =
                ap length
                  (purge_failed s (is_ok-failed (purge_and_clear_revocation s).0 failed)).1 in
              ground (arith, e)
          | inl done ↦
              let e = ap length (purge_ok s (is_ok-ok (purge_and_clear_revocation s).0 done)).1 in
              ground (arith, e)
        ])
        b
