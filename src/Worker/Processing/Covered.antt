-- ===== src/Worker/Processing/Covered.antt =====
-- process_incoming of src/worker.cpp and the count against the durable cap.
use player_trace_sdk.Base.{
  ℕ, ◌+◌, ◌≤◌, ◌≡◌, ◌≢◌, inl, inr, true, false, List, [], ◌∷◌, length, length-append, arith,
  Bool-cases,
}
use player_trace_sdk.Types.{Status, ok, is_ok, QueuedEvent}
use player_trace_sdk.Validator.Keys.{is_empty}
use player_trace_sdk.Worker.Core.{WorkerCore, Shared, hold_for_retry}
use player_trace_sdk.Store.Interface.{EventStore}

pub is_ok-ok : (s : Status) → is_ok s ≡ true → s ≡ ok
is_ok-ok s h = ground arith

pub is_ok-failed : (s : Status) → is_ok s ≡ false → s ≢ ok
is_ok-failed s h e = ground arith

is_empty-length : (es : List QueuedEvent) {n : ℕ} → is_empty es ≡ true → n ≡ n + length es
is_empty-length [] h = omega arith
is_empty-length (e ∷ es) h = absurd (ground arith)

pub hold_for_retry-length :
    (batch : List QueuedEvent) (c : WorkerCore)
    → length (hold_for_retry batch c).retry ≡ length batch + length c.retry
unfolding hold_for_retry
hold_for_retry-length [] c = omega arith
hold_for_retry-length (e ∷ es) c = elim (Bool-cases (is_empty c.retry)) [
  | inl h ↦ rw h (is_empty-length c.retry h)
  | inr h ↦ rw h (length-append (e ∷ es) c.retry)
]

module _ {S : Type 0} (store : EventStore S) where
  open store use {
    pending, count, insert, insert_ok, insert_failed, purge_and_clear_revocation, purge_ok,
    purge_failed,
  }

  -- `n` events in hand, and all that are queued, held for retry or stored, are counted.
  abbrev pub IsCovered : ℕ → Shared × S → Type 0
  IsCovered n (p, s) =
      n + length p.pipeline.queue.queue + length p.core.retry + length (pending s)
      ≤ p.pipeline.outstanding
