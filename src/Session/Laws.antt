-- ===== src/Session/Laws.antt =====
-- Sequence numbers and transitions of src/session_manager.cpp.
use player_trace_sdk.Base.Int.{ℤ}
use player_trace_sdk.Base.{
  ℕ, zero, suc, ◌+◌, ◌<◌, ◌≡◌, ◌≢◌, refl, true, List, [], ◌∷◌, none, some, arith, bytes_eq_refl,
  bytes_eq_iff,
}
use player_trace_sdk.Base.Words.{u64_mod}
use player_trace_sdk.Types.{Bytes}
use player_trace_sdk.Session.{SessionManager, Assigned, next, rollback, begin}

-- Giving back the number that `next` has just assigned restores the session exactly, also where the
-- counter wraps around.
pub rollback-next :
    (s : SessionManager) (a : Assigned)
    → s.sequence < u64_mod
    → (next s).0 ≡ some a
    → rollback a.session_id a.sequence (next s).1 ≡ s
unfolding next rollback
rollback-next s a w h = ground (arith, bytes_eq_refl s.session_id)

-- A number that was assigned in another session is never given back.
pub rollback_other :
    (s : SessionManager) (id : Bytes) (n : ℕ) → s.session_id ≢ id → rollback id n s ≡ s
unfolding rollback
rollback_other s id n other = ground (arith, (bytes_eq_iff s.session_id id).0)

-- `count` assignments in turn: their sequence numbers.
abbrev pub assign : ℕ → SessionManager → List ℕ
assign zero s = []
assign (suc count) s =
    let rest = assign count (next s).1 in elim (next s).0 [ none ↦ [] | some a ↦ a.sequence ∷ rest ]

abbrev pub count_from : ℕ → ℕ → List ℕ
count_from start zero = []
count_from start (suc count) = start ∷ count_from (start + 1) count

assign-count_from :
    (count : ℕ) (s : SessionManager)
    → s.active ≡ true
    → s.sequence + count < u64_mod
    → assign count s ≡ count_from s.sequence count
unfolding next
assign-count_from zero s a h = refl
assign-count_from (suc count) s a h =
    ground (arith, assign-count_from count (record s { sequence = s.sequence + 1 }) a)

-- The numbers assigned after `begin` are 0, 1, 2, … without a gap, whatever session stood before, up
-- to 2^64 of them.
pub assign-begin :
    (id player : Bytes) (now : ℤ) (s : SessionManager) (count : ℕ)
    → count < u64_mod
    → assign count (begin id now player s) ≡ count_from 0 count
unfolding begin
assign-begin id player now s count h =
    assign-count_from count
      (record {
        active = true;
        session_id = id;
        player_id = player;
        sequence = 0;
        started_ms = now;
      })
      refl (omega arith)
