-- ===== src/Session.antt =====
-- The session of src/session_manager.cpp and src/internal/session_manager.hpp.
--
-- Every method holds the session's mutex, so a method is one step on the state. The id that
-- `ids_->uuid4()` and the time that `clock_->now_utc_millis()` return are arguments. A difference of
-- two times is an integer: the code relies on it to fit an int64_t.
pub mod Laws
use player_trace_sdk.Base.{
  ℕ, Bool, true, false, ◌&&◌, List, [], Option, none, some, ◌==◌, if◌then◌else◌, bytes_eq,
}
use player_trace_sdk.Base.Int.{ℤ, pos, ◌-ℤ◌}
use player_trace_sdk.Base.Words.{add64}
use player_trace_sdk.Types.{Bytes}

-- SessionManager without its generators; SessionManager::Snapshot has the same fields.
pub record SessionManager : Type 0 where
  pub active : Bool
  pub session_id : Bytes
  pub player_id : Bytes
  pub sequence : ℕ
  pub started_ms : ℤ

abbrev pub init : SessionManager
init = record { active = false; session_id = []; player_id = []; sequence = 0; started_ms = pos 0 }

unfoldable pub begin : Bytes → ℤ → Bytes → SessionManager → SessionManager
begin id now player_id s = record {
  active = true;
  session_id = id;
  player_id = player_id;
  sequence = 0;
  started_ms = now;
}

-- The duration, if a session was active, and the session afterwards.
unfoldable pub end : ℤ → SessionManager → Option ℤ × SessionManager
end now s =
    if s.active then (some (now -ℤ s.started_ms), record s { active = false }) else (none, s)

unfoldable pub peek_duration : ℤ → SessionManager → Option ℤ
peek_duration now s = if s.active then some (now -ℤ s.started_ms) else none

-- What `next` writes to its three outputs.
pub record Assigned : Type 0 where
  pub session_id : Bytes
  pub player_id : Bytes
  pub sequence : ℕ

unfoldable pub next : SessionManager → Option Assigned × SessionManager
next s =
    if s.active
    then (
      some (record { session_id = s.session_id; player_id = s.player_id; sequence = s.sequence }),
      record s { sequence = add64 s.sequence 1 },
    )
    else (none, s)

abbrev pub Snapshot : Type 0
Snapshot = SessionManager

unfoldable pub save : SessionManager → Snapshot
save s = record {
  active = s.active;
  session_id = s.session_id;
  player_id = s.player_id;
  sequence = s.sequence;
  started_ms = s.started_ms;
}

unfoldable pub restore : Snapshot → SessionManager → SessionManager
restore snapshot s = record {
  active = snapshot.active;
  session_id = snapshot.session_id;
  player_id = snapshot.player_id;
  sequence = snapshot.sequence;
  started_ms = snapshot.started_ms;
}

unfoldable pub deactivate : SessionManager → SessionManager
deactivate s = record s { active = false }

unfoldable pub rollback : Bytes → ℕ → SessionManager → SessionManager
rollback session_id sequence s =
    if s.active && bytes_eq s.session_id session_id && (s.sequence == add64 sequence 1)
    then record s { sequence = sequence }
    else s
