-- ===== src/Queue.antt =====
-- The bounded queue of src/event_queue.cpp and src/internal/event_queue.hpp.
--
-- Every method holds the queue's mutex, so a method is one step on the state. Waiting is not a step:
-- `pop_wait` is the method from the moment its wait ends, whether by `wakes` or by the timeout.
pub mod Laws
pub mod History
use player_trace_sdk.Base.{
  ℕ, zero, suc, ◌+◌, ◌-◌, ◌≤◌, Bool, true, false, ◌||◌, List, [], ◌∷◌, ◌++◌, length, ltb, leb,
  if◌then◌else◌,
}
use player_trace_sdk.Base.Words.{u64_max}
use player_trace_sdk.Types.{QueuedEvent}

pub record EventQueue : Type 0 where
  pub queue : List QueuedEvent
  pub capacity : ℕ
  pub batch_threshold : ℕ
  pub kicked : Bool

unfoldable pub init : ℕ → ℕ → EventQueue
init capacity batch_threshold = record {
  queue = [];
  capacity = capacity;
  batch_threshold = batch_threshold;
  kicked = false;
}

unfoldable pub size : EventQueue → ℕ
size q = length q.queue

unfoldable pub full : EventQueue → Bool
full q = leb q.capacity (length q.queue)

unfoldable pub has_room_for : ℕ → EventQueue → Bool
has_room_for count q =
    let used = if ltb (length q.queue) q.capacity then length q.queue else q.capacity in
    leb count (q.capacity - used)

-- The answer, and the queue afterwards.
unfoldable pub try_push : QueuedEvent → EventQueue → Bool × EventQueue
try_push event q =
    if leb q.capacity (length q.queue)
    then (false, q)
    else (true, record q { queue = q.queue ++ event ∷ [] })

abbrev front_or_max : List QueuedEvent → ℕ
front_or_max [] = u64_max
front_or_max (e ∷ es) = e.ordinal

unfoldable pub front_ordinal : EventQueue → ℕ
front_ordinal q = front_or_max q.queue

-- The predicate of the wait.
unfoldable pub wakes : EventQueue → Bool
wakes q = leb q.batch_threshold (length q.queue) || q.kicked

-- The loop that moves up to `max` events: those moved and those left.
unfoldable pub move_out : ℕ → List QueuedEvent → List QueuedEvent × List QueuedEvent
move_out zero es = ([], es)
move_out (suc max) [] = ([], [])
move_out (suc max) (e ∷ es) = let (moved, left) = move_out max es in (e ∷ moved, left)

unfoldable pub pop_wait : ℕ → EventQueue → List QueuedEvent × EventQueue
unfolding move_out
pop_wait max q =
    let (moved, left) = move_out max q.queue in (moved, record q { queue = left; kicked = false })

unfoldable pub kick : EventQueue → EventQueue
kick q = record q { kicked = true }

unfoldable pub clear : EventQueue → ℕ × EventQueue
clear q = (length q.queue, record q { queue = [] })
