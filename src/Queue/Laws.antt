-- ===== src/Queue/Laws.antt =====
-- Bounds, order and reservations of the queue (src/event_queue.cpp).
use player_trace_sdk.Base.{
  ℕ, zero, suc, ◌+◌, ◌≤◌, ◌<◌, ◌≡◌, refl, Bool, true, false, List, [], ◌∷◌, ◌++◌, length, take,
  drop, length-append, arith, if◌then◌else◌, append_assoc, append-nil, ◌↔◌,
}
use player_trace_sdk.Types.{QueuedEvent}
use player_trace_sdk.Queue.{EventQueue, full, has_room_for, try_push, move_out}

abbrev pub IsBounded : EventQueue → Type 0
IsBounded q = length q.queue ≤ q.capacity

-- A push is refused exactly when `full` says so, and then changes nothing; an accepted event goes to
-- the end.
pub try_push_lem :
    (e : QueuedEvent) (q : EventQueue)
    → try_push e q ≡ (if full q then (false, q) else (true, record q { queue = q.queue ++ e ∷ [] }))
unfolding try_push full
try_push_lem e q = refl

pub move_out-take-drop :
    (max : ℕ) (es : List QueuedEvent) → move_out max es ≡ (take max es, drop max es)
unfolding move_out
move_out-take-drop zero es = refl
move_out-take-drop (suc max) [] = refl
move_out-take-drop (suc max) (e ∷ es) = ground (arith, move_out-take-drop max es)

-- Pushes in turn, for as long as they are accepted.
abbrev pub push_all : List QueuedEvent → EventQueue → Bool × EventQueue
push_all [] q = (true, q)
push_all (e ∷ es) q =
    let next = try_push e q in
    let rest = push_all es next.1 in if next.0 then rest else (false, next.1)

push_all-fits :
    (es : List QueuedEvent) (q : EventQueue)
    → length q.queue + length es ≤ q.capacity
    → push_all es q ≡ (true, record q { queue = q.queue ++ es })
unfolding try_push
push_all-fits [] q h = ground (arith, append-nil q.queue)
push_all-fits (e ∷ es) q h = ground (
  arith,
  length-append q.queue (e ∷ []),
  append_assoc q.queue (e ∷ []) es,
  push_all-fits es (record q { queue = q.queue ++ e ∷ [] }),
)

-- A reservation holds: when has_room_for(count) answers true, any events, at least one and at most
-- `count` of them, are all accepted, stand at the end in their order, and keep the bound.
pub push_all-has_room_for :
    (count : ℕ) (es : List QueuedEvent) (q : EventQueue)
    → has_room_for count q ≡ true
    → 0 < length es
    → length es ≤ count
    → (push_all es q ≡ (true, record q { queue = q.queue ++ es }))
      × (length (q.queue ++ es) ≤ q.capacity)
unfolding has_room_for
push_all-has_room_for count es q h p le =
    let room : length q.queue + length es ≤ q.capacity = ground arith in
    (push_all-fits es q room, ground (arith, length-append q.queue es))

-- `full` and `has_room_for(1)` are opposite answers.
pub full-has_room_for : (q : EventQueue) → (full q ≡ false) ↔ (has_room_for 1 q ≡ true)
unfolding full has_room_for
full-has_room_for q = (λ h. ground arith, λ h. ground arith)
