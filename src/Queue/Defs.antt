-- ===== src/Queue/Defs.antt =====
-- The buffer and its methods.
use logcenter_sdk_go.Base.{
  ℕ, ℤ, pos, suc, String, List, [], ◌∷◌, ◌++◌, Bool, true, false, ◌&&◌, ◌||◌, Option, none, some,
  ◌==◌, if◌then◌else◌, ltb, leb_ℤ, ltb_ℤ, to_nat, length, set, take, drop, get_elem?,
}
use logcenter_sdk_go.Types.{Event, event_type_log_event, level_debug, level_info}

pub record EventQueue : Type 0 where
  pub events : List Event
  pub capacity : ℕ

pub record QueuePushResult : Type 0 where
  pub queued : Bool
  pub dropped : Option Event
  pub drop_reason : String

-- `make` panics at a negative capacity; a normalised `Config` has a positive one.
unfoldable pub new_event_queue : ℕ → EventQueue
new_event_queue capacity = record { events = []; capacity = capacity }

-- The test of `indexOfDroppable`.
abbrev pub is_log_at : String → Event → Bool
is_log_at level event = event.event_type == event_type_log_event && event.level == level

-- `none` is the index -1.
unfoldable pub index_of_droppable_from : ℕ → String → List Event → Option ℕ
index_of_droppable_from i level [] = none
index_of_droppable_from i level (event ∷ events) =
    if is_log_at level event then some i else index_of_droppable_from (suc i) level events

unfoldable pub index_of_droppable : EventQueue → String → Option ℕ
unfolding index_of_droppable_from
index_of_droppable queue level = index_of_droppable_from 0 level queue.events

unfoldable pub is_droppable : Event → Bool
is_droppable event =
    event.event_type == event_type_log_event
    && (event.level == level_debug || event.level == level_info)

unfoldable pub buffer_full : Event → QueuePushResult
buffer_full event = record { queued = false; dropped = some event; drop_reason = "buffer_full" }

-- The event at the index makes room for the new one.
unfoldable pub replace_at : EventQueue → ℕ → Event → EventQueue × QueuePushResult
replace_at queue index event = (
  record queue { events = set queue.events index event },
  record { queued = true; dropped = get_elem? queue.events index; drop_reason = "buffer_replaced" },
)

unfoldable pub push_full : EventQueue → Event → EventQueue × QueuePushResult
unfolding index_of_droppable buffer_full replace_at
push_full queue event = elim (index_of_droppable queue level_debug) [
  | some index ↦ replace_at queue index event
  | none ↦ elim (index_of_droppable queue level_info) [
    | some index ↦ replace_at queue index event
    | none ↦ (queue, buffer_full event)
  ]
]

unfoldable pub push : EventQueue → Event → EventQueue × QueuePushResult
unfolding push_full is_droppable
push queue event =
    if ltb (length queue.events) queue.capacity
    then (
      record queue { events = queue.events ++ event ∷ [] },
      record { queued = true; dropped = none; drop_reason = "" },
    )
    else if is_droppable event
    then (queue, buffer_full event)
    else push_full queue event

-- How many events `drain(max)` takes from a queue of n.
unfoldable pub drain_count : ℕ → ℤ → ℕ
drain_count n max = if leb_ℤ max (pos 0) || ltb_ℤ (pos n) max then n else to_nat max

unfoldable pub drain : EventQueue → ℤ → EventQueue × List Event
unfolding drain_count
drain queue max =
    let count = drain_count (length queue.events) max in
    (record queue { events = drop count queue.events }, take count queue.events)

unfoldable pub len : EventQueue → ℕ
len queue = length queue.events
