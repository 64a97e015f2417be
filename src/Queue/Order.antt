-- ===== src/Queue/Order.antt =====
-- Batches leave the buffer in the order of arrival.
use logcenter_sdk_go.Base.{
  ℕ, ℤ, pos, negsuc, zero, suc, ◌+◌, ◌≤◌, ◌<◌, min, ◌≡◌, ◌++◌, arith, length, length-take,
  length-drop, take-append-drop, ltb_ℤ, to_nat, if◌then◌else◌,
}
use logcenter_sdk_go.Queue.Defs.{EventQueue, drain, drain_count}

-- What a batch takes from the front and what stays are together the old buffer, in its order.
pub drain-append :
    (queue : EventQueue) (max : ℤ)
    → (drain queue max).1 ++ (drain queue max).0.events ≡ queue.events
unfolding drain
drain-append queue max = take-append-drop (drain_count (length queue.events) max) queue.events

drain_count-le : (n : ℕ) (max : ℤ) → drain_count n max ≤ n
unfolding drain_count
drain_count-le n (pos m) = ground arith
drain_count-le n (negsuc m) = ground arith

-- A batch takes `max` events, or all that there are if those are fewer or `max` is not positive, and
-- the rest stays.
pub length-drain :
    (queue : EventQueue) (max : ℤ)
    → (length (drain queue max).1 ≡ (
        if ltb_ℤ (pos 0) max then min (to_nat max) (length queue.events) else length queue.events))
      × (length (drain queue max).1 + length (drain queue max).0.events ≡ length queue.events)
      × ((drain queue max).0.capacity ≡ queue.capacity)
unfolding drain drain_count
length-drain queue (pos m) = ground (
  arith,
  length-take m queue.events,
  length-take (length queue.events) queue.events,
  length-drop m queue.events,
  length-drop (length queue.events) queue.events,
)
length-drain queue (negsuc m) = ground (
  arith,
  length-take (length queue.events) queue.events,
  length-drop (length queue.events) queue.events,
)

-- So a drain of a buffer that holds an event makes it shorter.
pub drain_shrinks :
    (queue : EventQueue) (max : ℤ)
    → 0 < length queue.events
    → length (drain queue max).0.events < length queue.events
drain_shrinks queue (pos zero) h = ground (arith, length-drain queue (pos zero))
drain_shrinks queue (pos (suc m)) h = ground (arith, length-drain queue (pos (suc m)))
drain_shrinks queue (negsuc m) h = ground (arith, length-drain queue (negsuc m))
