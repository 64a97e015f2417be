-- ===== src/Queue.antt =====
-- logcenter/queue.go: the bounded buffer of events, and what it gives up when it is full.
-- `mu` is held for the whole of each method, so each is one step.
mod Defs
mod Search
pub mod Policy
pub mod Order
pub use Defs.{EventQueue, QueuePushResult}
unfoldable pub use Defs.{
  new_event_queue, is_log_at, is_droppable, index_of_droppable, push, drain_count, drain, len,
}
