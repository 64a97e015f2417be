-- ===== src/Client.antt =====
-- logcenter/client.go: the client, which prepares events, buffers them and sends them in batches. Each
-- function of the model takes the client and gives the client after it; what the client meets outside
-- is the argument `World`.
mod Same
mod Defs
mod Enqueue
mod Send
pub mod Run
pub mod Closing
pub mod Quiet
pub mod Accounted
pub mod Attempts
pub mod Draining
pub mod Delivered
mod Rounds
pub mod Resending
mod Sending
pub mod Finishing
pub mod Persisted
pub use Defs.{Client, World, Reply, HookCall}
unfoldable pub use Defs.{new_client, event_truncated, add_truncated, call_hook}
unfoldable pub use Same.{deep_equal, same_value}
unfoldable pub use Enqueue.{
  with_defaults, redacted_event, apply_tamper_evidence, checked, count_truncated, after_limit,
  prepare_event, enqueue, send_event,
}
unfoldable pub use Send.{
  attempts, batch_request, send_batch_internal, drain_all, send_round, send_outbox, send_queued,
  send_event_sync,
}
