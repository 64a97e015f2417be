-- ===== src/Outbox.antt =====
-- logcenter/outbox.go: a file that holds one event a line, until the server has taken it.
mod Defs
pub mod Pending
pub mod Peeking
pub mod Removal
pub mod Faultless
pub use Defs.{DurableOutbox, OutboxFaults, lines_of}
unfoldable pub use Defs.{new_durable_outbox, append, peek, remove, id_set, event_ids, copy_events}
