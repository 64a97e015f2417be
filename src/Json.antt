-- ===== src/Json.antt =====
-- What `json.Marshal` writes for the values, the events and the batches of logcenter/types.go; `none`
-- is an error.
pub mod Values
mod Events
unfoldable pub use Values.{json_string, marshal, marshal_entries, marshal_items, marshal_changes}
unfoldable pub use Events.{marshal_event, marshal_batch}
pub use Events.{marshal_event-empty}
