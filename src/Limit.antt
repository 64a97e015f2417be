-- ===== src/Limit.antt =====
-- logcenter/limit.go: the limits on the size of strings, values and events.
mod Truncate
pub mod Values
mod Events
pub mod Prefix
pub mod Strings
pub mod Sizes
pub mod Maps
unfoldable pub use Truncate.{truncated_suffix, truncate_string_bytes, valid_string_prefix}
pub use Values.{Limiter}
unfoldable pub use Values.{
  limit_string, limit_value, limit_entries, limit_items, limit_changes, json_size, limit_json_value,
  limit_fields,
}
unfoldable pub use Events.{new_limiter, limit_event, limit_parts}
