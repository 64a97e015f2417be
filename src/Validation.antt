-- ===== src/Validation.antt =====
-- logcenter/validation.go: the rules that an event meets before it is queued.
mod Fields
mod Defs
pub mod Rules
mod Parts
pub mod Kinds
pub mod Decides
pub use Fields.{allowed_levels, is_null, no_fields}
unfoldable pub use Fields.{
  validate_classification, validate_retention_hint, validate_json_fields, validate_json_value,
  required_event_field,
}
unfoldable pub use Defs.{
  validate_event, validate_by_type, validate_kind, kind_of, validate_log_event,
  parse_required_event_time,
}
