-- ===== src/Redaction.antt =====
-- logcenter/redaction.go: sensitive keys and texts are masked before an event leaves the client.
mod Defs
mod Values
pub mod Masked
pub mod Fragments
pub mod Secrecy
pub use Defs.{Redactor}
unfoldable pub use Defs.{
  redacted_value, default_sensitive_key_fragments, to_lower, normalize_fragments, new_redactor,
  is_sensitive_key, any_contained, redact_match, replace_all, redact_string,
}
unfoldable pub use Values.{
  redact_value, redact_entries, redact_fields, redact_named_value, redact_event,
}
