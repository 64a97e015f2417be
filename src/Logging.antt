-- ===== src/Logging.antt =====
-- logcenter/logging.go: the events of the logging functions.
mod Defs
pub mod Valid
unfoldable pub use Defs.{
  log_event, error_event, audit_event_to_event, log, debug, info, warn, error_log, fatal,
  record_error, audit, audit_sync,
}
pub use Defs.{message_of, changes_of}
