-- ===== src/Config.antt =====
-- logcenter/config.go.
mod Defs
pub mod Normal
pub use Defs.{HttpClient, Hooks, TamperEvidenceConfig, Config}
unfoldable pub use Defs.{
  version, max_json_value_bytes, default_max_event_bytes, is_enabled, default_source, normalized,
}
