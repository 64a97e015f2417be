-- ===== src/Tamper.antt =====
-- logcenter/tamper.go: a chain of hashes over the events, kept in their metadata.
mod Defs
mod State
pub mod Chain
pub mod Saved
pub use Defs.{TamperEvidence}
unfoldable pub use Defs.{matches, hash_evidence, hash_event_for_evidence, with_evidence}
pub use Defs.{TamperEvidenceState}
pub use State.{SaveFaults, state_of}
unfoldable pub use State.{marshal_state, load_state, save_state, new_tamper_evidence, apply}
