-- ===== src/Stats.antt =====
-- logcenter/stats.go: the counters of a client. They are 64 bits wide and wrap around.
use logcenter_sdk_go.Base.{ℕ, String, Bool, false, Option, none, some, not, ◌==◌}
use logcenter_sdk_go.Errors.{Error, error_text}

pub record Counters : Type 0 where
  pub queued : ℕ
  pub truncated : ℕ
  pub dropped : ℕ
  pub sent_events : ℕ
  pub sent_batches : ℕ
  pub failed_events : ℕ
  pub failed_batches : ℕ
  pub accepted : ℕ
  pub duplicated : ℕ
  pub rejected : ℕ
  pub last_error : String

pub record Stats : Type 0 where
  pub queued : ℕ
  pub truncated : ℕ
  pub dropped : ℕ
  pub sent_events : ℕ
  pub sent_batches : ℕ
  pub failed_events : ℕ
  pub failed_batches : ℕ
  pub accepted : ℕ
  pub duplicated : ℕ
  pub rejected : ℕ
  pub last_error : String

abbrev pub zero_counters : Counters
zero_counters = record {
  queued = 0;
  truncated = 0;
  dropped = 0;
  sent_events = 0;
  sent_batches = 0;
  failed_events = 0;
  failed_batches = 0;
  accepted = 0;
  duplicated = 0;
  rejected = 0;
  last_error = "";
}

unfoldable pub snapshot : Counters → Stats
snapshot counters = record {
  queued = counters.queued;
  truncated = counters.truncated;
  dropped = counters.dropped;
  sent_events = counters.sent_events;
  sent_batches = counters.sent_batches;
  failed_events = counters.failed_events;
  failed_batches = counters.failed_batches;
  accepted = counters.accepted;
  duplicated = counters.duplicated;
  rejected = counters.rejected;
  last_error = counters.last_error;
}

-- The new counters, the text of the error and whether it is another than the last one.
unfoldable pub set_error : Counters → Option Error → Counters × String × Bool
set_error counters none = (counters, "", false)
set_error counters (some err) =
    let next = error_text err in
    (record counters { last_error = next }, next, not (counters.last_error == next))
