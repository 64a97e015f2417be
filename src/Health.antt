-- ===== src/Health.antt =====
-- logcenter/health.go: what the counters say of a client.
pub mod Report
use logcenter_sdk_go.Base.{
  ℕ, ℤ, pos, String, Bool, true, false, ◌||◌, not, ◌==◌, if◌then◌else◌, ltb, ltb_ℤ, ◌≡◌, ◌↔◌, ◌≢◌,
  ◌⊎◌, refl, arith, eq_iff, inl, inr,
}
use logcenter_sdk_go.Stats.{Stats}

abbrev pub health_status_ok : String
health_status_ok = "ok"

abbrev pub health_status_degraded : String
health_status_degraded = "degraded"

abbrev pub health_status_disabled : String
health_status_disabled = "disabled"

pub record HealthReport : Type 0 where
  pub status : String
  pub enabled : Bool
  pub sdk_version : String
  pub runtime : String
  pub service : String
  pub environment : String
  pub queue_length : ℕ
  pub checked_at : String
  pub stats : Stats

pub record HealthHandlerOptions : Type 0 where
  pub degraded_status_code : ℤ
  pub disabled_status_code : ℤ

-- The condition of `healthStatus`.
abbrev has_trouble : Stats → Bool
has_trouble stats =
    ltb 0 stats.dropped
    || ltb 0 stats.failed_events
    || ltb 0 stats.failed_batches
    || ltb 0 stats.rejected
    || not (stats.last_error == "")

unfoldable pub health_status : Bool → Stats → String
health_status enabled stats =
    if not enabled
    then health_status_disabled
    else if has_trouble stats
    then health_status_degraded
    else health_status_ok

unfoldable pub health_http_status : String → HealthHandlerOptions → ℤ
health_http_status status options =
    if status == health_status_degraded
    then if ltb_ℤ (pos 0) options.degraded_status_code
      then options.degraded_status_code
      else pos 200
    else if status == health_status_disabled
    then if ltb_ℤ (pos 0) options.disabled_status_code
      then options.disabled_status_code
      else pos 200
    else pos 200

degraded≢ok : health_status_degraded ≢ health_status_ok
degraded≢ok h = let e = (eq_iff health_status_degraded health_status_ok).1 h in cc

has_trouble-false_iff :
    (stats : Stats)
    → (has_trouble stats ≡ false) ↔ (
        (stats.dropped ≡ 0)
        × (stats.failed_events ≡ 0)
        × (stats.failed_batches ≡ 0)
        × (stats.rejected ≡ 0)
        × (stats.last_error ≡ ""))
has_trouble-false_iff stats = ground (arith, eq_iff stats.last_error "")

degraded_or_ok :
    (b : Bool)
    → (((if b then health_status_degraded else health_status_ok) ≡ health_status_ok) ↔ (b ≡ false))
      × (((if b then health_status_degraded else health_status_ok) ≡ health_status_ok)
          ⊎ ((if b then health_status_degraded else health_status_ok) ≡ health_status_degraded))
degraded_or_ok true = ((λ h. absurd (degraded≢ok h), λ h. cc), inr refl)
degraded_or_ok false = ((λ h. refl, λ h. refl), inl refl)

-- A client that is not disabled reports "ok" exactly when it dropped nothing, nothing failed, nothing
-- was rejected and no error is recorded; otherwise it reports "degraded". A disabled one reports
-- "disabled" whatever its counters are.
pub health_status_lem :
    (stats : Stats)
    → ((health_status true stats ≡ health_status_ok) ↔ (
        (stats.dropped ≡ 0)
        × (stats.failed_events ≡ 0)
        × (stats.failed_batches ≡ 0)
        × (stats.rejected ≡ 0)
        × (stats.last_error ≡ "")))
      × ((health_status true stats ≡ health_status_ok)
          ⊎ (health_status true stats ≡ health_status_degraded))
      × (health_status false stats ≡ health_status_disabled)
unfolding health_status
health_status_lem stats =
    let (one, other) = degraded_or_ok (has_trouble stats) in
    let (to, from) = has_trouble-false_iff stats in
    ((λ h. to (one.0 h), λ h. one.1 (from h)), other, refl)
