-- ===== src/Tests/Values.antt =====
-- Redaction, limits and validation.
use logcenter_sdk_go.Base.{
  ◌≤◌, pos, negsuc, String, len, true, none, some, ◌≡◌, ◌↔◌, refl, contains, trim_space,
}
use logcenter_sdk_go.Types.{Value, str, fields, entry, end}
use logcenter_sdk_go.Json.{marshal_event}
use logcenter_sdk_go.Redaction.{
  redact_event, redact_value, is_sensitive_key, any_contained, to_lower,
}
use logcenter_sdk_go.Redaction.Masked.{IsMaskedEvent, redact_event-IsMaskedEvent}
use logcenter_sdk_go.Redaction.Secrecy.{Agree, AgreeEntries, redact_value-Agree}
use logcenter_sdk_go.Limit.{limit_event, limit_value, truncate_string_bytes}
use logcenter_sdk_go.Limit.Prefix.{cut, truncate_string_bytes-eq-cut}
use logcenter_sdk_go.Limit.Strings.{Fits, limit_value-Fits}
use logcenter_sdk_go.Limit.Sizes.{limit_event_iff}
use logcenter_sdk_go.Validation.{validate_event}
use logcenter_sdk_go.Validation.Rules.{IsValid}
use logcenter_sdk_go.Validation.Decides.{validate_event_iff}
use logcenter_sdk_go.Tests.Data.{platform, redactor, limiter, warn_event}

redact_event-IsMaskedEvent_example :
    IsMaskedEvent platform redactor (redact_event platform redactor warn_event)
redact_event-IsMaskedEvent_example = redact_event-IsMaskedEvent platform redactor warn_event

abbrev first_secret : Value
first_secret = fields (entry "password" (str "one") end)

abbrev second_secret : Value
second_secret = fields (entry "password" (str "two") end)

password_is_sensitive : is_sensitive_key platform redactor "password" ≡ true
unfolding is_sensitive_key any_contained contains to_lower trim_space
password_is_sensitive = refl

redact_value-Agree_example :
    redact_value platform redactor first_secret ≡ redact_value platform redactor second_secret
redact_value-Agree_example =
    redact_value-Agree platform redactor {v = first_secret} {w = second_secret}
      (Agree.fieldss (AgreeEntries.hidden password_is_sensitive AgreeEntries.none_left))

truncate_string_bytes-eq-cut_example :
    (truncate_string_bytes "a long sentence, cut" (pos 18) ≡ cut "a long sentence, cut" 18)
    × (truncate_string_bytes "a long sentence, cut" (pos 0) ≡ "a long sentence, cut")
    × (truncate_string_bytes "a long sentence, cut" (negsuc 17) ≡ "a long sentence, cut")
truncate_string_bytes-eq-cut_example = truncate_string_bytes-eq-cut "a long sentence, cut" 17

limit_value-Fits_example :
    Fits 20 (limit_value limiter (str "a sentence of more than twenty bytes"))
limit_value-Fits_example =
    limit_value-Fits limiter 19 (str "a sentence of more than twenty bytes") refl

limit_event_iff_example : ((limit_event limiter warn_event).1 ≡ none) ↔ (
    (text : String) × (marshal_event (limit_event limiter warn_event).0 ≡ some text)
    × (len text ≤ 400))
limit_event_iff_example = limit_event_iff limiter warn_event 399 refl

validate_event_iff_example :
    (validate_event platform warn_event ≡ none) ↔ IsValid platform warn_event
validate_event_iff_example = validate_event_iff platform warn_event
