-- ===== src/Logging/Valid.antt =====
-- When the events of the logging functions pass the checks of their type.
use logcenter_sdk_go.Base.{
  String, true, false, Option, none, ◌≡◌, ◌↔◌, ◌⊎◌, inl, inr, refl, arith, trim_space, sym, ◌∙◌,
  ◌==◌, Bool-cases, eq_iff,
}
use logcenter_sdk_go.Types.{Changes, done, change, Fields, ErrorOptions, AuditEvent}
use logcenter_sdk_go.Context.{RequestContext, default_to}
use logcenter_sdk_go.Platform.{Platform}
use logcenter_sdk_go.Validation.{validate_by_type, validate_kind, kind_of, allowed_levels, is_null}
use logcenter_sdk_go.Validation.Rules.{Present, OneOf, HasJson, IsChangeList}
use logcenter_sdk_go.Validation.Kinds.{log_iff, error_iff, audit_iff}
use logcenter_sdk_go.Logging.Defs.{
  log_event, error_event, audit_event_to_event, message_of, changes_of,
}

-- A log event passes the checks of its type just if the level is one of the five levels and the message
-- is not blank.
pub log_event_iff :
    (platform : Platform) (request : RequestContext) (level message : String) (metadata : Fields)
    → (validate_by_type platform (log_event request level message metadata) ≡ none)
      ↔ (Present level × OneOf allowed_levels level × Present message)
unfolding validate_by_type validate_kind kind_of log_event
log_event_iff platform request level message metadata =
    log_iff platform (log_event request level message metadata)

severity-Present :
    (severity : String)
    → Present (default_to severity "error") ↔ ((severity ≡ "") ⊎ Present severity)
unfolding trim_space
severity-Present severity = elim (Bool-cases (severity == "")) [
  | inl e ↦ rw e (λ h. inl ((eq_iff severity "").0 e), λ h. refl)
  | inr e ↦ rw e (
    λ h. inr h,
    λ h. elim h [
      | inl empty ↦ let n : true ≡ false = sym ((eq_iff severity "").1 empty) ∙ e in ground arith
      | inr present ↦ present
    ],
  )
]

-- An error event passes the checks of its type just if it has a code or a message, which is the text of
-- the error where there is one, and its severity is left out or is not blank.
pub error_event_iff :
    (platform : Platform) (request : RequestContext) (err : Option String) (options : ErrorOptions)
    → (validate_by_type platform (error_event request err options) ≡ none) ↔ (
        (Present options.code ⊎ Present (message_of err options.message))
        × ((options.severity ≡ "") ⊎ Present options.severity))
unfolding validate_by_type validate_kind kind_of error_event
error_event_iff platform request err options =
    let (to, from) = error_iff platform (error_event request err options) in
    let (out, back) = severity-Present options.severity in
    (λ h. let (p, q) = to h in (p, out q), λ r. from (r.0, back r.1))

changes_of-IsChangeList : (cs : Changes) → IsChangeList (changes_of cs)
changes_of-IsChangeList done = IsChangeList.no_change
changes_of-IsChangeList (change field old new cs) = IsChangeList.of_changes

-- An audit event passes the checks of its type just if it names its action and its entity, it has
-- changes, an old or a new value, and each of these is nil or has a JSON text. A list of no changes
-- counts as none.
pub audit_event_iff :
    (platform : Platform) (request : RequestContext) (audit : AuditEvent)
    → (validate_by_type platform (audit_event_to_event request audit) ≡ none) ↔ (
        Present audit.action
        × Present audit.entity_type
        × Present audit.entity_id
        × ((is_null (changes_of audit.changes) ≡ false)
            ⊎ (is_null audit.old_value ≡ false)
            ⊎ (is_null audit.new_value ≡ false))
        × HasJson (changes_of audit.changes)
        × HasJson audit.old_value
        × HasJson audit.new_value)
unfolding validate_by_type validate_kind kind_of audit_event_to_event
audit_event_iff platform request audit =
    let (to, from) = audit_iff platform (audit_event_to_event request audit) in
    (
      λ h. let valid = to h in (valid.0, valid.1, valid.2, valid.3, valid.4.1, valid.5, valid.6),
      λ r. from (r.0, r.1, r.2, r.3, (changes_of-IsChangeList audit.changes, r.4), r.5, r.6),
    )
