-- ===== src/Requests/Within.antt =====
-- When the events of operations and spans pass the checks of their type.
use logcenter_sdk_go.Base.{
  suc, String, List, [], ◌∷◌, none, trim_space, ◌≡◌, ◌↔◌, ◌⊎◌, inl, inr, refl, sym, subst, ap,
}
use logcenter_sdk_go.Platform.{Platform}
use logcenter_sdk_go.Times.{Time, Clock}
use logcenter_sdk_go.Context.{
  RequestContext, Context, request_from_context, default_to, trimmed_or, new_id,
  ensure_request_context,
}
use logcenter_sdk_go.Client.{Client, World}
use logcenter_sdk_go.Validation.{validate_by_type, validate_kind, kind_of, allowed_levels}
use logcenter_sdk_go.Validation.Rules.{Present, OneOf, IsStatus}
use logcenter_sdk_go.Validation.Kinds.{started_iff, span_iff, log_iff}
use logcenter_sdk_go.Requests.Defs.{first_non_empty}
use logcenter_sdk_go.Requests.OperationDefs.{
  OperationStartOptions, OperationEvent, operation_of, operation_event_to_log_event,
  operation_started_event, new_operation, ensured,
}
use logcenter_sdk_go.Requests.SpanDefs.{SpanOption, span_of, span_event, new_span}
use logcenter_sdk_go.Requests.Merge.{first_non_empty-pair, default_to_assoc}
use logcenter_sdk_go.Requests.Present.{
  IsClean, empty-not-Present, default_to_iff, default_to-Present, trimmed_or-Present,
  new_id-Present, req-Present, trc-Present, spn-Present,
}
use logcenter_sdk_go.Requests.Valid.{FormatsTimes, elapsed_ms-HasDuration, default_to-IsStatus}
use logcenter_sdk_go.Requests.Lineage.{Place, place-new_span}

level-OneOf :
    (level : String)
    → (Present (default_to level "info") × OneOf allowed_levels (default_to level "info"))
      ↔ ((level ≡ "") ⊎ (Present level × OneOf allowed_levels level))
unfolding trim_space
level-OneOf level =
    default_to_iff (λ s. Present s × OneOf allowed_levels s) level "info" (refl, inr (inl refl))
      (λ h. empty-not-Present "" refl h.0)

default-Present : Present "operation event"
unfolding trim_space
default-Present = refl

operation-Present : Present "operation"
unfolding trim_space
operation-Present = refl

-- An event within an operation passes the checks of its type just if its level is left out or is one of
-- the five levels: its message is never blank.
pub operation_event_iff :
    (platform : Platform) (request : RequestContext) (event : OperationEvent)
    → (validate_by_type platform (operation_event_to_log_event request event) ≡ none)
      ↔ ((event.level ≡ "") ⊎ (Present event.level × OneOf allowed_levels event.level))
unfolding validate_by_type validate_kind kind_of operation_event_to_log_event
operation_event_iff platform request event =
    let (to, from) = log_iff platform (operation_event_to_log_event request event) in
    let (out, back) = level-OneOf event.level in
    let message =
      trimmed_or-Present event.description (trimmed_or event.action "operation event")
        (trimmed_or-Present event.action "operation event" default-Present) in
    (
      λ h. let valid = to h in out (valid.0, valid.1),
      λ h. let level = back h in from (level.0, level.1, message),
    )

-- An identifier that the options give, or else the context, or else a new one.
given-Present :
    (given current id : String)
    → Present id
    → Present (first_non_empty (given ∷ default_to current id ∷ []))
      ↔ IsClean (first_non_empty (given ∷ current ∷ []))
given-Present given current id p =
    rw
      (
        first_non_empty-pair given (default_to current id),
        first_non_empty-pair given current,
        default_to_assoc given current id,
      )
      (default_to-Present (default_to given current) id p)

module _ (platform : Platform) (world : World) (clock : Clock) where
  -- The event of the start of an operation passes the checks of its type just if the identifiers that
  -- are given for the request and the trace, by the options or else by the context, are not filled with
  -- spaces only: its operation is never blank. The texts of the clock have to be times that can be read.
  pub operation_started_iff :
      FormatsTimes platform clock
      → (ctx : Context) (name : String) (options : OperationStartOptions) (client : Client)
      → let current = request_from_context ctx in
        let operation = new_operation world clock ctx name options client in
        (validate_by_type platform (operation_started_event clock operation options) ≡ none) ↔ (
          IsClean (first_non_empty (options.request_id ∷ current.request_id ∷ []))
          × IsClean (first_non_empty (options.trace_id ∷ current.trace_id ∷ [])))
  unfolding validate_by_type validate_kind kind_of operation_started_event new_operation
      operation_of ensured ensure_request_context
  operation_started_iff formats ctx name options client =
      let operation = new_operation world clock ctx name options client in
      let current = request_from_context ctx in
      let (to, from) = started_iff platform (operation_started_event clock operation options) in
      let rid =
        given-Present options.request_id current.request_id
          (new_id "req_" (world.random client.ticks)) (new_id-Present "req_" _ req-Present) in
      let tid =
        given-Present options.trace_id current.trace_id
          (new_id "trc_" (world.random (suc client.ticks))) (new_id-Present "trc_" _ trc-Present) in
      let named =
        trimmed_or-Present name (trimmed_or current.operation "operation")
          (trimmed_or-Present current.operation "operation" operation-Present) in
      (
        λ h. let valid = to h in (rid.0 valid.0, tid.0 valid.1),
        λ h. from (rid.1 h.0, tid.1 h.1, named, formats operation.started_at),
      )

  -- The event of a span passes the checks of its type just if the trace of the context is not filled
  -- with spaces only, the name is not blank, and the status is left out or is one of the allowed ones,
  -- whatever the options; the texts of the clock have to be times that can be read.
  pub span_event_iff :
      FormatsTimes platform clock
      → (ctx : Context) (name : String) (options : List SpanOption) (client : Client)
        (finished_at : Time) (status : String)
      → let span = new_span world clock ctx name options client in
        (validate_by_type platform (span_event clock finished_at status span) ≡ none) ↔ (
          IsClean (request_from_context ctx).trace_id
          × Present name
          × ((status ≡ "") ⊎ IsStatus status))
  unfolding validate_by_type validate_kind kind_of span_event span_of ensured ensure_request_context
  span_event_iff formats ctx name options client finished_at status =
      let span = new_span world clock ctx name options client in
      let p = place-new_span world clock ctx name options client in
      let (to, from) = span_iff platform (span_event clock finished_at status span) in
      let (out, back) = default_to-IsStatus status in
      let tid =
        default_to-Present (request_from_context ctx).trace_id
          (new_id "trc_" (world.random (suc client.ticks))) (new_id-Present "trc_" _ trc-Present) in
      let trace_id = ap (λ (x : Place). x.0.trace_id) p in
      let span_id = ap (λ (x : Place). x.2) p in
      let named = ap (λ (x : Place). x.1) p in
      (
        λ h.
            let valid = to h in
            (tid.0 (subst Present trace_id valid.0), subst Present named valid.2, out valid.6),
        λ h. from (
          subst Present (sym trace_id) (tid.1 h.0),
          subst Present (sym span_id) (new_id-Present "spn_" _ spn-Present),
          subst Present (sym named) h.1,
          formats span.started_at,
          formats finished_at,
          elapsed_ms-HasDuration finished_at span.started_at,
          back h.2,
        ),
      )
