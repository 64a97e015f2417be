-- ===== src/Requests/Valid.antt =====
-- When the events of requests, operations and spans pass the checks of their type.
use logcenter_sdk_go.Base.{
  suc, pos, String, [], ◌∷◌, none, some, ltb_ℤ, trim_space, ◌≡◌, ◌↔◌, ◌⊎◌, inl, inr, refl, ◌∙◌, ap,
  arith,
}
use logcenter_sdk_go.Platform.{Platform}
use logcenter_sdk_go.Times.{Time, Clock, or_now, elapsed_ms, elapsed_ms_lem}
use logcenter_sdk_go.Context.{Context, request_from_context, default_to, new_id}
use logcenter_sdk_go.Client.{Client, World}
use logcenter_sdk_go.Validation.{validate_by_type, validate_kind, kind_of}
use logcenter_sdk_go.Validation.Rules.{Present, IsTime, IsStatus, HasDuration}
use logcenter_sdk_go.Validation.Kinds.{started_iff, finished_iff}
use logcenter_sdk_go.Requests.Defs.{first_non_empty, merge_request_context}
use logcenter_sdk_go.Requests.RequestDefs.{
  RequestStartOptions, RequestEndOptions, Request, started_context, request_of,
  request_started_event, request_finished_event, new_request,
}
use logcenter_sdk_go.Requests.Present.{
  IsClean, req-Present, trc-Present, empty-not-Present, default_to_iff, default_to-Present,
  new_id-Present, named_operation-Present,
}

-- The texts of a clock are times that can be read.
abbrev pub FormatsTimes : Platform → Clock → Type 0
FormatsTimes platform clock = (t : Time) → IsTime platform (clock.format t)

pub elapsed_ms-HasDuration :
    (finished started : Time) → HasDuration (some (elapsed_ms finished started))
elapsed_ms-HasDuration finished started =
    ap (λ d. ltb_ℤ d (pos 0)) (elapsed_ms_lem finished started) ∙ (ground arith)

pub default_to-IsStatus :
    (status : String) → IsStatus (default_to status "success") ↔ ((status ≡ "") ⊎ IsStatus status)
unfolding trim_space
default_to-IsStatus status =
    default_to_iff IsStatus status "success" (refl, inr (inl refl))
      (λ h. empty-not-Present "" refl h.0)

module _ (platform : Platform) (world : World) (clock : Clock) where
  -- The event of the start of a request passes the checks of its type just if the identifiers that are
  -- given for the request and the trace, by the options or else by the context, are not filled with
  -- spaces only, and the operation is given, or the method or the path names it, or all three are left
  -- out; the texts of the clock have to be times that can be read.
  pub started_event_iff :
      FormatsTimes platform clock
      → (ctx : Context) (options : RequestStartOptions) (client : Client)
      → let current = request_from_context ctx in
        let operation = first_non_empty (options.operation ∷ current.operation ∷ []) in
        (validate_by_type platform
            (request_started_event clock (new_request world clock ctx options client) options)
          ≡ none)
        ↔ (IsClean (first_non_empty (options.request_id ∷ current.request_id ∷ []))
            × IsClean (first_non_empty (options.trace_id ∷ current.trace_id ∷ []))
            × (Present operation
                ⊎ ((operation ≡ "")
                    × (Present options.method
                        ⊎ Present options.path
                        ⊎ ((options.method ≡ "") × (options.path ≡ ""))))))
  unfolding validate_by_type validate_kind kind_of request_started_event new_request request_of
      started_context
  started_event_iff formats ctx options client =
      let request = new_request world clock ctx options client in
      let (to, from) = started_iff platform (request_started_event clock request options) in
      let current = request_from_context ctx in
      let rid =
        default_to-Present (first_non_empty (options.request_id ∷ current.request_id ∷ []))
          (new_id "req_" (world.random client.ticks)) (new_id-Present "req_" _ req-Present) in
      let tid =
        default_to-Present (first_non_empty (options.trace_id ∷ current.trace_id ∷ []))
          (new_id "trc_" (world.random (suc client.ticks))) (new_id-Present "trc_" _ trc-Present) in
      let named =
        named_operation-Present options.method options.path
          (first_non_empty (options.operation ∷ current.operation ∷ [])) in
      (
        λ h. let valid = to h in (rid.0 valid.0, tid.0 valid.1, named.0 valid.2),
        λ h. from (rid.1 h.0, tid.1 h.1, named.1 h.2, formats request.started_at),
      )

  -- The event of the end of a request passes the checks of its type just if the identifiers of the
  -- request and the trace, of the context of the end or else of the request, are not blank, and the
  -- status is left out or is one of the allowed ones; the duration is never refused, whatever the times.
  pub finished_event_iff :
      FormatsTimes platform clock
      → (ctx : Context) (now : Time) (request : Request) (options : RequestEndOptions)
      → let values = merge_request_context request.context ctx in
        (validate_by_type platform (request_finished_event clock ctx now request options) ≡ none)
        ↔ (Present values.request_id
            × Present values.trace_id
            × ((options.status ≡ "") ⊎ IsStatus options.status))
  unfolding validate_by_type validate_kind kind_of request_finished_event
  finished_event_iff formats ctx now request options =
      let finished_at = or_now options.finished_at now in
      let (to, from) =
        finished_iff platform (request_finished_event clock ctx now request options) in
      let (out, back) = default_to-IsStatus options.status in
      (
        λ h. let valid = to h in (valid.0, valid.1, out valid.2),
        λ h. from (
          h.0,
          h.1,
          back h.2,
          formats finished_at,
          elapsed_ms-HasDuration finished_at request.started_at,
        ),
      )
