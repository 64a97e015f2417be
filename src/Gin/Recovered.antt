-- ===== src/Gin/Recovered.antt =====
-- A handler that panics behind `Recovery` and `Middleware`, and the identity that a handler sets.
use Prim.Native.String.{◌++◌}
use logcenter_sdk_go.Base.{
  ℤ, pos, negsuc, zero, suc, some, String, List, false, none, ◌==◌, ◌&&◌, if◌then◌else◌, is_blank,
  trim_space, ◌≡◌, refl, ap, ◌∙◌, inr, if-false,
}
use logcenter_sdk_go.Base.Blank.{is_blank-append}
use logcenter_sdk_go.Platform.{Platform}
use logcenter_sdk_go.Times.{Time, Clock}
use logcenter_sdk_go.Context.{
  RequestContext, Context, request_from_context, context_with_request, context_with_user,
  context_with_tenant,
}
use logcenter_sdk_go.Client.{Client, World}
use logcenter_sdk_go.Types.{Event}
use logcenter_sdk_go.Logging.{error_event}
use logcenter_sdk_go.Logging.Valid.{error_event_iff}
use logcenter_sdk_go.Validation.{validate_by_type}
use logcenter_sdk_go.Validation.Rules.{Present}
use logcenter_sdk_go.Requests.{
  replaced_by, Request, RequestEndOptions, merge_request_context, request_finished_event,
  new_request, start_request,
}
use logcenter_sdk_go.Http.Request.{with_context}
use logcenter_sdk_go.Http.Body.{Decoders}
use logcenter_sdk_go.Http.Middleware.{status_of_code}
use logcenter_sdk_go.Exchange.Defs.{is_zero}
use logcenter_sdk_go.Requests.Merge.{if-same}
use logcenter_sdk_go.Gin.Defs.{
  GinContext, GinConfig, GinOption, no_gin_config, new_config, gin_data, gin_start_options,
  set_user_id, set_tenant_id, set_identity,
}
use logcenter_sdk_go.Gin.Middleware.{
  Aborts, Ending, returned, panicked, GinHandlers, gin_end_options, recovery_options, aborted,
  recover, gin_recovery,
}

panic-Present : Present "panic: "
unfolding trim_space
panic-Present = refl

error-Present : Present "error"
unfolding trim_space
error-Present = refl

module _ (decoders : Decoders) (platform : Platform) where
  -- The error event that `Recovery` records for a panic passes the checks of its type, whatever the
  -- options, the context and the value of the panic.
  pub recovery_event_valid :
      (config : GinConfig) (c : GinContext) (request : RequestContext) (value stack : String)
      → validate_by_type platform (
          error_event request
            (some ("panic: " ++ value))
            (recovery_options decoders config c stack))
        ≡ none
  unfolding recovery_options
  recovery_event_valid config c request value stack =
      (error_event_iff platform request (some ("panic: " ++ value))
          (recovery_options decoders config c stack)).1
        (
          inr (is_blank-append "panic: " value ∙ ap (λ b. b && is_blank value) panic-Present),
          inr error-Present,
        )

-- The status of a response, with 200 for none.
abbrev pub shown_status : ℤ → ℤ
shown_status (pos zero) = pos 200
shown_status (pos (suc n)) = pos (suc n)
shown_status (negsuc n) = negsuc n

module _ (decoders : Decoders) (world : World) (clock : Clock) (aborts : Aborts) (stack : String)
    (options options' : List GinOption) (next : GinHandlers) where
  recover_panicked :
      (config : GinConfig) (served : GinContext × Client × Ending) (value : String)
      → served.2 ≡ panicked value
      → (recover decoders world aborts stack config served).0
        ≡ aborted decoders world aborts stack
            (record served.0 { request = (gin_data decoders config served.0).1 })
  unfolding recover
  recover_panicked config (c, client, returned) value h = cc
  recover_panicked config (c, client, panicked v) value h = refl

  -- The request that the middleware starts, and what the handlers are given.
  abbrev pub gin_request : GinContext → Client → Request
  gin_request c client =
      new_request world clock c.request.context
        (gin_start_options decoders (new_config options no_gin_config) c) client

  abbrev pub gin_started : GinContext → Client → Client × Context × Request
  gin_started c client =
      start_request world clock c.request.context
        (gin_start_options decoders (new_config options no_gin_config) c) client

  abbrev pub behind : GinContext → Client → GinContext × Client × Ending
  behind c client =
      let config = new_config options no_gin_config in
      gin_recovery decoders world aborts stack options' next
        (record c {
          request = with_context (gin_started c client).1 (gin_data decoders config c).1;
        })
        (gin_started c client).0

  -- The event of the end.
  abbrev pub gin_finished : GinContext → Client → Event
  gin_finished c client =
      let (after, left, ending) = behind c client in
      request_finished_event clock after.request.context (clock.time left.ticks)
        (gin_request c client) (gin_end_options after)

  -- If the handlers panic before they have written a response, the request is ended as failed with the
  -- status 500; setting the status of a response has to be what `AbortWithStatus` does.
  pub panic_fails :
      ((code : ℤ) (c : GinContext) → (aborts.abort_with_status code c).status ≡ code)
      → (c : GinContext) (client : Client) (value : String) → (next c client).2 ≡ panicked value
      → (next c client).0.written ≡ false
      → let after = (gin_recovery decoders world aborts stack options' next c client).0 in
        ((gin_end_options after).status ≡ "failed")
        × ((gin_end_options after).http_status ≡ some (pos 500))
  unfolding gin_recovery
  panic_fails sets c client value h w =
      let config = new_config options' no_gin_config in
      let served = next c client in
      let given = record served.0 { request = (gin_data decoders config served.0).1 } in
      let status =
        ap (λ (after : GinContext). after.status)
          (recover_panicked config served value h
            ∙ if-false served.0.written (aborts.abort given)
                (aborts.abort_with_status (pos 500) given) w)
        ∙ sets (pos 500) given in
      let final = ap (λ (z : ℤ). if is_zero z then pos 200 else z) status in
      (ap status_of_code final, ap (λ (z : ℤ). some z) final)

-- The identity that a handler sets, with a user and a tenant that are not empty, is that of the event of
-- the end; the request and the trace stay those of the start.
pub set_identity-finished :
    (clock : Clock) (c : GinContext) (user_id tenant_id : String) (request : Request) (now : Time)
    (options : RequestEndOptions)
    → c.request.context ≡ some request.context
    → user_id == "" ≡ false
    → tenant_id == "" ≡ false
    → let event =
        request_finished_event clock
          (set_identity c user_id tenant_id).request.context
          now
          request
          options in
      (event.user_id ≡ user_id)
      × (event.tenant_id ≡ tenant_id)
      × (event.request_id ≡ request.context.request_id)
      × (event.trace_id ≡ request.context.trace_id)
unfolding request_finished_event set_identity set_tenant_id set_user_id with_context
    context_with_tenant context_with_user context_with_request request_from_context
    merge_request_context
set_identity-finished clock c user_id tenant_id request now options h u t =
    let values = request.context in
    (
      if-false (user_id == "") values.user_id user_id u,
      if-false (tenant_id == "") values.tenant_id tenant_id t,
      ap (λ (ctx : Context). replaced_by values.request_id (request_from_context ctx).request_id) h
          ∙ if-same (values.request_id == "") values.request_id,
      ap (λ (ctx : Context). replaced_by values.trace_id (request_from_context ctx).trace_id) h
          ∙ if-same (values.trace_id == "") values.trace_id,
    )
