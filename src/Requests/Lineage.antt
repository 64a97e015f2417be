-- ===== src/Requests/Lineage.antt =====
-- What the start of a request, an operation or a span passes on to what is below it.
use logcenter_sdk_go.Base.{
  suc, String, List, [], ◌∷◌, none, some, ◌≡◌, ◌⊎◌, inl, inr, refl, sym, ap, ◌∙◌,
}
use logcenter_sdk_go.Types.{Event}
use logcenter_sdk_go.Times.{Time, Clock}
use logcenter_sdk_go.Context.{
  RequestContext, Context, request_from_context, context_with_request, default_to, new_id,
  ensure_request_context,
}
use logcenter_sdk_go.Client.{Client, World}
use logcenter_sdk_go.Requests.Defs.{merge_request_context}
use logcenter_sdk_go.Requests.RequestDefs.{
  RequestStartOptions, RequestEndOptions, request_started_event, request_finished_event,
  new_request, start_request,
}
use logcenter_sdk_go.Requests.OperationDefs.{
  OperationStartOptions, OperationEndOptions, operation_started_event, operation_finished_event,
  new_operation, start_operation, ensured,
}
use logcenter_sdk_go.Requests.SpanDefs.{
  Span, SpanOption, span_kind, span_metadata, span_data, apply_option, apply_options, span_of,
  new_span, start_span,
}
use logcenter_sdk_go.Requests.Present.{new_id-Present, req-Present, trc-Present, Present-not_empty}
use logcenter_sdk_go.Requests.Merge.{merge_request_context_self, default_to_twice}

-- What tells which request or operation an event belongs to.
pub record Identity : Type 0 where
  pub request_id : String
  pub trace_id : String
  pub span_id : String
  pub user_id : String
  pub tenant_id : String
  pub operation : String
  pub kind : String
  pub method : String
  pub path : String
  pub route_template : String

abbrev pub identity : Event → Identity
identity event = record {
  request_id = event.request_id;
  trace_id = event.trace_id;
  span_id = event.span_id;
  user_id = event.user_id;
  tenant_id = event.tenant_id;
  operation = event.operation;
  kind = event.kind;
  method = event.method;
  path = event.path;
  route_template = event.route_template;
}

-- The context of the end is the one that the start has returned, or one that carries no request.
abbrev pub OwnContext : RequestContext → Context → Type 0
OwnContext values ctx = (ctx ≡ none) ⊎ (ctx ≡ some values)

merge-own :
    (values : RequestContext) (ctx : Context)
    → OwnContext values ctx
    → merge_request_context values ctx ≡ values
unfolding merge_request_context
merge-own values ctx (inl h) = ap (merge_request_context values) h
merge-own values ctx (inr h) =
    ap (merge_request_context values) h ∙ merge_request_context_self values

module _ (world : World) (clock : Clock) where
  -- The two events of a request belong together: the event of its end carries the same identifiers,
  -- user, tenant, operation, method, path and route template as the event of its start, if the end is
  -- given the context that the start has returned or one that carries no request.
  pub request_identity :
      (ctx ctx' : Context) (now : Time) (options : RequestStartOptions)
      (end_options : RequestEndOptions) (client : Client)
      → (ctx' ≡ none) ⊎ (ctx' ≡ (start_request world clock ctx options client).1)
      → let request = new_request world clock ctx options client in
        identity (request_finished_event clock ctx' now request end_options)
        ≡ identity (request_started_event clock request options)
  unfolding start_request context_with_request request_finished_event request_started_event
  request_identity ctx ctx' now options end_options client h =
      let request = new_request world clock ctx options client in
      rw (merge-own request.context ctx' h) refl

  -- So do the two events of an operation.
  pub operation_identity :
      (ctx ctx' : Context) (name : String) (now : Time) (options : OperationStartOptions)
      (end_options : OperationEndOptions) (client : Client)
      → (ctx' ≡ none) ⊎ (ctx' ≡ (start_operation world clock ctx name (options ∷ []) client).1)
      → let operation = new_operation world clock ctx name options client in
        identity (operation_finished_event clock ctx' now operation end_options)
        ≡ identity (operation_started_event clock operation options)
  unfolding start_operation context_with_request operation_finished_event operation_started_event
  operation_identity ctx ctx' name now options end_options client h =
      let operation = new_operation world clock ctx name options client in
      rw (merge-own operation.request ctx' h) refl

-- What no option of a span changes.
abbrev pub Place : Type 0
Place = RequestContext × String × String × String × Time

abbrev pub place : Span → Place
place span = (span.request, span.name, span.span_id, span.parent_span_id, span.started_at)

pub place-apply_options :
    (options : List SpanOption) (span : Span) → place (apply_options options span) ≡ place span
unfolding apply_options apply_option
place-apply_options [] span = refl
place-apply_options (span_kind kind ∷ options) span = place-apply_options options _
place-apply_options (span_metadata fields ∷ options) span = place-apply_options options _
place-apply_options (span_data fields ∷ options) span = place-apply_options options _

module _ (world : World) (clock : Clock) where
  pub place-new_span :
      (ctx : Context) (name : String) (options : List SpanOption) (client : Client)
      → place (new_span world clock ctx name options client)
        ≡ place (
            span_of
              (ensured world clock ctx client).1
              (new_id "spn_" (world.random (suc (suc client.ticks))))
              name
              (clock.time (suc (suc client.ticks))))
  unfolding new_span
  place-new_span ctx name options client = place-apply_options options _

  -- The identifiers of an ensured request are not empty, so that they are kept below it.
  ensured-kept :
      (ctx : Context) (client client' : Client) (ctx' : Context)
      → let values = (ensured world clock ctx client).1 in
        (request_from_context ctx').request_id ≡ values.request_id
        → (request_from_context ctx').trace_id ≡ values.trace_id
        → ((ensured world clock ctx' client').1.request_id ≡ values.request_id)
          × ((ensured world clock ctx' client').1.trace_id ≡ values.trace_id)
  unfolding ensured ensure_request_context
  ensured-kept ctx client client' ctx' r t = (
    ap (λ s. default_to s (new_id "req_" (world.random client'.ticks))) r
        ∙ default_to_twice (request_from_context ctx).request_id
            (new_id "req_" (world.random client.ticks)) (new_id "req_" (world.random client'.ticks))
            (Present-not_empty _ (new_id-Present "req_" _ req-Present)),
    ap (λ s. default_to s (new_id "trc_" (world.random (suc client'.ticks)))) t
        ∙ default_to_twice (request_from_context ctx).trace_id
            (new_id "trc_" (world.random (suc client.ticks)))
            (new_id "trc_" (world.random (suc client'.ticks)))
            (Present-not_empty _ (new_id-Present "trc_" _ trc-Present)),
  )

  -- A span that is started below another one, in the context that the other one's start has returned, has
  -- the other one as its parent and belongs to the same request and the same trace, whatever the
  -- options and whatever happened to the client in between.
  pub nested_span :
      (ctx : Context) (name name' : String) (options options' : List SpanOption)
      (client client' : Client)
      → let (after, below, parent) = start_span world clock ctx name options client in
        let child = (start_span world clock below name' options' client').2 in
        (child.parent_span_id ≡ parent.span_id)
        × (child.request.request_id ≡ parent.request.request_id)
        × (child.request.trace_id ≡ parent.request.trace_id)
  unfolding start_span context_with_request request_from_context span_of ensured
      ensure_request_context
  nested_span ctx name name' options options' client client' =
      let parent = new_span world clock ctx name options client in
      let below = context_with_request (ensured world clock ctx client).0 parent.request in
      let p = place-new_span ctx name options client in
      let c = place-new_span below name' options' client' in
      let request_id = ap (λ (x : Place). x.0.request_id) p in
      let trace_id = ap (λ (x : Place). x.0.trace_id) p in
      let kept = ensured-kept ctx client client' below request_id trace_id in
      (
        ap (λ (x : Place). x.3) c
            ∙ ap (λ (x : Place). x.0.span_id) p
            ∙ sym (ap (λ (x : Place). x.2) p),
        ap (λ (x : Place). x.0.request_id) c ∙ kept.0 ∙ sym request_id,
        ap (λ (x : Place). x.0.trace_id) c ∙ kept.1 ∙ sym trace_id,
      )
