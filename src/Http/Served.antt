-- ===== src/Http/Served.antt =====
-- What a request that goes through the middleware leaves behind.
use logcenter_sdk_go.Base.{
  ℤ, pos, List, leb_ℤ, Bool, true, false, none, some, if◌then◌else◌, ◌≡◌, refl, ap, ◌∙◌, Bool-cases,
  inl, inr,
}
use logcenter_sdk_go.Types.{Event, Fields}
use logcenter_sdk_go.Times.{Clock}
use logcenter_sdk_go.Context.{context_with_request, request_from_context}
use logcenter_sdk_go.Client.{Client, World, enqueue}
use logcenter_sdk_go.Requests.{
  Request, met, merge_request_context, new_request, request_of, started_context,
  request_started_event, request_finished_event, start_request, request_end_with_context,
  request_end,
}
use logcenter_sdk_go.Http.Lifetime.{
  last_status, recorded_status-last, default_to-outcome, IsStart, IsEnd,
}
use logcenter_sdk_go.Http.Request.{HttpRequest, with_context}
use logcenter_sdk_go.Http.Body.{Decoders}
use logcenter_sdk_go.Http.Replay.{capture_restores}
use logcenter_sdk_go.Http.Middleware.{
  HttpMiddlewareOption, HttpMiddlewareConfig, no_middleware_config, middleware_config, Handler,
  from_func, with_body, middleware_data, middleware_start_options, middleware_end_options,
  recorded_status, after_handler, http_middleware,
}

module _ (decoders : Decoders) (world : World) (clock : Clock) where
  after_handler_lem :
      (request : Request)
      → request.ended ≡ false
      → (served : Client × List ℤ × Bool)
      → let (after, status_codes, panicked) = served in
        let status_code = recorded_status (pos 200) status_codes in
        after_handler decoders world clock request served ≡ (
          if panicked then (after, true) else (
            (enqueue world
                (request_finished_event clock none
                  (clock.time after.ticks)
                  request
                  (middleware_end_options decoders status_code))
                (met after)).0,
            false,
          ))
  unfolding after_handler request_end request_end_with_context
  after_handler_lem request h (after, status_codes, true) = refl
  after_handler_lem request h (after, status_codes, false) = rw h refl

module _ (decoders : Decoders) where
  with_body-request :
      (given : Fields) (c : Fields × HttpRequest) → (with_body decoders given c).1 ≡ c.1
  with_body-request given (none, after) = refl
  with_body-request given (some es, after) = refl

  middleware_data-request :
      (config : HttpMiddlewareConfig) (r : HttpRequest) → (middleware_data decoders config r).1 ≡ r
  unfolding middleware_data
  middleware_data-request config r =
      elim (Bool-cases (from_func false config.body_capture_func r)) [
        | inl h ↦ rw h (with_body-request _ _ ∙ capture_restores decoders config.body_capture r)
        | inr h ↦ rw h refl
      ]

  module _ (world : World) (clock : Clock) (options : List HttpMiddlewareOption) where
    -- What the middleware offers to the client for a request, in order: the event of the start, and, if
    -- the handler returns, the event of the end.
    abbrev pub config_of : HttpMiddlewareConfig
    config_of = middleware_config options no_middleware_config

    abbrev pub request_for : HttpRequest → Client → Request
    request_for r client =
        new_request world clock r.context (middleware_start_options decoders config_of r) client

    abbrev pub started_event : HttpRequest → Client → Event
    started_event r client =
        request_started_event clock (request_for r client)
          (middleware_start_options decoders config_of r)

    abbrev pub finished_event : HttpRequest → Client → Client → ℤ → Event
    finished_event r before after status_code =
        request_finished_event clock none (clock.time after.ticks) (request_for r before)
          (middleware_end_options decoders status_code)

    -- The client and the request that the handler is given.
    abbrev pub handed : HttpRequest → Client → HttpRequest × Client
    handed r client = (
      record r { context = some (request_for r client).context },
      (enqueue world (started_event r client) (met (met client))).0,
    )

    served :
        (next : Handler) (r : HttpRequest) (client : Client)
        → let (given, before) = handed r client in
          let (after, status_codes, panicked) = next given before in
          http_middleware decoders world clock options next r client ≡ (
            if panicked then (after, true) else (
              (enqueue world
                  (finished_event r client after (recorded_status (pos 200) status_codes))
                  (met after)).0,
              false,
            ))
    unfolding http_middleware start_request with_context context_with_request new_request request_of
        started_context request_end request_end_with_context after_handler
    served next r client =
        let request = request_for r client in
        let before = (handed r client).1 in
        let ctx = context_with_request r.context request.context in
        ap
          (λ (q : HttpRequest).
            after_handler decoders world clock request (next (with_context ctx q) before))
          (middleware_data-request config_of r)
        ∙ after_handler_lem decoders world clock request refl (next (handed r client).0 before)

    -- A request that goes through the middleware. The handler is given the request as it was, with its body
    -- whole, in a context of its own. The event of the start, which is offered to the client before, has
    -- the identifiers, user, tenant and operation of that context and the method and path of the request.
    -- If the handler returns, the event of the end is offered to the client that it leaves: it has the
    -- same, with the status that the handler wrote last, or 200 if it wrote none, and it is a failure from
    -- 500 on and else a success. If the handler panics, no event of the end is offered.
    pub http_middleware_lem :
        (next : Handler) (r : HttpRequest) (client : Client)
        → let (given, before) = handed r client in
          let (after, status_codes, panicked) = next given before in
          let code = last_status status_codes in
          let values = request_from_context given.context in
          (http_middleware decoders world clock options next r client ≡ (
            if panicked
            then (after, true)
            else ((enqueue world (finished_event r client after code) (met after)).0, false)))
          × IsStart r values (started_event r client)
          × IsEnd r values code (finished_event r client after code)
    unfolding request_started_event request_finished_event new_request request_of
        merge_request_context request_from_context middleware_start_options
    http_middleware_lem next r client =
        let result = next (handed r client).0 (handed r client).1 in
        (
          served next r client
              ∙ ap
                  (λ (code : ℤ). if result.2 then (result.0, true) else (
                    (enqueue world (finished_event r client result.0 code) (met result.0)).0,
                    false,
                  ))
                  (recorded_status-last result.1),
          record {
            event_type = refl;
            request_id = refl;
            trace_id = refl;
            span_id = refl;
            user_id = refl;
            tenant_id = refl;
            operation = refl;
            method = refl;
            path = refl;
          },
          record {
            event_type = refl;
            request_id = refl;
            trace_id = refl;
            span_id = refl;
            user_id = refl;
            tenant_id = refl;
            operation = refl;
            method = refl;
            path = refl;
            http_status = refl;
            status = default_to-outcome (leb_ℤ (pos 500) (last_status result.1));
          },
        )
