-- ===== src/Http/Sent.antt =====
-- What the span of a request that is sent tells.
use Prim.Native.String.{◌++◌}
use logcenter_sdk_go.Base.{
  suc, ℤ, pos, String, Bool, true, false, ◌&&◌, Option, none, some, ◌==◌, if◌then◌else◌, leb_ℤ,
  is_blank, trim_space, ◌≡◌, ◌↔◌, refl, ap, ◌∙◌, Bool-cases, inl, inr,
}
use logcenter_sdk_go.Base.Blank.{is_blank-append}
use logcenter_sdk_go.Platform.{Platform}
use logcenter_sdk_go.Times.{Time, Clock}
use logcenter_sdk_go.Context.{request_from_context, new_id, ensure_request_context}
use logcenter_sdk_go.Client.{Client, World}
use logcenter_sdk_go.Validation.{validate_by_type, validate_kind, kind_of}
use logcenter_sdk_go.Validation.Rules.{Present, IsStatus}
use logcenter_sdk_go.Validation.Kinds.{span_iff}
use logcenter_sdk_go.Requests.{ensured}
use logcenter_sdk_go.Requests.Present.{
  IsClean, default_to-Present, trimmed_or-Present, new_id-Present, trc-Present, spn-Present,
}
use logcenter_sdk_go.Requests.Valid.{FormatsTimes, elapsed_ms-HasDuration}
use logcenter_sdk_go.Http.Request.{HttpRequest}
use logcenter_sdk_go.Http.Transport.{
  ContextError, TransportError, Outcome, RoundTripperConfig, name_or, span_name, response_status,
  error_status, status_with, has_canceled, has_deadline, round_trip_status,
}
use logcenter_sdk_go.Http.RoundTrip.{round_trip_context, round_trip_event}

-- The four statuses that a request that is sent can have are allowed.
success-IsStatus : IsStatus "success"
unfolding trim_space
success-IsStatus = (refl, inr (inl refl))

failed-IsStatus : IsStatus "failed"
unfolding trim_space
failed-IsStatus = (refl, inr (inr (inl refl)))

timeout-IsStatus : IsStatus "timeout"
unfolding trim_space
timeout-IsStatus = (refl, inr (inr (inr (inl refl))))

canceled-IsStatus : IsStatus "canceled"
unfolding trim_space
canceled-IsStatus = (refl, inr (inr (inr (inr (inl refl)))))

if-IsStatus : (b : Bool) (s t : String) → IsStatus s → IsStatus t → IsStatus (if b then s else t)
if-IsStatus true s t p q = p
if-IsStatus false s t p q = q

response-IsStatus : (response : Option ℤ) → IsStatus (response_status response)
response-IsStatus none = success-IsStatus
response-IsStatus (some status_code) =
    if-IsStatus (leb_ℤ (pos 500) status_code) "failed" "success" failed-IsStatus success-IsStatus

error-IsStatus :
    (err : TransportError) (context_error : Option ContextError)
    → IsStatus (error_status err context_error)
error-IsStatus err context_error =
    if-IsStatus (has_canceled err context_error) "canceled" _ canceled-IsStatus (
      if-IsStatus (has_deadline err context_error) "timeout" "failed" timeout-IsStatus
        failed-IsStatus)

status_with-IsStatus :
    (response : Option ℤ) (context_error : Option ContextError) (err : Option TransportError)
    → IsStatus (status_with response context_error err)
status_with-IsStatus response context_error none = response-IsStatus response
status_with-IsStatus response context_error (some err) = error-IsStatus err context_error

http-Present : Present "HTTP "
unfolding trim_space
http-Present = refl

http_request-Present : Present "HTTP request"
unfolding trim_space
http_request-Present = refl

method-Present :
    (method : String) → Present (if method == "" then "HTTP request" else "HTTP " ++ method)
method-Present method = elim (Bool-cases (method == "")) [
  | inl e ↦ rw e http_request-Present
  | inr e ↦ rw e (is_blank-append "HTTP " method ∙ ap (λ b. b && is_blank method) http-Present)
]

name_or-Present :
    (fallback : String) (fn : Option (HttpRequest → String)) (req : HttpRequest)
    → Present fallback
    → Present (name_or fallback fn req)
name_or-Present fallback none req p = p
name_or-Present fallback (some fn) req p = trimmed_or-Present (fn req) fallback p

module _ (platform : Platform) (world : World) (clock : Clock) where
  -- The event of the span of a request that is sent passes the checks of its type just if the trace of the
  -- context is not filled with spaces only, whatever the options, the request and the outcome: its name
  -- is never blank, and its status is always an allowed one. The texts of the clock have to be times
  -- that can be read.
  pub round_trip_event_iff :
      FormatsTimes platform clock
      → (config : RoundTripperConfig) (req sent : HttpRequest) (client : Client) (parent : String)
        (started_at finished_at : Time) (outcome : Outcome)
      → let values = round_trip_context world clock req client in
        (validate_by_type platform
            (round_trip_event world clock config values parent sent started_at finished_at outcome)
          ≡ none)
        ↔ IsClean (request_from_context req.context).trace_id
  unfolding validate_by_type validate_kind kind_of round_trip_event round_trip_context ensured
      ensure_request_context span_name round_trip_status
  round_trip_event_iff formats config req sent client parent started_at finished_at outcome =
      let values = round_trip_context world clock req client in
      let (to, from) =
        span_iff platform
          (round_trip_event world clock config values parent sent started_at finished_at outcome) in
      let tid =
        default_to-Present (request_from_context req.context).trace_id
          (new_id "trc_" (world.random (suc client.ticks))) (new_id-Present "trc_" _ trc-Present) in
      (
        λ h. tid.0 (to h).0,
        λ h. from (
          tid.1 h,
          new_id-Present "spn_" _ spn-Present,
          name_or-Present _ config.span_name_func sent (method-Present sent.method),
          formats started_at,
          formats finished_at,
          elapsed_ms-HasDuration finished_at started_at,
          status_with-IsStatus outcome.response outcome.context_error outcome.err,
        ),
      )
