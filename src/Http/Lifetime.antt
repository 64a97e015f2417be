-- ===== src/Http/Lifetime.antt =====
-- What the events of a request through the middleware have to say, apart from how they are made.
use logcenter_sdk_go.Base.{
  ℤ, pos, List, [], ◌∷◌, leb_ℤ, Bool, true, false, some, if◌then◌else◌, ◌≡◌, refl,
}
use logcenter_sdk_go.Types.{Event}
use logcenter_sdk_go.Context.{RequestContext, default_to}
use logcenter_sdk_go.Http.Request.{HttpRequest}
use logcenter_sdk_go.Http.Middleware.{recorded_status}

-- The status that was written last, or 200.
abbrev pub last_status : List ℤ → ℤ
last_status [] = pos 200
last_status (code ∷ []) = code
last_status (code ∷ next ∷ codes) = last_status (next ∷ codes)

recorded_status-after :
    (status code : ℤ) (codes : List ℤ)
    → recorded_status status (code ∷ codes) ≡ last_status (code ∷ codes)
unfolding recorded_status
recorded_status-after status code [] = refl
recorded_status-after status code (next ∷ codes) = recorded_status-after code next codes

pub recorded_status-last : (codes : List ℤ) → recorded_status (pos 200) codes ≡ last_status codes
unfolding recorded_status
recorded_status-last [] = refl
recorded_status-last (code ∷ codes) = recorded_status-after (pos 200) code codes

pub default_to-outcome :
    (failed : Bool)
    → default_to (if failed then "failed" else "success") "success"
      ≡ (if failed then "failed" else "success")
default_to-outcome true = refl
default_to-outcome false = refl

-- The event of the start of a request whose handler is given a context with these values.
pub record IsStart (r : HttpRequest) (values : RequestContext) (e : Event) : Type 0 where
  pub event_type : e.event_type ≡ "request_started"
  pub request_id : e.request_id ≡ values.request_id
  pub trace_id : e.trace_id ≡ values.trace_id
  pub span_id : e.span_id ≡ values.span_id
  pub user_id : e.user_id ≡ values.user_id
  pub tenant_id : e.tenant_id ≡ values.tenant_id
  pub operation : e.operation ≡ values.operation
  pub method : e.method ≡ r.method
  pub path : e.path ≡ r.path

-- The event of its end with this status code.
pub record IsEnd (r : HttpRequest) (values : RequestContext) (code : ℤ) (e : Event) : Type 0 where
  pub event_type : e.event_type ≡ "request_finished"
  pub request_id : e.request_id ≡ values.request_id
  pub trace_id : e.trace_id ≡ values.trace_id
  pub span_id : e.span_id ≡ values.span_id
  pub user_id : e.user_id ≡ values.user_id
  pub tenant_id : e.tenant_id ≡ values.tenant_id
  pub operation : e.operation ≡ values.operation
  pub method : e.method ≡ r.method
  pub path : e.path ≡ r.path
  pub http_status : e.http_status ≡ some code
  pub status : e.status ≡ (if leb_ℤ (pos 500) code then "failed" else "success")
