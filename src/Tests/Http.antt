-- ===== src/Tests/Http.antt =====
-- The environment, exchanges with providers, and requests of servers and clients.
use logcenter_sdk_go.Base.{
  ltb, take, length, ℤ, pos, String, [], ◌∷◌, true, false, Option, none, some, ◌==◌, not,
  if◌then◌else◌, ◌≡◌, ◌↔◌, ◌⊎◌, refl, trim_space, arith, All,
}
use logcenter_sdk_go.Base.Split.{join, Lacks}
use logcenter_sdk_go.Base.Trim.{IsTrimmed}
use logcenter_sdk_go.Types.{null}
use logcenter_sdk_go.Context.{request_from_context}
use logcenter_sdk_go.Client.{enqueue}
use logcenter_sdk_go.Validation.{validate_by_type, no_fields}
use logcenter_sdk_go.Validation.Rules.{Present}
use logcenter_sdk_go.Requests.{met}
use logcenter_sdk_go.Requests.Present.{IsClean}
use logcenter_sdk_go.Env.Defs.{Lookup, comma, env_list, config_from_lookup}
use logcenter_sdk_go.Env.Failing.{error_of, first_error, variables, config_from_lookup-first_error}
use logcenter_sdk_go.Env.Items.{env_list-join}
use logcenter_sdk_go.Exchange.Defs.{
  ExternalProviderExchange, no_payload, new_external_provider_exchange_event,
}
use logcenter_sdk_go.Exchange.Carried.{exchange_event_iff}
use logcenter_sdk_go.Exchange.Omitted.{request_payload_omitted}
use logcenter_sdk_go.Http.Request.{Reader, HttpRequest}
use logcenter_sdk_go.Http.Body.{
  Decoders, RequestBodyCaptureOptions, read_and_restore_body, type_covers,
  capture_http_request_body,
}
use logcenter_sdk_go.Http.Replay.{capture_restores, read_and_restore_body_lem}
use logcenter_sdk_go.Http.Allowed.{Covers, type_covers_iff}
use logcenter_sdk_go.Http.Middleware.{Handler, http_middleware}
use logcenter_sdk_go.Http.Lifetime.{IsStart, IsEnd}
use logcenter_sdk_go.Http.Served.{handed, started_event, finished_event, http_middleware_lem}
use logcenter_sdk_go.Http.Transport.{Outcome, no_round_tripper_config}
use logcenter_sdk_go.Http.RoundTrip.{round_trip_context, round_trip_event}
use logcenter_sdk_go.Http.Sent.{round_trip_event_iff}
use logcenter_sdk_go.Gin.Defs.{GinContext}
use logcenter_sdk_go.Gin.Middleware.{Aborts, panicked, GinHandlers}
use logcenter_sdk_go.Tests.Data.{platform, world, client}
use logcenter_sdk_go.Tests.Requests.{clock, formats}

-- A list in one variable, and a number that is none in another.
abbrev lookup : Lookup
lookup name =
    if name == "LOGCENTER_SENSITIVE_KEY_FRAGMENTS"
    then some "pin,iban"
    else if name == "LOGCENTER_BATCH_SIZE"
    then some "ten"
    else none

abbrev parse_duration : String → Option ℤ
parse_duration s = none

config_from_lookup-first_error_example :
    error_of (config_from_lookup platform parse_duration lookup)
    ≡ first_error platform parse_duration lookup variables
config_from_lookup-first_error_example =
    config_from_lookup-first_error platform parse_duration lookup

items-IsTrimmed : All IsTrimmed ("pin" ∷ "iban" ∷ [])
unfolding trim_space
items-IsTrimmed = ((refl, refl), ((refl, refl), tt))

separate_items : All (Lacks comma) ("pin" ∷ "iban" ∷ [])
separate_items = ((refl, (refl, (refl, tt))), ((refl, (refl, (refl, (refl, tt)))), tt))

joined : lookup "LOGCENTER_SENSITIVE_KEY_FRAGMENTS" ≡ some (join comma ("pin" ∷ "iban" ∷ []))
unfolding join
joined = refl

env_list-join_example : env_list lookup "LOGCENTER_SENSITIVE_KEY_FRAGMENTS" ≡ "pin" ∷ "iban" ∷ []
env_list-join_example =
    env_list-join lookup "LOGCENTER_SENSITIVE_KEY_FRAGMENTS" "pin" ("iban" ∷ []) items-IsTrimmed
      separate_items joined

abbrev exchange : ExternalProviderExchange
exchange = record {
  idempotency_key = "";
  classification = "";
  retention_hint = "";
  request_id = "r1";
  trace_id = "t1";
  span_id = "";
  user_id = "";
  tenant_id = "";
  operation = "pay";
  provider = "bank";
  provider_env = null;
  method = "POST";
  endpoint = "/pay";
  url = "";
  accept = "";
  content_type = "";
  attempt = pos 1;
  status = "";
  status_code = pos 502;
  duration = pos 3000000;
  started_at = none;
  finished_at = none;
  error_code = "";
  error_message = "";
  request_payload_bytes = 1 ∷ 2 ∷ [];
  response_payload_bytes = [];
  request_omitted_reason = "secret";
  response_omitted_reason = "";
  metadata = none;
  data_fields = none;
}

exchange_event_iff_example :
    (validate_by_type platform (new_external_provider_exchange_event clock (λ b. none) exchange)
      ≡ none)
    ↔ ((no_fields none ≡ false)
        ⊎ (Present "secret" ⊎ (no_payload (1 ∷ 2 ∷ []) ≡ false))
        ⊎ (Present "" ⊎ (no_payload [] ≡ false)))
exchange_event_iff_example = exchange_event_iff platform clock (λ b. none) exchange

secret-Present : Present "secret"
unfolding trim_space
secret-Present = refl

request_payload_omitted_example :
    new_external_provider_exchange_event clock
      (λ b. none)
      (record exchange { request_payload_bytes = 1 ∷ 2 ∷ [] })
    ≡ new_external_provider_exchange_event clock
        (λ b. none)
        (record exchange { request_payload_bytes = 3 ∷ 4 ∷ [] })
request_payload_omitted_example =
    request_payload_omitted (λ b. none) clock exchange (1 ∷ 2 ∷ []) (3 ∷ 4 ∷ []) secret-Present refl

abbrev decoders : Decoders
decoders = record {
  decode_first = λ b. none;
  parse_query = λ s. none;
  text = λ b. "text";
  media_type = λ s. some s;
  lower = λ s. s;
}

abbrev http_request : HttpRequest
http_request = record {
  method = "POST";
  scheme = "http";
  host = "h";
  path = "/orders";
  pattern = "/orders";
  remote_addr = "a";
  user_agent = "u";
  header = λ name. if name == "Content-Type" then "application/json" else "";
  body = some (record { bytes = 1 ∷ 2 ∷ 3 ∷ []; failure = none });
  context = none;
}

abbrev capture_options : RequestBodyCaptureOptions
capture_options = record { max_bytes = pos 2; content_types = [] }

capture_restores_example :
    (capture_http_request_body decoders capture_options http_request).1 ≡ http_request
capture_restores_example = capture_restores decoders capture_options http_request

abbrev body : Reader
body = record { bytes = 1 ∷ 2 ∷ 3 ∷ []; failure = some "reset" }

read_and_restore_body_lem_example :
    (read_and_restore_body (pos 2) body).0 ≡ some (take 2 body.bytes, ltb 2 (length body.bytes))
read_and_restore_body_lem_example = read_and_restore_body_lem 2 body (omega arith) refl

type_covers_iff_example :
    (type_covers "text/*" "text/plain" ≡ true)
    ↔ ((not ("text/*" == "") ≡ true) × Covers "text/*" "text/plain")
type_covers_iff_example = type_covers_iff "text/*" "text/plain"

-- A handler that writes a status of 503.
abbrev handler : Handler
handler r c = (met c, pos 503 ∷ [], false)

http_middleware_lem_example :
    let (given, before) = handed decoders world clock [] http_request client in
    let values = request_from_context given.context in
    let end_of_503 =
      finished_event decoders world clock [] http_request client (met before) (pos 503) in
    (http_middleware decoders world clock [] handler http_request client
      ≡ ((enqueue world end_of_503 (met (met before))).0, false))
    × IsStart http_request values (started_event decoders world clock [] http_request client)
    × IsEnd http_request values (pos 503) end_of_503
http_middleware_lem_example =
    http_middleware_lem decoders world clock [] handler http_request client

abbrev outcome : Outcome
outcome = record { response = some (pos 200); err = none; context_error = none }

round_trip_event_iff_example :
    (validate_by_type platform (
        round_trip_event world clock no_round_tripper_config
          (round_trip_context world clock http_request client)
          ""
          http_request
          (pos 1)
          (pos 2)
          outcome)
      ≡ none)
    ↔ IsClean (request_from_context none).trace_id
round_trip_event_iff_example =
    round_trip_event_iff platform world clock formats no_round_tripper_config http_request
      http_request client "" (pos 1) (pos 2) outcome

abbrev gin_context : GinContext
gin_context = record {
  request = http_request;
  full_path = "/orders";
  client_ip = "a";
  status = pos 0;
  written = false;
}

abbrev aborts : Aborts
aborts = record {
  abort = λ c. c;
  abort_with_status = λ code c. record c { status = code; written = true };
}

-- Handlers that panic.
abbrev gin_handlers : GinHandlers
gin_handlers c client = (c, met client, panicked "nil map")
