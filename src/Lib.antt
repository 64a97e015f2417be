-- ===== src/Lib.antt =====
-- A model of the Log Center SDK for Go: the client of a log service, which prepares events, buffers them
-- and posts them in batches.
--
-- The parts, and the files that model them:
--   Types       logcenter/types.go: events, values, requests and responses
--   Json        what encoding/json writes for them
--   Errors      the errors of the package and their texts (client.go, validation.go)
--   Config      logcenter/config.go: the configuration, `normalized`
--   Queue       logcenter/queue.go: the bounded buffer, `push`, `drain`
--   Limit       logcenter/limit.go: the limits on strings, values and events, `limit_event`
--   Redaction   logcenter/redaction.go: the masking of secrets, `redact_event`
--   Validation  logcenter/validation.go: `validate_event`
--   Stats       logcenter/stats.go: the counters, `set_error`, `snapshot`
--   Health      logcenter/health.go: `health`, `health_handler`, `health_status`, `health_http_status`
--   Context     logcenter/context.go and id.go: the request that a context carries
--   Files       `replaceFile` of logcenter/outbox.go
--   Tamper      logcenter/tamper.go: the chain of hashes, `apply`, `save_state`, `load_state`
--   Outbox      logcenter/outbox.go: the file of pending events, `append`, `peek`, `remove`
--   Client      logcenter/client.go: `enqueue`, `send_event_sync`, `send_batch_internal`, `send_queued`, and
--               `run`, `Flush` and `Close` as the step relation of Client/Run.antt
--   Logging     logcenter/logging.go: the events of `Log`, `RecordError` and `Audit`
--   Times       `time.Time`, and the durations of requests, operations and spans
--   Requests    logcenter/request.go, operation.go and span.go: `start_request`, `request_end`,
--               `start_operation`, `operation_end`, `start_span`, `span_end` and their events
--   Env         logcenter/env.go: `config_from_lookup`
--   Exchange    logcenter/external_provider_exchange.go: `new_external_provider_exchange_event`
--   Http        logcenter/http.go (`http_middleware`), roundtripper.go (`round_trip`) and bodycapture.go
--               (`capture_http_request_body`)
--   Gin         integrations/gin/gin.go: `gin_middleware`, `gin_recovery`, `set_identity`
--   Base        texts, integers and lists over the native numbers
--   Platform    what the code takes from regular expressions, hashes, clocks and decoders
--   Tests       the code on concrete inputs
--
-- How they interact: the client completes an event (`with_defaults`), masks it, limits it, adds the
-- evidence of the chain and validates it (`prepare_event`); then it is appended to the outbox and pushed
-- to the buffer (`enqueue`). `send_queued` drains the buffer batch by batch, posts each one with retries
-- (`attempt`) and then posts what the outbox still holds (`send_outbox`). A batch that the server takes
-- is removed from the outbox. Requests, operations, spans and exchanges build events from the request that
-- a context carries and hand them to `enqueue`. The middleware starts a request, hands the handler the
-- context that the start returned, and ends the request with the status that was written; the transport
-- of an HTTP client sends a span for each request.
--
-- How state is modelled: a struct is a record and a method is a function that returns the record after
-- it. Mutexes are held for whole methods, so that each method is one step. What the client meets outside
-- (time, random identifiers, files that fail, replies of the server) is the record `World`, whose
-- functions take the number of times that the outside was met before. Hooks have no effect on the client;
-- their calls are kept in a list.
--
-- A handler, a transport below another and what lies behind the middleware of gin are functions that
-- take the client and give it back, so that they may send events themselves; a panic is a result.
-- `peek` is `none` where `Peek` panics, at a negative batch size, which `normalized` does not let
-- through. The body of a request is a reader: the bytes that it gives and how it ends. A time is a
-- number of nanoseconds, and the clock with its text is the record `Clock`.
--
-- Numbers: a Go `int` is an integer of `Base`, with its wrap-around at 64 bits where the code can reach
-- it (`attempts`); the counters are natural numbers modulo 2 ^ 64. Texts are UTF-8.
--
-- Bounds and fuel: `drain_all` takes as many rounds as the buffer has events, since a round makes the
-- buffer shorter. `attempt` takes the number of attempts. `send_outbox` takes a number of rounds and
-- returns `none` if they are used up, since the loop of the code does not end where files cannot be
-- removed.
--
-- Steps: the goroutine `run` and the callers beside it interleave as `Step` says. A caller tests
-- `closed` in one step and prepares, persists and pushes its event in a later one; `run` sends one
-- batch of the buffer or of the outbox in one step.
--
-- Not modelled: the deadlines of contexts and what `Flush` returns, the sleep between attempts, the
-- bytes of the report that the health handler writes (the report itself is modelled), the random bytes
-- of identifiers, functions of options that change the request which they are given, a nil request of a
-- transport and its text for `%T`, a nil context where the code does not test for it (it panics; `none`
-- is a context without a request), nil maps and slices inside a value apart from empty ones
-- (`reflect.DeepEqual` tells them apart), and the example server, which only calls the package.
mod Base
pub mod Types
pub mod Times
pub mod Requests
pub mod Env
pub mod Exchange
pub mod Http
pub mod Gin
pub mod Queue
pub mod Errors
pub mod Json
pub mod Config
pub mod Limit
pub mod Platform
pub mod Redaction
pub mod Validation
pub mod Stats
pub mod Health
pub mod Context
pub mod Files
pub mod Tamper
pub mod Outbox
pub mod Client
pub mod Logging
pub mod Tests
