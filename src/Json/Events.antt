-- ===== src/Json/Events.antt =====
-- The JSON of an event and of a batch, by the struct tags of logcenter/types.go.
use logcenter_sdk_go.Base.{
  String, List, [], ◌∷◌, Option, none, some, if◌then◌else◌, ◌==◌, ℤ, decimal_ℤ, ◌≡◌, refl,
}
use logcenter_sdk_go.Types.{Value, null, end, Fields, fields, Event, empty_event, BatchRequest}
use logcenter_sdk_go.Json.Values.{json_string, marshal, object, array, ◌>>=◌}

-- A member of the object: its key and what `Marshal` says of its value.
abbrev Member : Type 0
Member = String × Option String

abbrev text : String → String → List Member → List Member
text key value rest = (key, some (json_string value)) ∷ rest

-- `omitempty`.
abbrev optional : String → String → List Member → List Member
optional key value rest = if value == "" then rest else (key, some (json_string value)) ∷ rest

abbrev optional_int : String → Option ℤ → List Member → List Member
optional_int key none rest = rest
optional_int key (some z) rest = (key, some (decimal_ℤ z)) ∷ rest

abbrev optional_value : String → Value → List Member → List Member
optional_value key null rest = rest
optional_value key value rest = (key, marshal value) ∷ rest

abbrev optional_fields : String → Fields → List Member → List Member
optional_fields key none rest = rest
optional_fields key (some end) rest = rest
optional_fields key (some es) rest = (key, marshal (fields es)) ∷ rest

collect : List Member → Option (List (String × String))
collect [] = some []
collect ((k, m) ∷ ms) = do text ← m; rest ← collect ms; some ((k, text) ∷ rest)

-- The members in the order of the struct's fields.
members : Event → List Member
members e = text "event_id" e.event_id (
    optional "idempotency_key" e.idempotency_key (
      text "event_type" e.event_type (
        text "occurred_at" e.occurred_at (
          text "environment" e.environment (
            text "service" e.service (
              optional "service_version" e.service_version (
                optional "classification" e.classification (
                  optional "retention_hint" e.retention_hint (
                    optional "request_id" e.request_id (
                      optional "trace_id" e.trace_id (
                        optional "span_id" e.span_id (
                          optional "parent_span_id" e.parent_span_id (
                            optional "user_id" e.user_id (
                              optional "tenant_id" e.tenant_id (
                                optional "operation" e.operation (
                                  optional "status" e.status (
                                    optional "method" e.method (
                                      optional "path" e.path (
                                        optional "route_template" e.route_template (
                                          optional "kind" e.kind (
                                            optional "name" e.name (
                                              optional "level" e.level (
                                                optional "message" e.message (
                                                  optional "error_code" e.error_code (
                                                    optional "error_message" e.error_message (
                                                      optional "error_type" e.error_type (
                                                        optional "severity" e.severity (
                                                          optional "fingerprint" e.fingerprint (
                                                            optional "stack_trace" e.stack_trace (
                                                            optional_int "http_status" e.http_status
                                                            (optional_int "duration_ms"
                                                            e.duration_ms
                                                            (optional "started_at" e.started_at (
                                                            optional "finished_at" e.finished_at (
                                                            optional "actor_type" e.actor_type (
                                                            optional "actor_id" e.actor_id (
                                                            optional "action" e.action (
                                                            optional "entity_type" e.entity_type (
                                                            optional "entity_id" e.entity_id (
                                                            optional "field_name" e.field_name (
                                                            optional_value "changes" e.changes (
                                                            optional_value "old_value" e.old_value (
                                                            optional_value "new_value" e.new_value (
                                                            optional "reason" e.reason (
                                                            optional_fields "metadata" e.metadata (
                                                            optional_fields "data" e.data_fields [])
                                                            ))))))))))))))))))))))))))))))))))))))))
                                                            ))))

unfoldable pub marshal_event : Event → Option String
unfolding marshal object members collect json_string decimal_ℤ
marshal_event event = do ms ← collect (members event); some (object ms)

marshal_events : List Event → Option (List String)
unfolding marshal_event
marshal_events [] = some []
marshal_events (e ∷ es) = do text ← marshal_event e; rest ← marshal_events es; some (text ∷ rest)

abbrev source_value : Fields → Value
source_value none = null
source_value (some es) = fields es

unfoldable pub marshal_batch : BatchRequest → Option String
unfolding marshal_events marshal object array
marshal_batch batch = do
  source ← marshal (source_value batch.source)
  events ← marshal_events batch.events
  some (
      object (
        ("batch_id", json_string batch.batch_id)
        ∷ ("sent_at", json_string batch.sent_at)
        ∷ ("source", source)
        ∷ ("events", array events)
        ∷ []))

runs :
    marshal_event (record empty_event { event_id = "e"; service = "s"; level = "info" })
    ≡ some
        "{\"event_id\":\"e\",\"event_type\":\"\",\"occurred_at\":\"\",\"environment\":\"\",\"service\":\"s\",\"level\":\"info\"}"
unfolding marshal_event
runs = refl

-- `omitempty` leaves an empty map out as it does a nil one.
pub marshal_event-empty :
    (event : Event)
    → marshal_event (record event { metadata = some end })
      ≡ marshal_event (record event { metadata = none })
unfolding marshal_event members
marshal_event-empty event = refl
