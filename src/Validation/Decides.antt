-- ===== src/Validation/Decides.antt =====
-- `ValidateEvent` accepts exactly the events that the rules allow.
use logcenter_sdk_go.Base.{
  ◌≡◌, ◌⊎◌, ◌↔◌, String, true, none, is_blank, trim_space, arith, eq_iff, ◌==◌, not, ◌&&◌,
}
use logcenter_sdk_go.Types.{Event}
use logcenter_sdk_go.Platform.{Platform}
use logcenter_sdk_go.Errors.{Error}
use logcenter_sdk_go.Validation.Fields.{
  allowed_classifications, allowed_retention_hints, validate_classification,
  validate_retention_hint, fail_if,
}
use logcenter_sdk_go.Validation.Defs.{validate_event}
use logcenter_sdk_go.Validation.Rules.{Present, OneOf, FieldsHaveJson, IsTime, Rules, IsValid}
use logcenter_sdk_go.Validation.Parts.{
  >>-none_iff, required_iff, str_mem_iff, json_fields_iff, IsTime-iff,
}
use logcenter_sdk_go.Validation.Kinds.{by_type_iff}

module _ (platform : Platform) (e : Event) where
  keys_iff :
      (err : Error)
      → (fail_if
            (not (is_blank e.idempotency_key)
              && not (trim_space e.event_id == trim_space e.idempotency_key))
            err
          ≡ none)
        ↔ ((is_blank e.idempotency_key ≡ true)
            ⊎ (trim_space e.event_id ≡ trim_space e.idempotency_key))
  keys_iff err = ground (arith, eq_iff (trim_space e.event_id) (trim_space e.idempotency_key))

classification_iff :
    (c : String)
    → (validate_classification c ≡ none)
      ↔ ((is_blank c ≡ true) ⊎ OneOf allowed_classifications (trim_space c))
unfolding validate_classification
classification_iff c = ground (arith, str_mem_iff allowed_classifications (trim_space c))

retention_hint_iff :
    (r : String)
    → (validate_retention_hint r ≡ none)
      ↔ ((is_blank r ≡ true) ⊎ OneOf allowed_retention_hints (trim_space r))
unfolding validate_retention_hint
retention_hint_iff r = ground (arith, str_mem_iff allowed_retention_hints (trim_space r))

module _ (platform : Platform) (e : Event) where
  -- The rules in the order of the checks.
  abbrev Parts : Type 0
  Parts =
      ((is_blank e.idempotency_key ≡ true) ⊎ (trim_space e.event_id ≡ trim_space e.idempotency_key))
      × (Present e.event_id
          × (Present e.event_type
              × (IsTime platform e.occurred_at
                  × (Present e.environment
                      × (Present e.service
                          × (((is_blank e.classification ≡ true)
                                ⊎ OneOf allowed_classifications (trim_space e.classification))
                              × (((is_blank e.retention_hint ≡ true)
                                    ⊎ OneOf allowed_retention_hints (trim_space e.retention_hint))
                                  × (FieldsHaveJson e.metadata
                                      × (FieldsHaveJson e.data_fields × Rules platform e)))))))))

  valid : Parts → IsValid platform e
  valid (p0, (p1, (p2, (p3, (p4, (p5, (p6, (p7, (p8, (p9, p10)))))))))) = record {
    keys_match = p0;
    event_id = p1;
    event_type = p2;
    occurred_at = p3;
    environment = p4;
    service = p5;
    classification = p6;
    retention_hint = p7;
    metadata = p8;
    data_fields = p9;
    rules = p10;
  }

  valid_parts : IsValid platform e → Parts
  valid_parts v = (
    v.keys_match,
    (
      v.event_id,
      (
        v.event_type,
        (
          v.occurred_at,
          (
            v.environment,
            (
              v.service,
              (v.classification, (v.retention_hint, (v.metadata, (v.data_fields, v.rules)))),
            ),
          ),
        ),
      ),
    ),
  )

-- `ValidateEvent` returns no error exactly for the events that the rules allow: the common rules on
-- keys, names, time, classification, retention and JSON, and the rules of the event's type.
pub validate_event_iff :
    (platform : Platform) (e : Event) → (validate_event platform e ≡ none) ↔ IsValid platform e
unfolding validate_event
validate_event_iff platform e =
    simp
      (
        >>-none_iff, keys_iff, required_iff, IsTime-iff, classification_iff, retention_hint_iff,
        json_fields_iff, by_type_iff,
      )
      (valid platform e, valid_parts platform e)
