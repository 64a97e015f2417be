-- ===== src/Validation/Kinds.antt =====
-- The rules of each type of event decide its checks.
use logcenter_sdk_go.Base.{
  ◌≡◌, ◌⊎◌, inl, inr, ◌↔◌, String, false, none, arith, subst, sym, ap, eq_iff, ◌==◌, ◌&&◌,
  Bool-cases,
}
use logcenter_sdk_go.Types.{Event}
use logcenter_sdk_go.Platform.{Platform}
use logcenter_sdk_go.Errors.{invalid_event}
use logcenter_sdk_go.Validation.Fields.{allowed_levels, is_null, no_fields, fail_if}
use logcenter_sdk_go.Validation.Defs.{
  validate_request_started_event, validate_request_finished_event, validate_span_event,
  validate_log_event, validate_error_event, validate_audit_event,
  validate_fiscal_provider_exchange_event, validate_kind, kind_of, EventKind, request_started_kind,
  request_finished_kind, span_kind, log_kind, error_kind, audit_kind, exchange_kind, unsupported,
  validate_by_type,
}
use logcenter_sdk_go.Validation.Rules.{
  Present, OneOf, HasJson, IsChangeList, HasDuration, IsStatus, IsTime, Rules, request_started,
  request_finished, span, log_event, error_event, audit_event, provider_exchange,
}
use logcenter_sdk_go.Validation.Parts.{
  >>-none_iff, required_iff, str_mem_iff, duration_iff, IsStatus-iff, json_value_iff, changes_iff,
  IsTime-iff,
}

-- A chain of checks gives nested pairs, where the rules are flat products.
nest_5 : {A B C D E : Type 0} → (A × (B × (C × (D × E)))) → (A × B × C × D × E)
nest_5 (a, (b, (c, (d, e)))) = (a, b, c, d, e)

flat_5 : {A B C D E : Type 0} → (A × B × C × D × E) → (A × (B × (C × (D × E))))
flat_5 (a, b, c, d, e) = (a, (b, (c, (d, e))))

nest_7 :
    {A B C D E F G : Type 0} → (A × (B × (C × (D × (E × (F × G)))))) → (A × B × C × D × E × F × G)
nest_7 (a, (b, (c, (d, (e, (f, g)))))) = (a, b, c, d, e, f, g)

flat_7 :
    {A B C D E F G : Type 0} → (A × B × C × D × E × F × G) → (A × (B × (C × (D × (E × (F × G))))))
flat_7 (a, b, c, d, e, f, g) = (a, (b, (c, (d, (e, (f, g))))))

module _ (platform : Platform) (e : Event) where
  pub started_iff : (validate_request_started_event platform e ≡ none) ↔ (
      Present e.request_id
      × Present e.trace_id
      × Present e.operation
      × IsTime platform e.started_at)
  unfolding validate_request_started_event
  started_iff = ground (arith, IsTime-iff platform "started_at" e.started_at)

  pub finished_iff : (validate_request_finished_event platform e ≡ none) ↔ (
      Present e.request_id
      × Present e.trace_id
      × IsStatus e.status
      × IsTime platform e.finished_at
      × HasDuration e.duration_ms)
  unfolding validate_request_finished_event
  finished_iff =
      simp (>>-none_iff, required_iff, IsStatus-iff, IsTime-iff, duration_iff) (nest_5, flat_5)

  pub span_iff : (validate_span_event platform e ≡ none) ↔ (
      Present e.trace_id
      × Present e.span_id
      × Present e.name
      × IsTime platform e.started_at
      × IsTime platform e.finished_at
      × HasDuration e.duration_ms
      × IsStatus e.status)
  unfolding validate_span_event
  span_iff =
      simp (>>-none_iff, required_iff, IsStatus-iff, IsTime-iff, duration_iff) (nest_7, flat_7)

  pub log_iff :
      (validate_log_event platform e ≡ none)
      ↔ (Present e.level × OneOf allowed_levels e.level × Present e.message)
  unfolding validate_log_event
  log_iff = ground (arith, str_mem_iff allowed_levels e.level)

  pub error_iff :
      (validate_error_event platform e ≡ none)
      ↔ ((Present e.error_code ⊎ Present e.error_message) × Present e.severity)
  unfolding validate_error_event
  error_iff = ground arith

  no_change_iff :
      (fail_if
          (is_null e.changes && is_null e.old_value && is_null e.new_value)
          (invalid_event "changes or old_value/new_value is required")
        ≡ none)
      ↔ ((is_null e.changes ≡ false)
          ⊎ (is_null e.old_value ≡ false)
          ⊎ (is_null e.new_value ≡ false))
  no_change_iff = ground arith

  pub audit_iff : (validate_audit_event platform e ≡ none) ↔ (
      Present e.action
      × Present e.entity_type
      × Present e.entity_id
      × ((is_null e.changes ≡ false)
          ⊎ (is_null e.old_value ≡ false)
          ⊎ (is_null e.new_value ≡ false))
      × (IsChangeList e.changes × HasJson e.changes)
      × HasJson e.old_value
      × HasJson e.new_value)
  unfolding validate_audit_event
  audit_iff =
      simp (>>-none_iff, required_iff, no_change_iff, changes_iff, json_value_iff) (nest_7, flat_7)

  pub exchange_iff :
      (validate_fiscal_provider_exchange_event platform e ≡ none)
      ↔ (Present e.operation × (no_fields e.data_fields ≡ false))
  unfolding validate_fiscal_provider_exchange_event
  exchange_iff = ground arith

  -- The rules of a kind of event.
  abbrev KindRules : EventKind → Type 0
  KindRules request_started_kind =
      Present e.request_id × Present e.trace_id × Present e.operation × IsTime platform e.started_at
  KindRules request_finished_kind =
      Present e.request_id
      × Present e.trace_id
      × IsStatus e.status
      × IsTime platform e.finished_at
      × HasDuration e.duration_ms
  KindRules span_kind =
      Present e.trace_id
      × Present e.span_id
      × Present e.name
      × IsTime platform e.started_at
      × IsTime platform e.finished_at
      × HasDuration e.duration_ms
      × IsStatus e.status
  KindRules log_kind = Present e.level × OneOf allowed_levels e.level × Present e.message
  KindRules error_kind = (Present e.error_code ⊎ Present e.error_message) × Present e.severity
  KindRules audit_kind =
      Present e.action
      × Present e.entity_type
      × Present e.entity_id
      × ((is_null e.changes ≡ false)
          ⊎ (is_null e.old_value ≡ false)
          ⊎ (is_null e.new_value ≡ false))
      × (IsChangeList e.changes × HasJson e.changes)
      × HasJson e.old_value
      × HasJson e.new_value
  KindRules exchange_kind = Present e.operation × (no_fields e.data_fields ≡ false)
  KindRules unsupported = ⊥

  kind_iff : (k : EventKind) → (validate_kind platform k e ≡ none) ↔ KindRules k
  unfolding validate_kind
  kind_iff request_started_kind = started_iff
  kind_iff request_finished_kind = finished_iff
  kind_iff span_kind = span_iff
  kind_iff log_kind = log_iff
  kind_iff error_kind = error_iff
  kind_iff audit_kind = audit_iff
  kind_iff exchange_kind = exchange_iff
  kind_iff unsupported = (λ h. cc, λ h. absurd h)

-- The types of a kind.
abbrev KindTypes : EventKind → String → Type 0
KindTypes request_started_kind t = t ≡ "request_started"
KindTypes request_finished_kind t = t ≡ "request_finished"
KindTypes span_kind t = t ≡ "span"
KindTypes log_kind t = t ≡ "log_event"
KindTypes error_kind t = t ≡ "error_event"
KindTypes audit_kind t = t ≡ "audit_event"
KindTypes exchange_kind t = (t ≡ "external_provider_exchange") ⊎ (t ≡ "fiscal_provider_exchange")
KindTypes unsupported t = Unit

kind_of-KindTypes : (t : String) → KindTypes (kind_of t) t
unfolding kind_of
kind_of-KindTypes t = elim (Bool-cases (t == "request_started")) [
  | inl h ↦ rw h ((eq_iff _ _).0 h)
  | inr h1 ↦ elim (Bool-cases (t == "request_finished")) [
    | inl h ↦ rw (h1, h) ((eq_iff _ _).0 h)
    | inr h2 ↦ elim (Bool-cases (t == "span")) [
      | inl h ↦ rw (h1, h2, h) ((eq_iff _ _).0 h)
      | inr h3 ↦ elim (Bool-cases (t == "log_event")) [
        | inl h ↦ rw (h1, h2, h3, h) ((eq_iff _ _).0 h)
        | inr h4 ↦ elim (Bool-cases (t == "error_event")) [
          | inl h ↦ rw (h1, h2, h3, h4, h) ((eq_iff _ _).0 h)
          | inr h5 ↦ elim (Bool-cases (t == "audit_event")) [
            | inl h ↦ rw (h1, h2, h3, h4, h5, h) ((eq_iff _ _).0 h)
            | inr h6 ↦ elim (Bool-cases (t == "external_provider_exchange")) [
              | inl h ↦ rw (h1, h2, h3, h4, h5, h6, h) (inl ((eq_iff _ _).0 h))
              | inr h7 ↦ elim (Bool-cases (t == "fiscal_provider_exchange")) [
                | inl h ↦ rw (h1, h2, h3, h4, h5, h6, h7, h) (inr ((eq_iff _ _).0 h))
                | inr h ↦ rw (h1, h2, h3, h4, h5, h6, h7, h) tt
              ]
            ]
          ]
        ]
      ]
    ]
  ]
]

module _ (platform : Platform) (e : Event) where
  Rules-of : (k : EventKind) → KindTypes k e.event_type → KindRules platform e k → Rules platform e
  Rules-of request_started_kind t r = request_started t r
  Rules-of request_finished_kind t r = request_finished t r
  Rules-of span_kind t r = span t r
  Rules-of log_kind t r = log_event t r
  Rules-of error_kind t r = error_event t r
  Rules-of audit_kind t r = audit_event t r
  Rules-of exchange_kind t r = provider_exchange t r
  Rules-of unsupported t r = absurd r

  KindRules-at : {k k' : EventKind} → k ≡ k' → KindRules platform e k' → KindRules platform e k
  KindRules-at h r = subst (KindRules platform e) (sym h) r

  KindRules-of : Rules platform e → KindRules platform e (kind_of e.event_type)
  unfolding kind_of
  KindRules-of (request_started t r) = KindRules-at (ap kind_of t) r
  KindRules-of (request_finished t r) = KindRules-at (ap kind_of t) r
  KindRules-of (span t r) = KindRules-at (ap kind_of t) r
  KindRules-of (log_event t r) = KindRules-at (ap kind_of t) r
  KindRules-of (error_event t r) = KindRules-at (ap kind_of t) r
  KindRules-of (audit_event t r) = KindRules-at (ap kind_of t) r
  KindRules-of (provider_exchange (inl t) r) = KindRules-at (ap kind_of t) r
  KindRules-of (provider_exchange (inr t) r) = KindRules-at (ap kind_of t) r

  pub by_type_iff : (validate_by_type platform e ≡ none) ↔ Rules platform e
  unfolding validate_by_type
  by_type_iff =
      let (to, from) = kind_iff platform e (kind_of e.event_type) in
      (
        λ h. Rules-of (kind_of e.event_type) (kind_of-KindTypes e.event_type) (to h),
        λ r. from (KindRules-of r),
      )
