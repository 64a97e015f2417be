-- ===== src/Exchange/Omitted.antt =====
-- What an event tells of a payload that is left out.
use logcenter_sdk_go.Base.{ℕ, String, List, [], ◌∷◌, Option, length, ◌≡◌, refl, arith}
use logcenter_sdk_go.Types.{Value, Entries, Event}
use logcenter_sdk_go.Times.{Clock}
use logcenter_sdk_go.Validation.Rules.{Present}
use logcenter_sdk_go.Exchange.Defs.{
  ExternalProviderExchange, no_payload, add_provider_payload_data, provider_data,
  add_provider_payload_metadata, provider_metadata, nil_if_empty,
  new_external_provider_exchange_event, provider_outcome, provider_names, provider_exchange_status,
}

no_payload-length : (p q : List ℕ) → length p ≡ length q → no_payload p ≡ no_payload q
no_payload-length [] [] h = refl
no_payload-length [] (b ∷ q) h = ground arith
no_payload-length (a ∷ p) [] h = ground arith
no_payload-length (a ∷ p) (b ∷ q) h = refl

metadata_of_length :
    (prefix : String) (p q : List ℕ) (reason : String) (es : Entries)
    → length p ≡ length q
    → add_provider_payload_metadata prefix p reason es
      ≡ add_provider_payload_metadata prefix q reason es
unfolding add_provider_payload_metadata
metadata_of_length prefix p q reason es h = rw (h, no_payload-length p q h) refl

module _ (decode_json : List ℕ → Option Value) where
  data_without :
      (prefix : String) (p q : List ℕ) (reason : String) (es : Entries)
      → Present reason
      → add_provider_payload_data decode_json prefix p reason es
        ≡ add_provider_payload_data decode_json prefix q reason es
  unfolding add_provider_payload_data
  data_without prefix p q reason es h = rw h refl

  module _ (clock : Clock) where
    -- The event as it depends on its metadata and data.
    abbrev with_parts : Event → Entries → Entries → Event
    with_parts event metadata fields = record event {
      metadata = nil_if_empty metadata;
      data_fields = nil_if_empty fields;
    }

    -- If there is a reason for leaving out the payload of the request, the event tells nothing of the payload
    -- but its length: it is the same for any two payloads of the same length.
    pub request_payload_omitted :
        (exchange : ExternalProviderExchange) (p q : List ℕ)
        → Present exchange.request_omitted_reason
        → length p ≡ length q
        → new_external_provider_exchange_event clock decode_json
            (record exchange { request_payload_bytes = p })
          ≡ new_external_provider_exchange_event clock decode_json
              (record exchange { request_payload_bytes = q })
    unfolding new_external_provider_exchange_event provider_data provider_metadata provider_outcome
        provider_names provider_exchange_status
    request_payload_omitted exchange p q reason h =
        rw
          (
            data_without "provider_request" p q exchange.request_omitted_reason _ reason,
            metadata_of_length "provider_request" p q exchange.request_omitted_reason _ h,
          )
          refl

    -- The same holds of the payload of the response.
    pub response_payload_omitted :
        (exchange : ExternalProviderExchange) (p q : List ℕ)
        → Present exchange.response_omitted_reason
        → length p ≡ length q
        → new_external_provider_exchange_event clock decode_json
            (record exchange { response_payload_bytes = p })
          ≡ new_external_provider_exchange_event clock decode_json
              (record exchange { response_payload_bytes = q })
    unfolding new_external_provider_exchange_event provider_data provider_metadata provider_outcome
        provider_names provider_exchange_status
    response_payload_omitted exchange p q reason h =
        rw
          (
            data_without "provider_response" p q exchange.response_omitted_reason _ reason,
            metadata_of_length "provider_response" p q exchange.response_omitted_reason _ h,
          )
          refl
