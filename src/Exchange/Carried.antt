-- ===== src/Exchange/Carried.antt =====
-- Which exchanges pass the checks, and what is not carried where a payload is left out.
use logcenter_sdk_go.Base.{
  ℕ, String, List, Bool, true, false, Option, none, some, ◌==◌, ◌&&◌, trim_space, ◌≡◌, ◌↔◌, ◌⊎◌,
  inl, inr, refl, sym, ◌∙◌, Bool-cases, arith,
}
use logcenter_sdk_go.Types.{Value, Entries, end, entry}
use logcenter_sdk_go.Platform.{Platform}
use logcenter_sdk_go.Times.{Clock}
use logcenter_sdk_go.Limit.Values.{put}
use logcenter_sdk_go.Validation.{validate_by_type, validate_kind, kind_of}
use logcenter_sdk_go.Validation.{no_fields}
use logcenter_sdk_go.Validation.Rules.{Present}
use logcenter_sdk_go.Validation.Kinds.{exchange_iff}
use logcenter_sdk_go.Requests.Present.{trimmed_or-Present}
use logcenter_sdk_go.Exchange.Defs.{
  ExternalProviderExchange, copy_or_empty, nil_if_empty, no_payload, payload_entries,
  add_provider_payload_data, provider_data, new_external_provider_exchange_event,
}

abbrev is_empty : Entries → Bool
is_empty end = true
is_empty (entry k v es) = false

is_empty-put : (k : String) (v : Value) (es : Entries) → is_empty (put k v es) ≡ false
unfolding put
is_empty-put k v end = refl
is_empty-put k v (entry j w es) = elim (Bool-cases (j == k)) [
  | inl e ↦ rw e refl
  | inr e ↦ rw e refl
]

is_empty-payload_entries :
    (prefix : String) (payload : List ℕ) (o : Option Value) (es : Entries)
    → is_empty (payload_entries prefix payload o es) ≡ false
unfolding payload_entries
is_empty-payload_entries prefix payload (some value) es = is_empty-put _ _ _
is_empty-payload_entries prefix payload none es = is_empty-put _ _ _

module _ (decode_json : List ℕ → Option Value) where
  is_empty-add_provider_payload_data :
      (prefix : String) (payload : List ℕ) (reason : String) (es : Entries)
      → is_empty (add_provider_payload_data decode_json prefix payload reason es)
        ≡ (trim_space reason == "" && no_payload payload && is_empty es)
  unfolding add_provider_payload_data
  is_empty-add_provider_payload_data prefix payload reason es =
      elim (Bool-cases (trim_space reason == "")) [
        | inr e ↦ rw e (is_empty-put _ _ _)
        | inl e ↦ rw e (elim (Bool-cases (no_payload payload)) [
          | inl n ↦ rw n refl
          | inr n ↦ rw n (is_empty-payload_entries prefix payload (decode_json payload) es)
        ])
      ]

no_fields-nil_if_empty : (es : Entries) → no_fields (nil_if_empty es) ≡ is_empty es
unfolding nil_if_empty
no_fields-nil_if_empty end = refl
no_fields-nil_if_empty (entry k v es) = refl

no_fields-copy : (fields : _) → is_empty (copy_or_empty fields) ≡ no_fields fields
no_fields-copy none = refl
no_fields-copy (some end) = refl
no_fields-copy (some (entry k v es)) = refl

parts_iff :
    (a b c d e : Bool)
    → ((a && b && (c && d && e)) ≡ false)
      ↔ ((e ≡ false) ⊎ ((c ≡ false) ⊎ (d ≡ false)) ⊎ ((a ≡ false) ⊎ (b ≡ false)))
parts_iff a b c d e = ground arith

type-Present : Present "external_provider_exchange"
unfolding trim_space
type-Present = refl

module _ (platform : Platform) (clock : Clock) (decode_json : List ℕ → Option Value) where
  is_empty-provider_data :
      (exchange : ExternalProviderExchange)
      → is_empty (provider_data decode_json exchange) ≡ (
          trim_space exchange.response_omitted_reason == ""
          && no_payload exchange.response_payload_bytes
          && (trim_space exchange.request_omitted_reason == ""
              && no_payload exchange.request_payload_bytes
              && no_fields exchange.data_fields))
  unfolding provider_data
  is_empty-provider_data exchange =
      rw
        (
          is_empty-add_provider_payload_data decode_json "provider_response"
              exchange.response_payload_bytes exchange.response_omitted_reason _,
          is_empty-add_provider_payload_data decode_json "provider_request"
              exchange.request_payload_bytes exchange.request_omitted_reason _,
          no_fields-copy exchange.data_fields,
        )
        refl

  -- The event of an exchange passes the checks of its type just if there is something in its data: fields
  -- of the caller, or a payload or a reason for leaving it out, of the request or of the response. An
  -- exchange with metadata only is refused.
  pub exchange_event_iff :
      (exchange : ExternalProviderExchange)
      → (validate_by_type platform (new_external_provider_exchange_event clock decode_json exchange)
          ≡ none)
        ↔ ((no_fields exchange.data_fields ≡ false)
            ⊎ (Present exchange.request_omitted_reason
                ⊎ (no_payload exchange.request_payload_bytes ≡ false))
            ⊎ (Present exchange.response_omitted_reason
                ⊎ (no_payload exchange.response_payload_bytes ≡ false)))
  unfolding validate_by_type validate_kind kind_of new_external_provider_exchange_event
  exchange_event_iff exchange =
      let event = new_external_provider_exchange_event clock decode_json exchange in
      let (to, from) = exchange_iff platform event in
      let (out, back) = parts_iff _ _ _ _ _ in
      let empty =
        no_fields-nil_if_empty (provider_data decode_json exchange)
        ∙ is_empty-provider_data exchange in
      let operation =
        trimmed_or-Present exchange.operation "external_provider_exchange" type-Present in
      (λ h. let valid = to h in out (sym empty ∙ valid.1), λ h. from (operation, empty ∙ back h))
