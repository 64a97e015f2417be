-- ===== src/Exchange/Outcome.antt =====
-- How the outcome of an exchange is told.
use Prim.Native.String.{◌++◌}
use logcenter_sdk_go.Base.{
  ℕ, ℤ, pos, negsuc, String, List, Bool, true, false, Option, none, some, ◌==◌, ◌&&◌, ◌||◌, not,
  if◌then◌else◌, leb_ℤ, ltb_ℤ, trim_space, ◌≡◌, refl, sym, ap, ◌∙◌, arith, if-true,
}
use logcenter_sdk_go.Types.{Value, bool, Entries, end, entry}
use logcenter_sdk_go.Times.{Time, Clock}
use logcenter_sdk_go.Limit.Values.{lookup}
use logcenter_sdk_go.Limit.Maps.{field_of, lookup-put, lookup-put_other}
use logcenter_sdk_go.Exchange.Defs.{
  ExternalProviderExchange, nil_if_empty, put_if, is_positive, set_field_string,
  add_provider_payload_metadata, provider_exchange_status, set_field_time, succeeded,
  provider_outcome, provider_metadata, new_external_provider_exchange_event,
}

field_of-nil_if_empty :
    (key : String) (es : Entries) → field_of key (nil_if_empty es) ≡ lookup key es
unfolding nil_if_empty lookup
field_of-nil_if_empty key end = refl
field_of-nil_if_empty key (entry k v es) = refl

module _ (key other : String) (apart : other == key ≡ false) where
  lookup-put_if :
      (b : Bool) (v : Value) (es : Entries) → lookup key (put_if b other v es) ≡ lookup key es
  lookup-put_if true v es = lookup-put_other key other v es apart
  lookup-put_if false v es = refl

  lookup-set_field_string :
      (value : String) (es : Entries) → lookup key (set_field_string other value es) ≡ lookup key es
  unfolding set_field_string
  lookup-set_field_string value es = lookup-put_if _ _ es

  lookup-set_field_time :
      (clock : Clock) (t : Option Time) (es : Entries)
      → lookup key (set_field_time clock other t es) ≡ lookup key es
  unfolding set_field_time
  lookup-set_field_time clock none es = refl
  lookup-set_field_time clock (some t) es = lookup-put_other key other _ es apart

lookup-payload :
    (key prefix : String) (payload : List ℕ) (reason : String) (es : Entries)
    → prefix ++ "_payload_omitted_reason" == key ≡ false
    → prefix ++ "_payload_size_bytes" == key ≡ false
    → lookup key (add_provider_payload_metadata prefix payload reason es) ≡ lookup key es
unfolding add_provider_payload_metadata
lookup-payload key prefix payload reason es h k =
    lookup-set_field_string key (prefix ++ "_payload_omitted_reason") h reason _
    ∙ lookup-put_if key (prefix ++ "_payload_size_bytes") k _ _ es

lookup-put_if_set :
    (key : String) (b : Bool)
    → b ≡ true
    → (v : Value) (es : Entries) → lookup key (put_if b key v es) ≡ some v
lookup-put_if_set key b h v es = rw h (lookup-put key v es)

-- The word that the tests choose.
word :
    (a b c : Bool)
    → ((if not a || not b || c then "failed" else "success") == "success") ≡ (a && b && not c)
word true true true = refl
word true true false = refl
word true false c = refl
word false b c = refl

ltb-400 : (z : ℤ) → ltb_ℤ z (pos 400) ≡ not (leb_ℤ (pos 400) z)
ltb-400 (pos n) = ground arith
ltb-400 (negsuc n) = ground arith

abbrev success_key : String
success_key = "provider_success"

module _ (clock : Clock) (decode_json : List ℕ → Option Value) where
  -- Nothing that is set after it changes the entry of the success.
  success-provider_metadata :
      (exchange : ExternalProviderExchange)
      → lookup success_key (provider_metadata clock exchange)
        ≡ lookup success_key (provider_outcome clock exchange)
  unfolding provider_metadata
  success-provider_metadata exchange =
      lookup-set_field_string success_key "provider_error" refl _ _
      ∙ lookup-set_field_string success_key "provider_error_code" refl _ _
      ∙ lookup-payload success_key "provider_response" _ _ _ refl refl
      ∙ lookup-payload success_key "provider_request" _ _ _ refl refl
      ∙ lookup-set_field_time success_key "provider_finished_at" refl clock _ _
      ∙ lookup-set_field_time success_key "provider_started_at" refl clock _ _
      ∙ lookup-put_if success_key "provider_duration_ms" refl _ _ _

  status-success :
      (exchange : ExternalProviderExchange)
      → is_positive exchange.status_code ≡ true
      → (provider_exchange_status exchange == "success") ≡ succeeded clock exchange
  unfolding provider_exchange_status
  status-success exchange h =
      rw (h, ltb-400 exchange.status_code)
        (word (exchange.error_code == "") (exchange.error_message == "")
          (leb_ℤ (pos 400) exchange.status_code))

  -- Where the exchange has a status code and no status of its own, the status of the event and the entry
  -- `provider_success` of its metadata agree: the entry is true just if the status is success.
  pub exchange_outcome :
      (exchange : ExternalProviderExchange)
      → is_positive exchange.status_code ≡ true
      → trim_space exchange.status == "" ≡ true
      → let event = new_external_provider_exchange_event clock decode_json exchange in
        field_of success_key event.metadata ≡ some (bool (event.status == "success"))
  unfolding new_external_provider_exchange_event provider_outcome
  exchange_outcome exchange h s =
      field_of-nil_if_empty success_key (provider_metadata clock exchange)
      ∙ success-provider_metadata exchange
      ∙ lookup-put_if_set success_key (is_positive exchange.status_code) h _ _
      ∙ ap (λ b. some (bool b)) (sym (status-success exchange h))
      ∙ ap (λ (t : String). some (bool (t == "success")))
          (sym (if-true _ (provider_exchange_status exchange) (trim_space exchange.status) s))
