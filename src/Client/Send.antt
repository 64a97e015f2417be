-- ===== src/Client/Send.antt =====
-- Batches on their way to the server.
use logcenter_sdk_go.Base.{
  ℕ, zero, suc, pos, String, len, List, [], ◌∷◌, ◌++◌, Bool, true, false, Option, none, some, ◌&&◌,
  ◌||◌, if◌then◌else◌, leb_ℤ, ltb_ℤ, ◌+ℤ◌, wrap_int64, to_nat, is_blank, length, ◌⊎◌, inl, inr,
}
use logcenter_sdk_go.Types.{Event, BatchRequest, BatchResponse}
use logcenter_sdk_go.Errors.{
  Error, endpoint_empty, api_key_empty, client_closed, batch_too_large, http_error, rejected_events,
  failure, is_retryable,
}
use logcenter_sdk_go.Json.{marshal_batch}
use logcenter_sdk_go.Redaction.{redact_fields}
use logcenter_sdk_go.Queue.{drain}
use logcenter_sdk_go.Context.{Context, new_id, with_context_fields}
use logcenter_sdk_go.Outbox.{peek}
use logcenter_sdk_go.Client.Defs.{
  Reply, no_response, response, World, Client, set_client_error, record_batch_failure,
  record_event_rejections, add_sent, remove_outbox, persist_outbox,
}
use logcenter_sdk_go.Client.Enqueue.{prepare_event, drop_event, drop_invalid}

abbrev posted : List String → String → List String
posted posts body = posts ++ body ∷ []

-- `if err := …; err != nil { return err }` in the loop of `sendOutbox`.
abbrev pub ended_by : Option Error → Option (Option Error)
ended_by none = none
ended_by (some err) = some (some err)

module _ (world : World) where
  -- What a reply is worth.
  unfoldable pub read_reply : Reply → Error ⊎ BatchResponse
  read_reply (no_response text) = inl (failure text)
  read_reply (response status_code body) =
      if ltb_ℤ status_code (pos 200) || leb_ℤ (pos 300) status_code
      then inl (http_error status_code body)
      else elim (world.decode_response body) [
        | none ↦ inl (failure "decode batch response")
        | some r ↦ inr r
      ]

  unfoldable pub post_body : String → Client → Client × (Error ⊎ BatchResponse)
  post_body body client =
      if ltb_ℤ (pos 0) client.config.max_batch_bytes
        && ltb_ℤ client.config.max_batch_bytes (pos (len body))
      then (client, inl (batch_too_large client.config.max_batch_bytes (len body)))
      else (
        record client { ticks = suc client.ticks; posts = posted client.posts body },
        read_reply (world.reply client.ticks body),
      )

  unfoldable pub post_batch : BatchRequest → Client → Client × (Error ⊎ BatchResponse)
  post_batch payload client = elim (marshal_batch payload) [
    | none ↦ (client, inl (failure "encode batch"))
    | some body ↦ post_body body client
  ]

  -- A batch that the server has taken, with what it says of each event.
  unfoldable pub batch_accepted : List Event → Bool → BatchResponse → Client → Client × Option Error
  batch_accepted events reject_as_error r client =
      let after =
        remove_outbox world events
          (record_event_rejections events r.errors (add_sent (length events) r client)) in
      if reject_as_error && ltb_ℤ (pos 0) r.rejected
      then (
        set_client_error (some (rejected_events r.errors r.rejected)) after,
        some (rejected_events r.errors r.rejected),
      )
      else (after, none)

  -- The loop of `sendBatchInternal`, with the attempts that are left. Between two attempts it sleeps.
  unfoldable pub attempt : ℕ → BatchRequest → Bool → Option Error → Client → Client × Option Error
  attempt zero payload reject_as_error last_err client =
      (record_batch_failure last_err payload.events client, last_err)
  attempt (suc left) payload reject_as_error last_err client =
      let (sent, result) = post_batch payload client in
      elim result [
        | inr r ↦ batch_accepted payload.events reject_as_error r sent
        | inl err ↦ elim (is_retryable err) [
          | false ↦ (record_batch_failure (some err) payload.events sent, some err)
          | true ↦ attempt left payload reject_as_error (some err) sent
        ]
      ]

  unfoldable pub attempts : Client → ℕ
  attempts client = to_nat (wrap_int64 (client.config.retry_attempts +ℤ pos 1))

  unfoldable pub batch_request : List Event → Client → BatchRequest
  batch_request events client = record {
    batch_id = new_id "bt_" (world.random client.ticks);
    sent_at = world.now client.ticks;
    source = redact_fields world.platform client.redactor client.config.source;
    events = events;
  }

  unfoldable pub send_batch_internal : List Event → Bool → Client → Client × Option Error
  send_batch_internal [] reject_as_error client = (client, none)
  send_batch_internal (event ∷ events) reject_as_error client =
      if is_blank client.config.endpoint
      then (record_batch_failure (some endpoint_empty) (event ∷ events) client, some endpoint_empty)
      else if is_blank client.config.api_key
      then (record_batch_failure (some api_key_empty) (event ∷ events) client, some api_key_empty)
      else attempt (attempts client) (batch_request (event ∷ events) client) reject_as_error none
          (record client { ticks = suc client.ticks })

  -- One round of `sendQueued` that has taken a batch.
  unfoldable pub send_drained : Client → Client × Option Error
  send_drained client =
      let (queue, events) = drain client.queue client.config.batch_size in
      send_batch_internal events false (record client { queue = queue })

  -- `if err != nil && firstErr == nil`.
  unfoldable pub first_of : Option Error → Option Error → Option Error
  first_of none err = err
  first_of (some first) err = some first

  -- The first loop of `sendQueued`. A round makes the buffer shorter, so that as many rounds as it has
  -- events are enough.
  unfoldable pub drain_all : ℕ → Option Error → Client → Client × Option Error
  drain_all zero first_err client = (client, first_err)
  drain_all (suc rounds) first_err client = elim client.queue.events [
    | [] ↦ (client, first_err)
    | event ∷ events ↦
        let (after, err) = send_drained client in drain_all rounds (first_of first_err err) after
  ]

  -- What follows the `Peek` of a round. The panic of `Peek`, at a negative batch size, which `normalized`
  -- does not let through, ends the loop like an error.
  unfoldable pub send_peeked :
      Client → Option (List Event × Option Error) → Client × Option (Option Error)
  send_peeked client none = (client, some (some (failure "panic: makeslice: cap out of range")))
  send_peeked client (some (events, some e)) = (set_client_error (some e) client, some (some e))
  send_peeked client (some ([], none)) = (client, some none)
  send_peeked client (some (event ∷ rest, none)) =
      let (after, failed) = send_batch_internal (event ∷ rest) false client in
      (after, ended_by failed)

  -- One round of the loop of `sendOutbox`, with what the loop returns if it ends there.
  unfoldable pub send_round : Client → Client × Option (Option Error)
  send_round client = elim client.outbox [
    | none ↦ (client, some none)
    | some outbox ↦
        send_peeked (record client { ticks = suc client.ticks })
          (peek world.platform (world.outbox_faults client.ticks).open_fails client.outbox
            client.config.batch_size)
  ]

  -- `sendOutbox`, `none` where the rounds do not suffice.
  unfoldable pub send_outbox : ℕ → Client → Option (Client × Option Error)
  send_outbox zero client = none
  send_outbox (suc rounds) client =
      let (after, ended) = send_round client in
      elim ended [ some err ↦ some (after, err) | none ↦ send_outbox rounds after ]

  unfoldable pub send_queued : ℕ → Client → Option (Client × Option Error)
  send_queued rounds client =
      let (drained, first_err) = drain_all (length client.queue.events) none client in
      elim first_err [ some err ↦ some (drained, some err) | none ↦ send_outbox rounds drained ]

  -- `SendEventSync` from the prepared event on.
  unfoldable pub send_now : Event → Client → Client × Option Error
  send_now event client =
      let (sent, err) = send_batch_internal (event ∷ []) true client in
      elim err [
        | none ↦ (sent, none)
        | some e ↦
            if is_retryable e
            then (persist_outbox world (event ∷ []) sent, some e)
            else (sent, some e)
      ]

  unfoldable pub send_event_sync : Context → Event → Client → Client × Option Error
  send_event_sync ctx event client =
      if client.disabled
      then (client, none)
      else if client.closed
      then (drop_event world event "client_closed" (some client_closed) client, some client_closed)
      else let prepared = prepare_event world (with_context_fields ctx event) client in
        elim prepared.err [
          | some err ↦ (drop_invalid world prepared.event err prepared.client, some err)
          | none ↦ send_now prepared.event prepared.client
        ]
