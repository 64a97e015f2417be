-- ===== src/Client/Delivered.antt =====
-- What a batch that was sent does to the outbox.
use logcenter_sdk_go.Base.{
  ℕ, zero, suc, pos, len, List, ◌∷◌, Bool, false, ◌&&◌, Option, none, some, length, ltb_ℤ, is_blank,
  ◌⊎◌, inl, inr, ◌≡◌, ◌≢◌, refl, ap, ◌∙◌, arith, Bool-cases, Option-cases, Sum-cases,
}
use logcenter_sdk_go.Types.{Event, BatchRequest, BatchResponse}
use logcenter_sdk_go.Errors.{Error, is_retryable, endpoint_empty, api_key_empty}
use logcenter_sdk_go.Json.{marshal_batch}
use logcenter_sdk_go.Outbox.{remove, event_ids}
use logcenter_sdk_go.Client.Defs.{
  World, Client, record_batch_failure, record_event_rejections, add_sent, add_failed,
}
use logcenter_sdk_go.Client.Send.{
  post_body, post_batch, batch_accepted, attempt, attempts, batch_request, send_batch_internal,
}
use logcenter_sdk_go.Client.Quiet.{
  quiet-record_batch_failure, quiet-record_event_rejections, quiet-remove_outbox,
}
use logcenter_sdk_go.Client.Attempts.{quiet-batch_accepted}

module _ (world : World) where
  -- What a sent batch has done to the outbox, at some time.
  abbrev pub Removed : Client → List Event → Client → Type 0
  Removed before events after =
      (after.config ≡ before.config)
      × (n : ℕ) × (after.outbox
          ≡ (remove world.platform (world.outbox_faults n) before.outbox (event_ids events)).0)

  -- What a batch that failed has done to it: nothing.
  abbrev pub Untouched : Client → Client → Type 0
  Untouched before after = (after.outbox ≡ before.outbox) × (after.config ≡ before.config)

  failed-Untouched :
      (err : Option Error) (events : List Event) (client : Client)
      → Untouched client (record_batch_failure err events client)
  unfolding add_failed
  failed-Untouched err events client =
      let h = quiet-record_batch_failure err events client in
      (ap (λ (c : Client). c.outbox) h, ap (λ (c : Client). c.config) h)

  Untouched-from :
      (before middle after : Client)
      → Untouched before middle
      → Untouched middle after
      → Untouched before after
  Untouched-from before middle after (o, c) (p, d) = (p ∙ o, d ∙ c)

  post_batch-keeps :
      (payload : BatchRequest) (client : Client)
      → Untouched client (post_batch world payload client).0
  unfolding post_batch post_body
  post_batch-keeps payload client = elim (Option-cases (marshal_batch payload)) [
    | inl h ↦ rw (h, post_batch) (refl, refl)
    | inr (body, h) ↦
        elim (Bool-cases (
          ltb_ℤ (pos 0) client.config.max_batch_bytes
          && ltb_ℤ client.config.max_batch_bytes (pos (len body)))) [
            | inl b ↦ rw (h, b, post_batch, post_body) (refl, refl)
            | inr b ↦ rw (h, b, post_batch, post_body) (refl, refl)
          ]
  ]

  batch_accepted-Removed :
      (events : List Event) (reject_as_error : Bool) (r : BatchResponse) (client : Client)
      → Removed client events (batch_accepted world events reject_as_error r client).0
  unfolding add_sent
  batch_accepted-Removed events reject_as_error r client =
      let counted = add_sent (length events) r client in
      let h =
        quiet-batch_accepted world events reject_as_error r client
        ∙ quiet-remove_outbox world events (record_event_rejections events r.errors counted) in
      let k = quiet-record_event_rejections events r.errors counted in
      (
        ap (λ (c : Client). c.config) h ∙ ap (λ (c : Client). c.config) k,
        (record_event_rejections events r.errors counted).ticks,
        ap (λ (c : Client). c.outbox) h
            ∙ ap
                (λ (c : Client).
                  (remove world.platform
                    (world.outbox_faults (record_event_rejections events r.errors counted).ticks)
                    c.outbox (event_ids events)).0)
                k,
      )

  Removed-from :
      (events : List Event) (before middle after : Client)
      → middle.outbox ≡ before.outbox
      → middle.config ≡ before.config
      → Removed middle events after
      → Removed before events after
  Removed-from events before middle after o c (d, n, r) = (
    d ∙ c,
    n,
    r
        ∙ ap (λ outbox. (remove world.platform (world.outbox_faults n) outbox (event_ids events)).0)
            o,
  )

  abbrev pub FailedOrRemoved : Client → List Event → Client × Option Error → Type 0
  FailedOrRemoved before events r = (r.1 ≢ none) × Untouched before r.0 ⊎ Removed before events r.0

  -- One round of the loop, given what is known of the rounds after it.
  round :
      (left : ℕ) (payload : BatchRequest) (reject_as_error : Bool) (last_err : Option Error)
      → (client : Client)
      → ((err : Error)
          → FailedOrRemoved (post_batch world payload client).0 payload.events (
              attempt world left payload reject_as_error
                (some err)
                (post_batch world payload client).0))
      → FailedOrRemoved client payload.events
          (attempt world (suc left) payload reject_as_error last_err client)
  unfolding attempt
  round left payload reject_as_error last_err client later =
      let sent = (post_batch world payload client).0 in
      let (o, c) = post_batch-keeps payload client in
      elim (Sum-cases (post_batch world payload client).1) [
        | inr (r, h) ↦
            let accepted = batch_accepted world payload.events reject_as_error r sent in
            rw (h, attempt)
              (inr (
                Removed-from payload.events client sent accepted.0 o c
                  (batch_accepted-Removed payload.events reject_as_error r sent)))
        | inl (err, h) ↦ elim (Bool-cases (is_retryable err)) [
          | inr t ↦
              let failed = record_batch_failure (some err) payload.events sent in
              rw (h, t, attempt)
                (inl (
                  ground arith,
                  Untouched-from client sent failed (o, c)
                      (failed-Untouched (some err) payload.events sent),
                ))
          | inl t ↦ elim (later err) [
            | inl (e, u) ↦
                let next = attempt world left payload reject_as_error (some err) sent in
                rw (h, t, attempt) (inl (e, Untouched-from client sent next.0 (o, c) u))
            | inr r ↦
                let next = attempt world left payload reject_as_error (some err) sent in
                rw (h, t, attempt) (inr (Removed-from payload.events client sent next.0 o c r))
          ]
        ]
      ]

  retried :
      (left : ℕ) (payload : BatchRequest) (reject_as_error : Bool) (err : Error) (client : Client)
      → FailedOrRemoved client payload.events
          (attempt world left payload reject_as_error (some err) client)
  unfolding attempt
  retried zero payload reject_as_error err client =
      inl (ground arith, failed-Untouched (some err) payload.events client)
  retried (suc left) payload reject_as_error err client =
      round left payload reject_as_error (some err) client
        (λ e. retried left payload reject_as_error e (post_batch world payload client).0)

  pub sent-or-failed :
      (event : Event) (events : List Event) (client : Client) (retries : ℕ)
      → attempts world client ≡ suc retries
      → FailedOrRemoved client
          (event ∷ events)
          (send_batch_internal world (event ∷ events) false client)
  unfolding send_batch_internal
  sent-or-failed event events client retries h =
      let payload = batch_request world (event ∷ events) client in
      let ticked = record client { ticks = suc client.ticks } in
      elim (Bool-cases (is_blank client.config.endpoint)) [
        | inl b ↦
            rw (b, send_batch_internal)
              (inl (ground arith, failed-Untouched (some endpoint_empty) (event ∷ events) client))
        | inr b ↦ elim (Bool-cases (is_blank client.config.api_key)) [
          | inl k ↦
              rw (b, k, send_batch_internal)
                (inl (ground arith, failed-Untouched (some api_key_empty) (event ∷ events) client))
          | inr k ↦
              rw (b, k, h, send_batch_internal)
                (unfold batch_request in
                  round retries payload false none ticked
                    (λ e. retried retries payload false e (post_batch world payload ticked).0))
        ]
      ]
