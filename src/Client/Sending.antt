-- ===== src/Client/Sending.antt =====
-- What a client needs to send whatever is pending, and that it keeps it.
use logcenter_sdk_go.Base.{
  ℕ, suc, List, [], ◌∷◌, false, Option, none, some, ◌⊎◌, ◌≡◌, ap, ◌∙◌, inl, inr,
}
use logcenter_sdk_go.Types.{Event}
use logcenter_sdk_go.Errors.{Error}
use logcenter_sdk_go.Queue.{drain}
use logcenter_sdk_go.Outbox.{DurableOutbox, remove, event_ids}
use logcenter_sdk_go.Outbox.Faultless.{IsFaultless}
use logcenter_sdk_go.Client.Defs.{World, Client}
use logcenter_sdk_go.Client.Send.{attempts, send_batch_internal, send_drained, send_round}
use logcenter_sdk_go.Client.Delivered.{FailedOrRemoved, sent-or-failed}
use logcenter_sdk_go.Client.Rounds.{IsReady, attempts-config, left-IsReady}

-- There is at least one attempt for a batch, and there is no outbox, or it can be sent.
abbrev pub IsSending : World → ℕ → Client → Type 0
IsSending world retries client =
    (attempts world client ≡ suc retries)
    × ((client.outbox ≡ none) ⊎ (outbox : DurableOutbox) × IsReady world retries client outbox)

module _ (world : World) where
  pub send_round-none :
      (client : Client) → client.outbox ≡ none → send_round world client ≡ (client, some none)
  unfolding send_round
  send_round-none client h = simp (h, send_round)

module _ (world : World) (retries : ℕ)
    (faultless : (n : ℕ) → IsFaultless (world.outbox_faults n)) where
  -- Sent or not, a batch leaves the client sending.
  left-IsSending :
      (before : Client) (events : List Event) (r : Client × Option Error)
      → IsSending world retries before
      → FailedOrRemoved world before events r
      → IsSending world retries r.0
  unfolding remove
  left-IsSending before events r (enough, inr (outbox, ready)) outcome =
      let (next, ready') =
        left-IsReady world retries faultless outbox before events r ready outcome in
      (ready'.0, inr (next, ready'))
  left-IsSending before events r (enough, inl h) (inl (failed, (o, c))) =
      (attempts-config world before r.0 c ∙ enough, inl (o ∙ h))
  left-IsSending before events r (enough, inl h) (inr (c, n, o)) = (
    attempts-config world before r.0 c ∙ enough,
    inl (o ∙ ap (λ ob. (remove world.platform (world.outbox_faults n) ob (event_ids events)).0) h),
  )

  batch-IsSending :
      (events : List Event) (client : Client)
      → IsSending world retries client
      → IsSending world retries (send_batch_internal world events false client).0
  unfolding send_batch_internal
  batch-IsSending [] client h = h
  batch-IsSending (event ∷ events) client h =
      left-IsSending client (event ∷ events)
        (send_batch_internal world (event ∷ events) false client) h
        (sent-or-failed world event events client retries h.0)

  pub drained-IsSending :
      (client : Client)
      → IsSending world retries client
      → IsSending world retries (send_drained world client).0
  unfolding send_drained attempts
  drained-IsSending client h =
      let r = drain client.queue client.config.batch_size in
      batch-IsSending r.1 (record client { queue = r.0 }) h
