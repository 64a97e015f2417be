-- ===== src/Client/Accounted.antt =====
-- What becomes of an event that is offered to the buffer.
use mathlib.Core.List.{Perm}
use mathlib.Core.List.Perm
use logcenter_sdk_go.Base.{
  ℕ, String, List, [], ◌∷◌, ◌++◌, Bool, true, false, Option, none, some, add_uint64, ◌≡◌, refl, sym,
  ap, ◌∙◌, Bool-cases, Option-cases, inl, inr, subst, if-false,
}
use logcenter_sdk_go.Types.{Event}
use logcenter_sdk_go.Errors.{Error}
use logcenter_sdk_go.Queue.{EventQueue, QueuePushResult, push}
use logcenter_sdk_go.Queue.Policy.{push-perm, to_list}
use logcenter_sdk_go.Limit.{limit_event}
use logcenter_sdk_go.Outbox.{DurableOutbox, append, copy_events}
use logcenter_sdk_go.Client.Same.{deep_equal}
use logcenter_sdk_go.Client.Defs.{
  World, Client, add_dropped, add_queued, add_truncated, persist_outbox, signal,
}
use logcenter_sdk_go.Client.Enqueue.{
  Prepared, apply_tamper_evidence, checked, count_truncated, after_limit, prepare_event, drop_event,
  drop_invalid, after_push, push_prepared, enqueue,
}
use logcenter_sdk_go.Client.Quiet.{
  quiet-set_client_error, quiet-event_dropped, quiet-event_truncated, quiet-persist_outbox,
}

-- A counter that goes up by one, or not.
abbrev pub bump : Bool → ℕ → ℕ
bump true n = add_uint64 n 1
bump false n = n

abbrev pub is_some {ℓ} : {A : Type ℓ} → Option A → Bool
is_some none = false
is_some (some a) = true

-- The buffer, the two counters of it and the outbox.
abbrev pub Core : Type 0
Core = EventQueue × ℕ × ℕ × Option DurableOutbox

abbrev pub core : Client → Core
core client = (client.queue, client.stats.queued, client.stats.dropped, client.outbox)

module _ (world : World) where
  core-count_truncated :
      (before after : Event) (client : Client)
      → core (count_truncated world before after client) ≡ core client
  unfolding count_truncated add_truncated
  core-count_truncated before after client = elim (Bool-cases (deep_equal before after)) [
    | inl h ↦ rw h refl
    | inr h ↦ rw h (ap core (quiet-event_truncated before after "payload_limit" _))
  ]

  core-apply_tamper_evidence :
      (event : Event) (client : Client)
      → core (apply_tamper_evidence world event client).client ≡ core client
  unfolding apply_tamper_evidence
  core-apply_tamper_evidence event client = elim (Option-cases client.tamper) [
    | inl h ↦ rw (h, apply_tamper_evidence) refl
    | inr (t, h) ↦ rw (h, apply_tamper_evidence) refl
  ]

  core-checked : (prepared : Prepared) → core (checked world prepared).client ≡ core prepared.client
  unfolding checked
  core-checked prepared = elim (Option-cases prepared.err) [
    | inl h ↦ rw (h, checked) refl
    | inr (e, h) ↦ rw (h, checked) refl
  ]

  core-after_limit :
      (before : Event) (result : Event × Option Error) (client : Client)
      → core (after_limit world before result client).client ≡ core client
  unfolding after_limit
  core-after_limit before (limited, none) client =
      core-checked _ ∙ core-apply_tamper_evidence _ _ ∙ core-count_truncated _ _ _
  core-after_limit before (limited, some err) client = refl

  -- The preparation of an event leaves the buffer, its counters and the outbox alone.
  pub core-prepare_event :
      (event : Event) (client : Client)
      → core (prepare_event world event client).client ≡ core client
  unfolding prepare_event
  core-prepare_event event client = core-after_limit _ (limit_event client.limiter _) _

  -- What an event and the buffer before have become: `lost` is the event that was dropped, if any, and
  -- `before` is what `core` says of the client before.
  abbrev pub Accounted : Event → Core → Bool → Client → Type 0
  Accounted event before accepted after =
      (lost : Option Event) × Perm (event ∷ before.0.events) (to_list lost ++ after.queue.events)
      × (after.stats.queued ≡ bump accepted before.1)
      × (after.stats.dropped ≡ bump (is_some lost) before.2)

  Accounted-lost :
      (event : Event) (before after : Client)
      → core after ≡ core (add_dropped before)
      → Accounted event (core before) false after
  unfolding add_dropped
  Accounted-lost event before after h = (
    some event,
    subst (λ queue. Perm (event ∷ before.queue.events) (event ∷ queue.events))
        (sym (ap (λ c. c.0) h)) (Perm.refl _),
    ap (λ c. c.1) h,
    ap (λ c. c.2) h,
  )

  core-drop_invalid :
      (event : Event) (err : Error) (client : Client)
      → core (drop_invalid world event err client) ≡ core (add_dropped client)
  unfolding drop_invalid
  core-drop_invalid event err client =
      ap core (quiet-event_dropped event _ (some err) _)
      ∙ ap core (quiet-set_client_error (some err) (add_dropped client))

  core-drop_event :
      (event : Event) (reason : String) (err : Option Error) (client : Client)
      → core (drop_event world event reason err client) ≡ core (add_dropped client)
  unfolding drop_event
  core-drop_event event reason err client = ap core (quiet-event_dropped event reason err _)

  pub core-persist_outbox :
      (events : List Event) (client : Client)
      → core (persist_outbox world events client) ≡ (
        client.queue,
        client.stats.queued,
        client.stats.dropped,
        (append (world.outbox_faults client.ticks) client.outbox (copy_events events)).0,
      )
  core-persist_outbox events client = ap core (quiet-persist_outbox world events client)

  pub core-after_push :
      (queue : EventQueue) (result : QueuePushResult) (client : Client)
      → ((after_push world (queue, result) client).1 ≡ result.queued)
        × (core (after_push world (queue, result) client).0 ≡ (
          queue,
          bump result.queued client.stats.queued,
          bump (is_some result.dropped) client.stats.dropped,
          client.outbox,
        ))
  unfolding after_push signal add_queued add_dropped
  core-after_push queue result client = elim (Option-cases result.dropped) [
    | inl d ↦ elim (Bool-cases result.queued) [
      | inl q ↦ rw (d, q, after_push) (refl, refl)
      | inr q ↦ rw (d, q, after_push) (refl, refl)
    ]
    | inr (old, d) ↦
        let h = core-drop_event old result.drop_reason none (record client { queue = queue }) in
        elim (Bool-cases result.queued) [
          | inl q ↦
              rw (d, q, after_push) (refl, ap (λ (c : Core). (c.0, add_uint64 c.1 1, c.2, c.3)) h)
          | inr q ↦ rw (d, q, after_push) (refl, h)
        ]
  ]

  after_push-Accounted :
      (event : Event) (client : Client)
      → Accounted event
          (core client)
          (after_push world (push client.queue event) client).1
          (after_push world (push client.queue event) client).0
  after_push-Accounted event client =
      let (queue, result) = push client.queue event in
      let (a, h) = core-after_push queue result client in
      (
        result.dropped,
        subst
            (λ (q : EventQueue).
              Perm (event ∷ client.queue.events) (to_list result.dropped ++ q.events))
            (sym (ap (λ (c : Core). c.0) h)) (push-perm client.queue event),
        ap (λ (c : Core). c.1) h ∙ ap (λ b. bump b client.stats.queued) (sym a),
        ap (λ (c : Core). c.2) h,
      )

  push_prepared-Accounted :
      (prepared : Prepared)
      → Accounted prepared.event
          (core prepared.client)
          (push_prepared world prepared).1
          (push_prepared world prepared).0
  unfolding push_prepared
  push_prepared-Accounted prepared = elim (Option-cases prepared.err) [
    | inl h ↦
        let client = persist_outbox world (prepared.event ∷ []) prepared.client in
        rw (h, push_prepared)
          (subst
            (λ before.
              Accounted prepared.event before
                (after_push world (push client.queue prepared.event) client).1
                (after_push world (push client.queue prepared.event) client).0)
            (core-persist_outbox (prepared.event ∷ []) prepared.client)
            (after_push-Accounted prepared.event client))
    | inr (err, h) ↦
        rw (h, push_prepared)
          (Accounted-lost prepared.event prepared.client
            (drop_invalid world prepared.event err prepared.client)
            (core-drop_invalid prepared.event err prepared.client))
  ]

  pub enqueue-open :
      (event : Event) (client : Client)
      → client.disabled ≡ false
      → client.closed ≡ false
      → enqueue world event client ≡ push_prepared world (prepare_event world event client)
  unfolding enqueue
  enqueue-open event client d c = if-false client.disabled _ _ d ∙ if-false client.closed _ _ c

  -- An event that is offered to a client which is neither disabled nor closed goes into the buffer, or
  -- it is dropped, or it makes another event be dropped: as multisets, the event (as it was prepared)
  -- and the buffer before are the buffer after and the dropped event, if any. The counter of the
  -- queued events goes up just if the result is true, that of the dropped ones just if one was dropped.
  pub enqueue-Accounted :
      (event : Event) (client : Client)
      → client.disabled ≡ false
      → client.closed ≡ false
      → Accounted
          (prepare_event world event client).event
          (core client)
          (enqueue world event client).1
          (enqueue world event client).0
  enqueue-Accounted event client d c =
      let prepared = prepare_event world event client in
      subst (λ r. Accounted prepared.event (core client) r.1 r.0)
        (sym (enqueue-open event client d c))
        (subst
          (λ before.
            Accounted prepared.event before (push_prepared world prepared).1
              (push_prepared world prepared).0)
          (core-prepare_event event client) (push_prepared-Accounted prepared))
