-- ===== src/Client/Persisted.antt =====
-- What `enqueue` does to the outbox.
use logcenter_sdk_go.Base.{
  ℕ, [], ◌∷◌, ◌++◌, Bool, false, none, some, ◌≡◌, refl, sym, ap, ◌∙◌, subst,
}
use logcenter_sdk_go.Types.{Event}
use logcenter_sdk_go.Queue.{push}
use logcenter_sdk_go.Outbox.{DurableOutbox, append, copy_events}
use logcenter_sdk_go.Outbox.Pending.{pending, IsStorable, append-pending}
use logcenter_sdk_go.Outbox.Faultless.{IsFaultless}
use logcenter_sdk_go.Client.Defs.{World, Client, persist_outbox}
use logcenter_sdk_go.Client.Enqueue.{prepare_event, push_prepared, after_push, enqueue}
use logcenter_sdk_go.Client.Accounted.{
  core-prepare_event, core-persist_outbox, core-after_push, enqueue-open, Core,
}

module _ (world : World) where
  -- The outbox after an event that could be prepared has been offered, whether the buffer takes it or not.
  enqueue-outbox :
      (event : Event) (client : Client)
      → client.disabled ≡ false
      → client.closed ≡ false
      → (prepare_event world event client).err ≡ none
      → (n : ℕ) × ((enqueue world event client).0.outbox
          ≡ (append
              (world.outbox_faults n)
              client.outbox
              ((prepare_event world event client).event ∷ [])).0)
  unfolding push_prepared copy_events
  enqueue-outbox event client d c valid =
      let prepared = prepare_event world event client in
      let persisted = persist_outbox world (prepared.event ∷ []) prepared.client in
      let (queue, result) = push persisted.queue prepared.event in
      let h : push_prepared world prepared ≡ after_push world (queue, result) persisted =
        rw (valid, push_prepared) refl in
      (
        prepared.client.ticks,
        ap (λ (r : Client × Bool). r.0.outbox) (enqueue-open world event client d c ∙ h)
            ∙ ap (λ (k : Core). k.3) (core-after_push world queue result persisted).1
            ∙ ap (λ (k : Core). k.3)
                (core-persist_outbox world (prepared.event ∷ []) prepared.client)
            ∙ ap
                (λ (k : Core).
                  (append (world.outbox_faults prepared.client.ticks) k.3 (prepared.event ∷ [])).0)
                (core-prepare_event world event client),
      )

  -- For a client that is neither disabled nor closed: an event that could be prepared is behind the pending
  -- events of the outbox once `enqueue` has returned, even if the buffer was full and the result is false.
  -- Here the client has an outbox on whose file no call fails, and the prepared event can be encoded to a
  -- line that is short enough for the scanner and is decoded to the same event.
  pub enqueue-pending :
      (event : Event) (client : Client) (outbox : DurableOutbox)
      → client.disabled ≡ false
      → client.closed ≡ false
      → (prepare_event world event client).err ≡ none
      → client.outbox ≡ some outbox
      → ((n : ℕ) → IsFaultless (world.outbox_faults n))
      → IsStorable world.platform (prepare_event world event client).event
      → pending world.platform (enqueue world event client).0.outbox
        ≡ pending world.platform client.outbox ++ (prepare_event world event client).event ∷ []
  enqueue-pending event client outbox d c valid o faultless storable =
      let prepared = prepare_event world event client in
      let (n, h) = enqueue-outbox event client d c valid in
      let f = faultless n in
      ap (pending world.platform) h
      ∙ subst
          (λ ob.
            pending world.platform (append (world.outbox_faults n) ob (prepared.event ∷ [])).0
            ≡ pending world.platform ob ++ prepared.event ∷ [])
          (sym o)
          (append-pending world.platform (world.outbox_faults n) outbox (prepared.event ∷ []) f.0
            f.1 f.3 (storable, tt)).0
