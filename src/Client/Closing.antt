-- ===== src/Client/Closing.antt =====
-- When `run` ends, and what holds from then on.
use logcenter_sdk_go.Base.{
  String, List, [], ◌∷◌, ◌++◌, Bool, true, false, Option, none, some, ◌≡◌, refl, sym, ap, ◌∙◌,
  arith, ◌⊎◌, inl, inr, Bool-cases, if-true, if-false,
}
use logcenter_sdk_go.Types.{Event}
use logcenter_sdk_go.Errors.{Error, client_closed}
use logcenter_sdk_go.Context.{Context}
use logcenter_sdk_go.Client.Defs.{World, Client, add_dropped}
use logcenter_sdk_go.Client.Enqueue.{drop_event}
use logcenter_sdk_go.Client.Send.{send_event_sync}
use logcenter_sdk_go.Client.Quiet.{quiet-event_dropped}
use logcenter_sdk_go.Client.Run.{
  Phase, idle, draining, resending, finished, System, Step, Steps, after_round, after_drain,
  after_resent, after_notify, close, started,
}

-- The last round, or the end.
abbrev is_last : Phase → Bool
is_last idle = false
is_last (draining last err) = last
is_last (resending last) = last
is_last finished = true

-- The last round is only for a closed channel.
abbrev IsOrdered : System → Type 0
IsOrdered s = (is_last s.phase ≡ false) ⊎ (s.closing ≡ true)

after_round-last : (last : Bool) → is_last (after_round last) ≡ last
unfolding after_round
after_round-last true = refl
after_round-last false = refl

after_drain-last : (last : Bool) (err : Option Error) → is_last (after_drain last err) ≡ last
unfolding after_drain
after_drain-last last none = refl
after_drain-last last (some err) = after_round-last last

after_resent-last :
    (last : Bool) (ended : Option (Option Error)) → is_last (after_resent last ended) ≡ last
unfolding after_resent
after_resent-last last none = refl
after_resent-last last (some err) = after_round-last last

after_notify-last : (client : Client) → is_last (after_notify client) ≡ false
unfolding after_notify
after_notify-last client = ground arith

module _ (world : World) where
  kept-last :
      (s : System) (phase : Phase) (last : Bool)
      → IsOrdered s
      → s.phase ≡ phase
      → is_last phase ≡ last
      → (last ≡ false) ⊎ (s.closing ≡ true)
  kept-last s phase last (inl h) p q = inl (sym q ∙ sym (ap is_last p) ∙ h)
  kept-last s phase last (inr h) p q = inr h

  Step-IsOrdered : {s t : System} → Step world s t → IsOrdered s → IsOrdered t
  unfolding close
  Step-IsOrdered (Step.admitted event d c) h = h
  Step-IsOrdered (Step.refused event c) h = h
  Step-IsOrdered (Step.pushed before after event f) h = h
  Step-IsOrdered (Step.sent_now ctx event) h = h
  Step-IsOrdered Step.close_called h = inr refl
  Step-IsOrdered {s} (Step.notified p n) h = inl (after_notify-last s.client)
  Step-IsOrdered (Step.woken p) h = inl refl
  Step-IsOrdered (Step.stopping p c) h = inr c
  Step-IsOrdered {s} (Step.drained last err event events p q) h = kept-last s _ last h p refl
  Step-IsOrdered {s} (Step.drained_all last err p q) h = elim (kept-last s _ last h p refl) [
    | inl e ↦ inl (after_drain-last last err ∙ e)
    | inr c ↦ inr c
  ]
  Step-IsOrdered {s} (Step.resent last p) h = elim (kept-last s _ last h p refl) [
    | inl e ↦ inl (after_resent-last last _ ∙ e)
    | inr c ↦ inr c
  ]

  Steps-IsOrdered : {s t : System} → Steps world s t → IsOrdered s → IsOrdered t
  Steps-IsOrdered Steps.stay h = h
  Steps-IsOrdered (Steps.step steps last) h = Step-IsOrdered last (Steps-IsOrdered steps h)

  -- The goroutine that `NewClient` starts returns only after `Close` was called.
  pub finished-closing :
      (client : Client) (t : System)
      → Steps world (started client) t
      → t.phase ≡ finished
      → t.closing ≡ true
  unfolding started
  finished-closing client t steps p = elim (Steps-IsOrdered steps (inl refl)) [
    | inl h ↦ let e : true ≡ false = sym (ap is_last p) ∙ h in ground arith
    | inr c ↦ c
  ]

not_idle : (idle ≡ finished) → ⊥
not_idle h = ground arith

not_draining : {last : Bool} {err : Option Error} → (draining last err ≡ finished) → ⊥
not_draining h = ground arith

not_resending : {last : Bool} → (resending last ≡ finished) → ⊥
not_resending h = ground arith

-- `run` has returned, no caller is on its way to the buffer, and the buffer is empty.
pub record IsOver (s : System) : Type 0 where
  pub phase : s.phase ≡ finished
  pub closed : s.client.closed ≡ true
  pub in_flight : s.in_flight ≡ []
  pub queue : s.client.queue.events ≡ []

module _ (world : World) where
  drop_event-closed :
      (event : Event) (reason : String) (err : Option Error) (client : Client)
      → ((drop_event world event reason err client).closed ≡ client.closed)
        × ((drop_event world event reason err client).queue.events ≡ client.queue.events)
  unfolding drop_event add_dropped
  drop_event-closed event reason err client =
      let h = quiet-event_dropped event reason err (add_dropped client) in
      (ap (λ (c : Client). c.closed) h, ap (λ (c : Client). c.queue.events) h)

  send_event_sync-closed :
      (ctx : Context) (event : Event) (client : Client)
      → client.closed ≡ true
      → ((send_event_sync world ctx event client).0.closed ≡ true)
        × ((send_event_sync world ctx event client).0.queue.events ≡ client.queue.events)
  unfolding send_event_sync
  send_event_sync-closed ctx event client c = elim (Bool-cases client.disabled) [
    | inl d ↦
        let r : send_event_sync world ctx event client ≡ (client, none) =
          if-true client.disabled _ _ d in
        (
          ap (λ (r : Client × Option Error). r.0.closed) r ∙ c,
          ap (λ (r : Client × Option Error). r.0.queue.events) r,
        )
    | inr d ↦
        let dropped = drop_event world event "client_closed" (some client_closed) client in
        let r : send_event_sync world ctx event client ≡ (dropped, some client_closed) =
          if-false client.disabled _ _ d ∙ if-true client.closed _ _ c in
        let (k, q) = drop_event-closed event "client_closed" (some client_closed) client in
        (
          ap (λ (r : Client × Option Error). r.0.closed) r ∙ k ∙ c,
          ap (λ (r : Client × Option Error). r.0.queue.events) r ∙ q,
        )
  ]

  no_event : (before after : List Event) (event : Event) → (before ++ event ∷ after ≡ []) → ⊥
  no_event [] after event h = ground arith
  no_event (x ∷ xs) after event h = ground arith

  Step-IsOver : {s t : System} → Step world s t → IsOver s → IsOver t
  unfolding close
  Step-IsOver (Step.admitted event d c) h = let e : true ≡ false = sym h.closed ∙ c in ground arith
  Step-IsOver {s} (Step.refused event c) h =
      let (k, q) = drop_event-closed event "client_closed" none s.client in
      record {
        phase = h.phase;
        closed = k ∙ h.closed;
        in_flight = h.in_flight;
        queue = q ∙ h.queue;
      }
  Step-IsOver (Step.pushed before after event f) h =
      absurd (no_event before after event (sym f ∙ h.in_flight))
  Step-IsOver {s} (Step.sent_now ctx event) h =
      let (k, q) = send_event_sync-closed ctx event s.client h.closed in
      record { phase = h.phase; closed = k; in_flight = h.in_flight; queue = q ∙ h.queue }
  Step-IsOver Step.close_called h = record {
    phase = h.phase;
    closed = refl;
    in_flight = h.in_flight;
    queue = h.queue;
  }
  Step-IsOver (Step.notified p n) h = absurd (not_idle (sym p ∙ h.phase))
  Step-IsOver (Step.woken p) h = absurd (not_idle (sym p ∙ h.phase))
  Step-IsOver (Step.stopping p c) h = absurd (not_idle (sym p ∙ h.phase))
  Step-IsOver (Step.drained last err event events p q) h = absurd (not_draining (sym p ∙ h.phase))
  Step-IsOver (Step.drained_all last err p q) h = absurd (not_draining (sym p ∙ h.phase))
  Step-IsOver (Step.resent last p) h = absurd (not_resending (sym p ∙ h.phase))

  -- Once `run` has returned, with no caller on its way to the buffer and the buffer empty, this stays so:
  -- no event is left behind in the buffer, whatever the callers do.
  pub Steps-IsOver : (s t : System) → Steps world s t → IsOver s → IsOver t
  Steps-IsOver s t Steps.stay h = h
  Steps-IsOver s t (Steps.step steps last) h = Step-IsOver last (Steps-IsOver s _ steps h)
