-- ===== src/Client/Finishing.antt =====
-- That `run` can return once `Close` was called.
use logcenter_sdk_go.Base.{
  ℕ, zero, suc, ◌≤◌, ◌<◌, List, [], Bool, true, false, Option, none, some, length, ◌≡◌, refl, ap,
  ◌∙◌, inl, inr, arith, List-cases,
}
use logcenter_sdk_go.Types.{Event}
use logcenter_sdk_go.Errors.{Error}
use logcenter_sdk_go.Queue.{EventQueue}
use logcenter_sdk_go.Queue.Order.{drain_shrinks}
use logcenter_sdk_go.Outbox.{DurableOutbox}
use logcenter_sdk_go.Outbox.Faultless.{IsFaultless}
use logcenter_sdk_go.Client.Defs.{World, Client}
use logcenter_sdk_go.Client.Send.{attempts, send_drained, first_of, send_round}
use logcenter_sdk_go.Client.Run.{
  Phase, idle, draining, resending, finished, System, after_round, after_drain, after_resent, Step,
  Steps,
}
use logcenter_sdk_go.Client.Draining.{send_drained-queue, length-zero}
use logcenter_sdk_go.Client.Rounds.{IsReady, pending_in, send_round-Round}
pub use logcenter_sdk_go.Client.Sending.{IsSending}
use logcenter_sdk_go.Client.Sending.{drained-IsSending, send_round-none}

-- A state reached from `s`, with the given events in the buffer and `run` in the given phase.
pub record Reached (world : World) (retries : ℕ) (events : List Event) (s : System) (p : Phase)
    : Type 0 where
  pub state : System
  pub steps : Steps world s state
  pub phase : state.phase ≡ p
  pub buffer : state.client.queue.events ≡ events
  pub sending : IsSending world retries state.client
  pub closing : state.closing ≡ true

module _ (world : World) (retries : ℕ)
    (faultless : (n : ℕ) → IsFaultless (world.outbox_faults n)) where
  -- After a round of the second loop.
  abbrev resent : System → Bool → System
  resent t last = record t {
    client = (send_round world t.client).0;
    phase = after_resent last (send_round world t.client).1;
  }

  -- The second loop, with as many rounds as events are pending, and a last one.
  resends :
      (rounds : ℕ) (events : List Event) (s t : System) (last : Bool) (outbox : DurableOutbox)
      → Steps world s t
      → t.phase ≡ resending last
      → t.client.queue.events ≡ events
      → t.closing ≡ true
      → IsReady world retries t.client outbox
      → pending_in world outbox < rounds
      → Reached world retries events s (after_round last)
  unfolding after_resent
  resends zero events s t last outbox steps p held c ready less = absurd (omega arith)
  resends (suc rounds) events s t last outbox steps p held c ready less =
      let (q, next, ready', outcome) =
        send_round-Round world retries faultless t.client outbox ready in
      let kept = ap (λ (queue : EventQueue). queue.events) q ∙ held in
      elim outcome [
        | inl (err, e, over) ↦ record {
          state = resent t last;
          steps = Steps.step steps (Step.resent last p);
          phase = ap (after_resent last) e;
          buffer = kept;
          sending = (ready'.0, inr (next, ready'));
          closing = c;
        }
        | inr (e, shorter) ↦
            resends rounds events s (resent t last) last next
              (Steps.step steps (Step.resent last p)) (ap (after_resent last) e) kept c ready'
              (omega arith)
      ]

  after_resending :
      (events : List Event) (s : System) (last : Bool)
      → Reached world retries events s (resending last)
      → Reached world retries events s (after_round last)
  unfolding after_resent
  after_resending events s last d = elim d.sending.1 [
    | inl h ↦
        let q = send_round-none world d.state.client h in
        record {
          state = resent d.state last;
          steps = Steps.step d.steps (Step.resent last d.phase);
          phase = ap (λ (r : Client × Option (Option Error)). after_resent last r.1) q;
          buffer = ap (λ (r : Client × Option (Option Error)). r.0.queue.events) q ∙ d.buffer;
          sending = (
            ap (λ (r : Client × Option (Option Error)). attempts world r.0) q ∙ d.sending.0,
            inl (ap (λ (r : Client × Option (Option Error)). r.0.outbox) q ∙ h),
          );
          closing = d.closing;
        }
    | inr (outbox, ready) ↦
        resends (suc (pending_in world outbox)) events s d.state last outbox d.steps d.phase
          d.buffer d.closing ready (omega arith)
  ]

  after_draining :
      (s : System) (last : Bool) (err : Option Error)
      → Reached world retries [] s (after_drain last err)
      → Reached world retries [] s (after_round last)
  unfolding after_drain
  after_draining s last none d = after_resending [] s last d
  after_draining s last (some err) d = d

  emptied :
      (s t : System) (last : Bool) (err : Option Error)
      → Steps world s t
      → t.phase ≡ draining last err
      → t.client.queue.events ≡ []
      → IsSending world retries t.client
      → t.closing ≡ true
      → Reached world retries [] s (after_round last)
  emptied s t last err steps p empty kept c = after_draining s last err (record {
    state = record t { phase = after_drain last err };
    steps = Steps.step steps (Step.drained_all last err p empty);
    phase = refl;
    buffer = empty;
    sending = kept;
    closing = c;
  })

  drains :
      (rounds : ℕ) (s t : System) (last : Bool) (err : Option Error)
      → Steps world s t
      → t.phase ≡ draining last err
      → IsSending world retries t.client
      → t.closing ≡ true
      → length t.client.queue.events ≤ rounds
      → Reached world retries [] s (after_round last)
  drains zero s t last err steps p kept c h =
      emptied s t last err steps p (length-zero t.client.queue.events (omega arith)) kept c
  drains (suc rounds) s t last err steps p kept c h = elim (List-cases t.client.queue.events) [
    | inl e ↦ emptied s t last err steps p e kept c
    | inr (event, rest, e) ↦
        let more : 0 < length t.client.queue.events = rw e (omega arith) in
        let q = ap (λ (q : EventQueue). length q.events) (send_drained-queue world t.client) in
        let less = drain_shrinks t.client.queue t.client.config.batch_size more in
        drains rounds s
          (record t {
            client = (send_drained world t.client).0;
            phase = draining last (first_of world err (send_drained world t.client).1);
          })
          last (first_of world err (send_drained world t.client).1)
          (Steps.step steps (Step.drained last err event rest p e)) refl
          (drained-IsSending world retries faultless t.client kept) c (omega arith)
  ]

  last_round :
      (s t : System)
      → Steps world s t
      → t.phase ≡ idle
      → IsSending world retries t.client
      → t.closing ≡ true
      → Reached world retries [] s finished
  unfolding after_round
  last_round s t steps p kept c =
      drains (length t.client.queue.events) s (record t { phase = draining true none }) true none
        (Steps.step steps (Step.stopping p c)) refl kept c (omega arith)

  then_last :
      (events : List Event) (s : System)
      → Reached world retries events s (after_round false)
      → Reached world retries [] s finished
  unfolding after_round
  then_last events s d = last_round s d.state d.steps d.phase d.sending d.closing

  finishes :
      (p : Phase) (s : System)
      → s.phase ≡ p
      → IsSending world retries s.client
      → s.closing ≡ true
      → ¬ (p ≡ finished)
      → ¬ (p ≡ resending true)
      → Reached world retries [] s finished
  unfolding after_round
  finishes idle s h kept c unfinished early = last_round s s Steps.stay h kept c
  finishes (draining true err) s h kept c unfinished early =
      drains (length s.client.queue.events) s s true err Steps.stay h kept c (omega arith)
  finishes (draining false err) s h kept c unfinished early =
      then_last [] s
        (drains (length s.client.queue.events) s s false err Steps.stay h kept c (omega arith))
  finishes (resending true) s h kept c unfinished early = elim (early refl) [ ]
  finishes (resending false) s h kept c unfinished early = then_last s.client.queue.events s (
      after_resending s.client.queue.events s false (record {
        state = s;
        steps = Steps.stay;
        phase = h;
        buffer = refl;
        sending = kept;
        closing = c;
      }))
  finishes finished s h kept c unfinished early = elim (unfinished refl) [ ]

  -- Once `Close` was called, `run` can finish: from every state in which it has neither returned nor
  -- ended its last draining of the buffer, steps lead to one in which it has returned and the buffer is
  -- empty, whatever the server says to the batches. Here there is at least one attempt for a batch, no
  -- call on the outbox's file fails, and there is no outbox, or the batch size is not negative, the
  -- outbox's lines are short enough for the scanner and its events have identifiers.
  pub run_finishes :
      (s : System)
      → IsSending world retries s.client
      → s.closing ≡ true
      → ¬ (s.phase ≡ finished)
      → ¬ (s.phase ≡ resending true)
      → (t : System) × Steps world s t × (t.phase ≡ finished) × (t.client.queue.events ≡ [])
  run_finishes s kept c unfinished early =
      let d = finishes s.phase s refl kept c unfinished early in
      (d.state, d.steps, d.phase, d.buffer)
