-- ===== src/Client/Rounds.antt =====
-- A round of the loop of `sendOutbox`.
use logcenter_sdk_go.Base.{
  ℕ, suc, ◌<◌, ℤ, pos, negsuc, List, [], ◌∷◌, false, ◌&&◌, Option, none, some, length, ltb_ℤ, leb_ℤ,
  All, ◌⊎◌, inl, inr, ◌≡◌, ◌≢◌, refl, sym, ap, ◌∙◌, subst, arith, Option-cases, List-cases,
}
use logcenter_sdk_go.Types.{Event}
use logcenter_sdk_go.Errors.{Error}
use logcenter_sdk_go.Config.{Config}
use logcenter_sdk_go.Outbox.{DurableOutbox, lines_of, peek, remove, event_ids, id_set}
use logcenter_sdk_go.Outbox.Pending.{IsShort, decoded, pending, without_ids}
use logcenter_sdk_go.Outbox.Peeking.{budget, budget-nil, budget-next, peek_lem}
use logcenter_sdk_go.Outbox.Faultless.{
  IsFaultless, HasId, remove-faultless, without_ids_shrinks, All-without_ids,
}
use logcenter_sdk_go.Client.Defs.{World, Client}
use logcenter_sdk_go.Client.Send.{attempts, send_batch_internal, send_round, send_peeked, ended_by}
use logcenter_sdk_go.Client.Draining.{send_batch_internal-queue}
use logcenter_sdk_go.Client.Delivered.{Removed, FailedOrRemoved, sent-or-failed}

module _ (world : World) where
  -- What the loop needs of a client with this outbox.
  abbrev pub IsResendable : Client → DurableOutbox → Type 0
  IsResendable client outbox =
      (client.outbox ≡ some outbox)
      × (ltb_ℤ client.config.batch_size (pos 0) ≡ false)
      × All IsShort (lines_of outbox.file)
      × All HasId (decoded world.platform (lines_of outbox.file))

  abbrev pub pending_in : DurableOutbox → ℕ
  pending_in outbox = length (decoded world.platform (lines_of outbox.file))

  -- A client that sends its batches and whose outbox can be sent.
  abbrev pub IsReady : ℕ → Client → DurableOutbox → Type 0
  IsReady retries client outbox = (attempts world client ≡ suc retries) × IsResendable client outbox

  -- The loop ends there, with an error or with nothing pending.
  abbrev pub RoundEnded : Client × Option (Option Error) → Type 0
  RoundEnded r =
      (err : Option Error) × (r.1 ≡ some err)
      × ((err ≢ none) ⊎ (pending world.platform r.0.outbox ≡ []))

  -- The buffer is left alone, and the loop ends or fewer events are pending.
  abbrev pub Round : ℕ → Client → DurableOutbox → Client × Option (Option Error) → Type 0
  Round retries client outbox r =
      (r.0.queue ≡ client.queue)
      × (next : DurableOutbox) × IsReady retries r.0 next
      × (RoundEnded r ⊎ (r.1 ≡ none) × (pending_in next < pending_in outbox))

  pub attempts-config :
      (before after : Client)
      → after.config ≡ before.config
      → attempts world after ≡ attempts world before
  unfolding attempts
  attempts-config before after c =
      ap (λ (c : Config). attempts world (record before { config = c })) c

  module _ (retries : ℕ) (faultless : (n : ℕ) → IsFaultless (world.outbox_faults n)) where
    not_full : (max : ℤ) → (ltb_ℤ (pos 0) max && leb_ℤ max (pos 0)) ≡ false
    not_full (pos n) = ground arith
    not_full (negsuc n) = ground arith

    peek_nonnegative :
        (outbox : DurableOutbox) (max : ℤ)
        → ltb_ℤ max (pos 0) ≡ false
        → All IsShort (lines_of outbox.file)
        → peek world.platform false (some outbox) max
          ≡ some (budget world.platform max 0 (pending world.platform (some outbox)), none)
    peek_nonnegative outbox (pos n) h short = (peek_lem world.platform outbox n short).0
    peek_nonnegative outbox (negsuc n) h short = absurd (ground arith)

    peek-batch :
        (client : Client) (outbox : DurableOutbox)
        → ltb_ℤ client.config.batch_size (pos 0) ≡ false
        → All IsShort (lines_of outbox.file)
        → peek world.platform
            (world.outbox_faults client.ticks).open_fails
            (some outbox)
            client.config.batch_size
          ≡ some (
            budget world.platform client.config.batch_size 0
                (decoded world.platform (lines_of outbox.file)),
            none,
          )
    peek-batch client outbox size short =
        rw ((faultless client.ticks).1)
          (peek_nonnegative outbox client.config.batch_size size short)

    -- What is left after a removal is resendable, too.
    pub remaining-IsResendable :
        (outbox : DurableOutbox) (before after : Client) (events : List Event)
        → IsResendable before outbox
        → Removed world before events after
        → (next : DurableOutbox) × IsResendable after next
          × (decoded world.platform (lines_of next.file)
              ≡ without_ids
                  (id_set (event_ids events))
                  (decoded world.platform (lines_of outbox.file)))
    remaining-IsResendable outbox before after events (b, size, short, ids) (cfg, n, o) =
        let (next, q, short', d) =
          remove-faultless world.platform (world.outbox_faults n) outbox (event_ids events)
            (faultless n) short in
        (
          next,
          (
            o
                ∙ ap (λ ob. (remove world.platform (world.outbox_faults n) ob (event_ids events)).0)
                    b
                ∙ q,
            ap (λ (c : Config). ltb_ℤ c.batch_size (pos 0)) cfg ∙ size,
            short',
            subst (λ es. All HasId es) (sym d)
                (All-without_ids (id_set (event_ids events))
                  (decoded world.platform (lines_of outbox.file)) ids),
          ),
          d,
        )

    -- Sent or not, a batch leaves the client ready.
    pub left-IsReady :
        (outbox : DurableOutbox) (before : Client) (events : List Event) (r : Client × Option Error)
        → IsReady retries before outbox
        → FailedOrRemoved world before events r
        → (next : DurableOutbox) × IsReady retries r.0 next
    left-IsReady outbox before events r (enough, (b, size, short, ids)) (inl (failed, (o, c))) = (
      outbox,
      (
        attempts-config before r.0 c ∙ enough,
        (o ∙ b, ap (λ (c : Config). ltb_ℤ c.batch_size (pos 0)) c ∙ size, short, ids),
      ),
    )
    left-IsReady outbox before events r (enough, ready) (inr removed) =
        let (next, resendable, d) = remaining-IsResendable outbox before r.0 events ready removed in
        (next, (attempts-config before r.0 removed.0 ∙ enough, resendable))

    -- A batch that was sent leaves fewer events pending.
    sent-shrinks :
        (outbox : DurableOutbox) (before after : Client)
        → IsReady retries before outbox
        → (event : Event) (rest batch : List Event)
        → decoded world.platform (lines_of outbox.file) ≡ event ∷ rest
        → Removed world before (event ∷ batch) after
        → (next : DurableOutbox) × IsReady retries after next
          × (pending_in next < pending_in outbox)
    sent-shrinks outbox before after (enough, (b, size, short, ids)) event rest batch e
          (cfg, n, o) =
        let (next, resendable, d) =
          remaining-IsResendable outbox before after (event ∷ batch) (b, size, short, ids)
            (cfg, n, o) in
        let first : HasId event = (subst (λ es. All HasId es) e ids).0 in
        let less = without_ids_shrinks event batch rest first in
        let removed = event_ids (event ∷ batch) in
        let l : pending_in next ≡ length (without_ids (id_set removed) (event ∷ rest)) =
          ap (λ es. length es) (d ∙ ap (without_ids (id_set removed)) e) in
        let m : pending_in outbox ≡ length (event ∷ rest) = ap (λ es. length es) e in
        (next, (attempts-config before after cfg ∙ enough, resendable), omega arith)

    Round-of :
        (client : Client) (outbox : DurableOutbox)
        → attempts world client ≡ suc retries
        → ltb_ℤ client.config.batch_size (pos 0) ≡ false
        → All IsShort (lines_of outbox.file)
        → All HasId (decoded world.platform (lines_of outbox.file))
        → Round retries
            (record client { outbox = some outbox })
            outbox
            (send_round world (record client { outbox = some outbox }))
    unfolding send_round send_peeked attempts
    Round-of client outbox enough size short ids =
        let loaded = record client { outbox = some outbox } in
        let peeked = record client { outbox = some outbox; ticks = suc client.ticks } in
        elim (List-cases (decoded world.platform (lines_of outbox.file))) [
          | inl e ↦
              let p =
                peek-batch client outbox size short
                ∙ ap (λ es. some (budget world.platform client.config.batch_size 0 es, none)) e
                ∙ ap (λ es. some (es, none))
                    (budget-nil world.platform client.config.batch_size 0) in
              let q : send_round world loaded ≡ (peeked, some none) =
                ap (send_peeked world peeked) p in
              subst (Round retries loaded outbox) (sym q)
                (refl, outbox, (enough, (refl, size, short, ids)), inl (none, refl, inr e))
          | inr (event, rest, e) ↦
              let batch = budget world.platform client.config.batch_size 1 rest in
              let p =
                peek-batch client outbox size short
                ∙ ap (λ es. some (budget world.platform client.config.batch_size 0 es, none)) e
                ∙ ap (λ es. some (es, none))
                    (budget-next world.platform client.config.batch_size 0 event rest
                      (not_full client.config.batch_size)) in
              let sent = send_batch_internal world (event ∷ batch) false peeked in
              let queue = send_batch_internal-queue world (event ∷ batch) false peeked in
              let outcome = sent-or-failed world event batch peeked retries enough in
              elim (Option-cases sent.1) [
                | inr (err, f) ↦
                    let q : send_round world loaded ≡ (sent.0, some (some err)) =
                      ap (send_peeked world peeked) p ∙ ap (λ o. (sent.0, ended_by o)) f in
                    let (next, ready) =
                      left-IsReady outbox peeked (event ∷ batch) sent
                        (enough, (refl, size, short, ids)) outcome in
                    subst (Round retries loaded outbox) (sym q)
                      (queue, next, ready, inl (some err, refl, inl (ground arith)))
                | inl f ↦ elim outcome [
                  | inl (failed, u) ↦ absurd (failed f)
                  | inr removed ↦
                      let q : send_round world loaded ≡ (sent.0, none) =
                        ap (send_peeked world peeked) p ∙ ap (λ o. (sent.0, ended_by o)) f in
                      let (next, ready, less) =
                        sent-shrinks outbox peeked sent.0 (enough, (refl, size, short, ids)) event
                          rest batch e removed in
                      subst (Round retries loaded outbox) (sym q)
                        (queue, next, ready, inr (refl, less))
                ]
              ]
        ]

    pub send_round-Round :
        (client : Client) (outbox : DurableOutbox)
        → IsReady retries client outbox
        → Round retries client outbox (send_round world client)
    send_round-Round client outbox (enough, (o, size, short, ids)) =
        subst
          (λ ob.
            Round retries (record client { outbox = ob }) outbox
              (send_round world (record client { outbox = ob })))
          (sym o) (Round-of client outbox enough size short ids)
