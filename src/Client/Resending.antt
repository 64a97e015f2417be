-- ===== src/Client/Resending.antt =====
-- The loop of `sendOutbox` ends.
use logcenter_sdk_go.Base.{
  ℕ, zero, suc, ◌<◌, [], Option, none, some, length, ◌⊎◌, inl, inr, ◌≡◌, ◌≢◌, sym, ap, subst, arith,
}
use logcenter_sdk_go.Errors.{Error}
use logcenter_sdk_go.Outbox.{DurableOutbox, lines_of}
use logcenter_sdk_go.Outbox.Pending.{decoded, pending}
use logcenter_sdk_go.Outbox.Faultless.{IsFaultless}
use logcenter_sdk_go.Client.Defs.{World, Client}
use logcenter_sdk_go.Client.Send.{attempts, send_round, send_outbox}
use logcenter_sdk_go.Client.Rounds.{IsResendable, IsReady, pending_in, send_round-Round}

module _ (world : World) where
  -- The loop returned, with an error or with nothing pending.
  abbrev pub Resent : Option (Client × Option Error) → Type 0
  Resent result =
      (r : Client × Option Error) × (result ≡ some r)
      × ((r.1 ≢ none) ⊎ (pending world.platform r.0.outbox ≡ []))

  send_outbox-round :
      (rounds : ℕ) (client : Client) (r : Client × Option (Option Error))
      → send_round world client ≡ r
      → send_outbox world (suc rounds) client
        ≡ elim r.1 [ some err ↦ some (r.0, err) | none ↦ send_outbox world rounds r.0 ]
  unfolding send_outbox
  send_outbox-round rounds client r h =
      ap
        (λ (r : Client × Option (Option Error)). elim r.1 [
          | some err ↦ some (r.0, err)
          | none ↦ send_outbox world rounds r.0
        ])
        h

  Resent-any :
      (retries rounds : ℕ) (client : Client) (outbox : DurableOutbox)
      → ((n : ℕ) → IsFaultless (world.outbox_faults n))
      → IsReady world retries client outbox
      → pending_in world outbox < rounds
      → Resent (send_outbox world rounds client)
  Resent-any retries zero client outbox faultless ready less = absurd (omega arith)
  Resent-any retries (suc rounds) client outbox faultless ready less =
      let r = send_round world client in
      let (queue, next, ready', outcome) =
        send_round-Round world retries faultless client outbox ready in
      elim outcome [
        | inl (err, e, over) ↦ (
          (r.0, err),
          send_outbox-round rounds client (r.0, some err) (ap (λ o. (r.0, o)) e),
          over,
        )
        | inr (e, shorter) ↦
            subst Resent (sym (send_outbox-round rounds client (r.0, none) (ap (λ o. (r.0, o)) e)))
              (Resent-any retries rounds r.0 next faultless ready' (omega arith))
      ]

-- The loop of `sendOutbox` ends with an error of a batch or with nothing pending, after no more rounds
-- than one for each pending event and a last one, whatever the server answers. Here there is at least
-- one attempt for a batch, the batch size is not negative, no call on the outbox's file fails, and the
-- outbox's lines are short enough for the scanner and its events have identifiers.
pub send_outbox-Resent :
    (world : World) (client : Client) (outbox : DurableOutbox) (retries : ℕ)
    → ((n : ℕ) → IsFaultless (world.outbox_faults n))
    → attempts world client ≡ suc retries
    → IsResendable world client outbox
    → Resent world
        (send_outbox world (suc (length (decoded world.platform (lines_of outbox.file)))) client)
send_outbox-Resent world client outbox retries faultless enough resendable =
    Resent-any world retries (suc (length (decoded world.platform (lines_of outbox.file)))) client
      outbox faultless (enough, resendable) (omega arith)
