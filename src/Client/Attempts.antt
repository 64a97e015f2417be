-- ===== src/Client/Attempts.antt =====
-- How a batch is posted: the retries of `sendBatchInternal`.
use mathlib.Core.List.{append_assoc, append-nil}
use logcenter_sdk_go.Base.{
  ℕ, zero, suc, ◌+◌, ◌≤◌, pos, String, len, List, [], ◌∷◌, ◌++◌, Bool, true, ◌&&◌, Option, none,
  some, length, ltb_ℤ, ◌≡◌, ◌≢◌, refl, sym, ap, ◌∙◌, arith, Bool-cases, Option-cases, Sum-cases,
  ◌⊎◌, inl, inr, subst,
}
use logcenter_sdk_go.Types.{Event, BatchRequest, BatchResponse}
use logcenter_sdk_go.Errors.{Error, is_retryable}
use logcenter_sdk_go.Queue.{EventQueue}
use logcenter_sdk_go.Json.{marshal_batch}
use logcenter_sdk_go.Client.Defs.{
  World, Client, record_batch_failure, record_event_rejections, add_sent, add_failed, remove_outbox,
}
use logcenter_sdk_go.Client.Send.{post_body, post_batch, batch_accepted, attempt}
use logcenter_sdk_go.Client.Quiet.{
  quiet, quiet-set_client_error, quiet-record_batch_failure, quiet-record_event_rejections,
  quiet-remove_outbox,
}
use logcenter_sdk_go.Client.Accounted.{bump}

-- The same body n times; nothing is posted without one.
abbrev pub copies : ℕ → Option String → List String
copies n none = []
copies zero (some body) = []
copies (suc n) (some body) = body ∷ copies n (some body)

copies-zero : (body : Option String) → copies 0 body ≡ []
copies-zero none = refl
copies-zero (some body) = refl

copies-append :
    (m n : ℕ) (body : Option String) → copies m body ++ copies n body ≡ copies (m + n) body
copies-append m n none = refl
copies-append zero n (some body) =
    let h : n ≡ 0 + n = omega arith in ap (λ k. copies k (some body)) h
copies-append (suc m) n (some body) =
    let h : suc (m + n) ≡ suc m + n = omega arith in
    ap (λ rest. body ∷ rest) (copies-append m n (some body)) ∙ ap (λ k. copies k (some body)) h

-- What the sending of a batch does not touch.
abbrev pub Flow : Type 0
Flow = EventQueue × ℕ × ℕ

-- The buffer and the counters of the batches that were sent, and of those that failed.
abbrev pub flow : Client → Flow
flow client = (client.queue, client.stats.sent_batches, client.stats.failed_batches)

module _ (world : World) where
  pub quiet-batch_accepted :
      (events : List Event) (reject_as_error : Bool) (r : BatchResponse) (client : Client)
      → quiet (batch_accepted world events reject_as_error r client).0
        ≡ quiet (
            remove_outbox world events
              (record_event_rejections events r.errors (add_sent (length events) r client)))
  unfolding batch_accepted
  quiet-batch_accepted events reject_as_error r client =
      elim (Bool-cases (reject_as_error && ltb_ℤ (pos 0) r.rejected)) [
        | inl h ↦ rw h (quiet-set_client_error _ _)
        | inr h ↦ rw h refl
      ]

  batch_accepted-flow :
      (events : List Event) (reject_as_error : Bool) (r : BatchResponse) (client : Client)
      → (flow (batch_accepted world events reject_as_error r client).0
          ≡ (client.queue, bump true client.stats.sent_batches, client.stats.failed_batches))
        × ((batch_accepted world events reject_as_error r client).0.posts ≡ client.posts)
  unfolding add_sent
  batch_accepted-flow events reject_as_error r client =
      let counted = add_sent (length events) r client in
      let h =
        quiet-batch_accepted events reject_as_error r client
        ∙ quiet-remove_outbox world events (record_event_rejections events r.errors counted) in
      let k = quiet-record_event_rejections events r.errors counted in
      (ap flow h ∙ ap flow k, ap (λ (c : Client). c.posts) h ∙ ap (λ (c : Client). c.posts) k)

  batch_accepted-err :
      (events : List Event) (reject_as_error : Bool) (r : BatchResponse) (client : Client)
      → ((batch_accepted world events reject_as_error r client).1 ≡ none)
        ⊎ (reject_as_error ≡ true)
          × ((batch_accepted world events reject_as_error r client).1 ≢ none)
  unfolding batch_accepted
  batch_accepted-err events reject_as_error r client = ground arith

  -- A post leaves everything but the list of the posts alone.
  post_batch-posts :
      (payload : BatchRequest) (client : Client)
      → (n : ℕ) × (n ≤ 1)
        × ((post_batch world payload client).0.posts
            ≡ client.posts ++ copies n (marshal_batch payload))
        × (flow (post_batch world payload client).0 ≡ flow client)
  unfolding post_batch post_body
  post_batch-posts payload client = elim (Option-cases (marshal_batch payload)) [
    | inl h ↦ rw (h, post_batch) (0, omega arith, sym (append-nil client.posts), refl)
    | inr (body, h) ↦
        elim (Bool-cases (
          ltb_ℤ (pos 0) client.config.max_batch_bytes
          && ltb_ℤ client.config.max_batch_bytes (pos (len body)))) [
            | inl b ↦
                rw (h, b, post_batch, post_body)
                  (0, omega arith, sym (append-nil client.posts), refl)
            | inr b ↦ rw (h, b, post_batch, post_body) (1, omega arith, refl, refl)
          ]
  ]

  -- How the loop ends, with the attempts that it had left: the batch counts as sent and there is no
  -- error but that of rejected events, or it counts as failed and there is an error, unless there was no
  -- attempt at all.
  abbrev pub Ended : ℕ → Bool → Option Error → Flow → Client × Option Error → Type 0
  Ended left reject_as_error last_err before r =
      (flow r.0 ≡ (before.0, bump true before.1, before.2))
        × ((r.1 ≡ none) ⊎ (reject_as_error ≡ true) × (r.1 ≢ none))
      ⊎ (flow r.0 ≡ (before.0, before.1, bump true before.2))
        × ((r.1 ≢ none) ⊎ (left ≡ 0) × (r.1 ≡ last_err))

  abbrev pub Posted : ℕ → Option String → List String → Client → Type 0
  Posted left body before after = (n : ℕ) × (n ≤ left) × (after.posts ≡ before ++ copies n body)

  pub failure-Ended :
      (left : ℕ) (reject_as_error : Bool) (last_err : Option Error) (err : Error)
      (events : List Event)
      → (client : Client)
      → Ended left reject_as_error last_err
          (flow client)
          (record_batch_failure (some err) events client, some err)
  unfolding add_failed
  failure-Ended left reject_as_error last_err err events client =
      inr (ap flow (quiet-record_batch_failure (some err) events client), inl (ground arith))

  Ended-later :
      (left : ℕ) (reject_as_error : Bool) (last_err : Option Error) (err : Error) (before : Flow)
      → (r : Client × Option Error) → Ended left reject_as_error (some err) before r
      → Ended (suc left) reject_as_error last_err before r
  Ended-later left reject_as_error last_err err before r (inl h) = inl h
  Ended-later left reject_as_error last_err err before r (inr (h, inl e)) = inr (h, inl e)
  Ended-later left reject_as_error last_err err before r (inr (h, inr (z, e))) =
      inr (h, inl (rw e (ground arith)))

  Posted-later :
      (left k : ℕ) (body : Option String) (before middle : List String) (after : Client)
      → k ≤ 1
      → middle ≡ before ++ copies k body
      → Posted left body middle after
      → Posted (suc left) body before after
  Posted-later left k body before middle after k1 m (n, le, p) = (
    k + n,
    omega arith,
    p
        ∙ ap (λ posts. posts ++ copies n body) m
        ∙ append_assoc before (copies k body) (copies n body)
        ∙ ap (λ rest. before ++ rest) (copies-append k n body),
  )

  Posted-none :
      (left : ℕ) (body : Option String) (before : List String) (after : Client)
      → after.posts ≡ before
      → Posted left body before after
  Posted-none left body before after h = (
    0,
    omega arith,
    h ∙ sym (append-nil before) ∙ ap (λ rest. before ++ rest) (sym (copies-zero body)),
  )

  pub failure-Posted :
      (left : ℕ) (body : Option String) (err : Option Error) (events : List Event) (client : Client)
      → Posted left body client.posts (record_batch_failure err events client)
  unfolding add_failed
  failure-Posted left body err events client =
      Posted-none left body client.posts (record_batch_failure err events client)
        (ap (λ (c : Client). c.posts) (quiet-record_batch_failure err events client))

  -- The loop of the attempts, for any number of them: the batch ends as sent or as failed, which is
  -- counted once, the buffer is left alone, and all posts carry the same body, of which there are no more
  -- than there were attempts.
  pub attempt-Ended :
      (left : ℕ) (payload : BatchRequest) (reject_as_error : Bool) (last_err : Option Error)
      → (client : Client)
      → Ended left reject_as_error last_err
          (flow client)
          (attempt world left payload reject_as_error last_err client)
        × Posted left
            (marshal_batch payload)
            client.posts
            (attempt world left payload reject_as_error last_err client).0
  unfolding attempt add_failed
  attempt-Ended zero payload reject_as_error last_err client = (
    inr (ap flow (quiet-record_batch_failure last_err payload.events client), inr (refl, refl)),
    failure-Posted zero (marshal_batch payload) last_err payload.events client,
  )
  attempt-Ended (suc left) payload reject_as_error last_err client =
      let sent = (post_batch world payload client).0 in
      let body = marshal_batch payload in
      let (k, k1, posts, same) = post_batch-posts payload client in
      elim (Sum-cases (post_batch world payload client).1) [
        | inr (r, h) ↦
            let (f, p) = batch_accepted-flow payload.events reject_as_error r sent in
            let accepted = batch_accepted world payload.events reject_as_error r sent in
            rw (h, attempt)
              (
                inl (
                  f ∙ ap (λ (c : Flow). (c.0, bump true c.1, c.2)) same,
                  batch_accepted-err payload.events reject_as_error r sent,
                ),
                Posted-later left k body client.posts sent.posts accepted.0 k1 posts
                    (Posted-none left body sent.posts accepted.0 p),
              )
        | inl (err, h) ↦ elim (Bool-cases (is_retryable err)) [
          | inl t ↦
              let (e, p) = attempt-Ended left payload reject_as_error (some err) sent in
              let r = attempt world left payload reject_as_error (some err) sent in
              rw (h, t, attempt)
                (
                  subst (λ before. Ended (suc left) reject_as_error last_err before r) same
                      (Ended-later left reject_as_error last_err err (flow sent) r e),
                  Posted-later left k body client.posts sent.posts r.0 k1 posts p,
                )
          | inr t ↦
              let r = record_batch_failure (some err) payload.events sent in
              rw (h, t, attempt)
                (
                  subst (λ before. Ended (suc left) reject_as_error last_err before (r, some err))
                      same
                      (failure-Ended (suc left) reject_as_error last_err err payload.events sent),
                  Posted-later left k body client.posts sent.posts r k1 posts
                      (failure-Posted left body (some err) payload.events sent),
                )
        ]
      ]
