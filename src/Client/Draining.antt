-- ===== src/Client/Draining.antt =====
-- The batches of `sendQueued`: what a flush does to the buffer.
use logcenter_sdk_go.Base.{
  ℕ, zero, suc, ◌+◌, ◌≤◌, ◌<◌, ◌^◌, pos, List, [], ◌∷◌, Bool, false, Option, none, some, length,
  is_blank, ◌≡◌, refl, ap, arith, Bool-cases, List-cases, inl, inr,
}
use logcenter_sdk_go.Types.{Event}
use logcenter_sdk_go.Errors.{Error, endpoint_empty, api_key_empty}
use logcenter_sdk_go.Json.{marshal_batch}
use logcenter_sdk_go.Queue.{EventQueue, drain}
use logcenter_sdk_go.Queue.Order.{drain_shrinks}
use logcenter_sdk_go.Client.Defs.{World, Client}
use logcenter_sdk_go.Client.Send.{
  attempts, batch_request, send_batch_internal, send_drained, first_of, drain_all,
}
use logcenter_sdk_go.Client.Attempts.{
  Flow, flow, Ended, Posted, attempt-Ended, failure-Ended, failure-Posted,
}

pub length-zero : (events : List Event) → length events ≡ 0 → events ≡ []
length-zero [] h = refl
length-zero (event ∷ events) h = ground arith

module _ (world : World) where
  -- The number of attempts, one more than the retries, as long as that is an `int`.
  pub attempts_lem :
      (client : Client) (retries : ℕ)
      → client.config.retry_attempts ≡ pos retries
      → retries + 1 < 2 ^ 63
      → attempts world client ≡ suc retries
  unfolding attempts
  attempts_lem client retries h bound = rw h (ground arith)

  -- A batch that is not empty is sent or fails as a whole, which is counted once, and the buffer is left
  -- alone. There are at most `attempts` posts, all with the same body and so with one batch identifier.
  pub send_batch_internal-Ended :
      (event : Event) (events : List Event) (reject_as_error : Bool) (client : Client)
      → Ended world
          (attempts world client)
          reject_as_error
          none
          (flow client)
          (send_batch_internal world (event ∷ events) reject_as_error client)
        × Posted world
            (attempts world client)
            (marshal_batch (batch_request world (event ∷ events) client))
            client.posts
            (send_batch_internal world (event ∷ events) reject_as_error client).0
  unfolding send_batch_internal
  send_batch_internal-Ended event events reject_as_error client =
      let body = marshal_batch (batch_request world (event ∷ events) client) in
      let n = attempts world client in
      elim (Bool-cases (is_blank client.config.endpoint)) [
        | inl b ↦
            rw (b, send_batch_internal)
              (
                failure-Ended world n reject_as_error none endpoint_empty (event ∷ events) client,
                failure-Posted world n body (some endpoint_empty) (event ∷ events) client,
              )
        | inr b ↦ elim (Bool-cases (is_blank client.config.api_key)) [
          | inl k ↦
              rw (b, k, send_batch_internal)
                (
                  failure-Ended world n reject_as_error none api_key_empty (event ∷ events) client,
                  failure-Posted world n body (some api_key_empty) (event ∷ events) client,
                )
          | inr k ↦
              rw (b, k, send_batch_internal)
                (unfold batch_request in
                  attempt-Ended world n (batch_request world (event ∷ events) client)
                    reject_as_error none (record client { ticks = suc client.ticks }))
        ]
      ]

  pub send_batch_internal-queue :
      (events : List Event) (reject_as_error : Bool) (client : Client)
      → (send_batch_internal world events reject_as_error client).0.queue ≡ client.queue
  unfolding send_batch_internal
  send_batch_internal-queue [] reject_as_error client = refl
  send_batch_internal-queue (event ∷ events) reject_as_error client =
      elim (send_batch_internal-Ended event events reject_as_error client).0 [
        | inl (f, e) ↦ ap (λ (c : Flow). c.0) f
        | inr (f, e) ↦ ap (λ (c : Flow). c.0) f
      ]

  pub send_drained-queue :
      (client : Client)
      → (send_drained world client).0.queue ≡ (drain client.queue client.config.batch_size).0
  unfolding send_drained
  send_drained-queue client = send_batch_internal-queue _ false _

  -- As many rounds as the buffer has events empty it, whatever the server says to the batches.
  pub drain_all-empty :
      (rounds : ℕ) (first_err : Option Error) (client : Client)
      → length client.queue.events ≤ rounds
      → (drain_all world rounds first_err client).0.queue.events ≡ []
  unfolding drain_all
  drain_all-empty zero first_err client h = length-zero client.queue.events (omega arith)
  drain_all-empty (suc rounds) first_err client h = elim (List-cases client.queue.events) [
    | inl e ↦ rw (e, drain_all) e
    | inr (event, rest, e) ↦
        let more : 0 < length client.queue.events = rw e (omega arith) in
        let q = ap (λ (q : EventQueue). length q.events) (send_drained-queue client) in
        let less = drain_shrinks client.queue client.config.batch_size more in
        rw (e, drain_all)
          (drain_all-empty rounds (first_of world first_err (send_drained world client).1)
            (send_drained world client).0 (omega arith))
  ]
