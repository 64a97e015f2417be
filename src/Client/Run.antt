-- ===== src/Client/Run.antt =====
-- The goroutine `run` with `Flush` and `Close`, and the callers beside it, as a step relation.
use logcenter_sdk_go.Base.{
  pos, List, [], ◌∷◌, ◌++◌, Bool, true, false, Option, none, some, if◌then◌else◌, leb_ℤ, length,
  ◌≡◌,
}
use logcenter_sdk_go.Types.{Event}
use logcenter_sdk_go.Errors.{Error}
use logcenter_sdk_go.Context.{Context}
use logcenter_sdk_go.Client.Defs.{World, Client}
use logcenter_sdk_go.Client.Enqueue.{prepare_event, push_prepared, drop_event}
use logcenter_sdk_go.Client.Send.{send_drained, first_of, send_round, send_event_sync}

-- Where `run` is: it waits in its `select`, or it is in one of the two loops of `sendQueued`, for the
-- last time or not, or it has returned.
pub data Phase : Type 0 where
  idle : Phase
  draining : Bool → Option Error → Phase
  resending : Bool → Phase
  finished : Phase

-- `in_flight` are the events whose callers have passed the test of `closed` in `enqueue` and have not
-- pushed them yet. `closing` says that `closeCh` is closed.
pub record System : Type 0 where
  pub client : Client
  pub phase : Phase
  pub closing : Bool
  pub in_flight : List Event

-- After `sendQueued`.
unfoldable pub after_round : Bool → Phase
after_round last = if last then finished else idle

-- After the first loop of `sendQueued`, with the first error.
unfoldable pub after_drain : Bool → Option Error → Phase
after_drain last none = resending last
after_drain last (some err) = after_round last

-- After a round of the second loop.
unfoldable pub after_resent : Bool → Option (Option Error) → Phase
after_resent last none = resending last
after_resent last (some err) = after_round last

-- `case <-client.notify`.
unfoldable pub after_notify : Client → Phase
after_notify client =
    if leb_ℤ client.config.batch_size (pos (length client.queue.events))
    then draining false none
    else idle

unfoldable pub close : System → System
close s = record s { client = record s.client { closed = true }; closing = true }

-- The steps. One of `run` is taken only where it stands; `woken` is the ticker or a request of `Flush`. A
-- batch is drained and sent in one step, or read from the outbox and sent.
pub data Step (world : World) (s : System) : System → Type 0 where
  admitted :
      (event : Event)
      → s.client.disabled ≡ false
      → s.client.closed ≡ false
      → Step world s (record s { in_flight = event ∷ s.in_flight })
  refused :
      (event : Event)
      → s.client.closed ≡ true
      → Step world s (record s { client = drop_event world event "client_closed" none s.client })
  pushed :
      (before after : List Event) (event : Event)
      → s.in_flight ≡ before ++ event ∷ after
      → Step world s (record s {
        client = (push_prepared world (prepare_event world event s.client)).0;
        in_flight = before ++ after;
      })
  sent_now :
      (ctx : Context) (event : Event)
      → Step world s (record s { client = (send_event_sync world ctx event s.client).0 })
  close_called : Step world s (close s)
  notified :
      s.phase ≡ idle
      → s.client.notified ≡ true
      → Step world s (record s {
        client = record s.client { notified = false };
        phase = after_notify s.client;
      })
  woken : s.phase ≡ idle → Step world s (record s { phase = draining false none })
  stopping :
      s.phase ≡ idle → s.closing ≡ true → Step world s (record s { phase = draining true none })
  drained :
      (last : Bool) (first_err : Option Error) (event : Event) (events : List Event)
      → s.phase ≡ draining last first_err
      → s.client.queue.events ≡ event ∷ events
      → Step world s (record s {
        client = (send_drained world s.client).0;
        phase = draining last (first_of world first_err (send_drained world s.client).1);
      })
  drained_all :
      (last : Bool) (first_err : Option Error)
      → s.phase ≡ draining last first_err
      → s.client.queue.events ≡ []
      → Step world s (record s { phase = after_drain last first_err })
  resent :
      (last : Bool)
      → s.phase ≡ resending last
      → Step world s (record s {
        client = (send_round world s.client).0;
        phase = after_resent last (send_round world s.client).1;
      })

-- Any number of steps.
pub data Steps (world : World) (s : System) : System → Type 0 where
  stay : Steps world s s
  step : {t u : System} → Steps world s t → Step world t u → Steps world s u

-- The state in which `NewClient` starts `run`.
unfoldable pub started : Client → System
started client = record { client = client; phase = idle; closing = false; in_flight = [] }
