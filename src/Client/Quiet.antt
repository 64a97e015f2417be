-- ===== src/Client/Quiet.antt =====
-- What the last error and the hooks have no part in.
use logcenter_sdk_go.Base.{
  suc, String, List, [], ◌∷◌, Bool, true, false, Option, none, some, length, ◌≡◌, refl, ◌∙◌,
}
use logcenter_sdk_go.Types.{Event, EventError}
use logcenter_sdk_go.Errors.{Error}
use logcenter_sdk_go.Stats.{set_error}
use logcenter_sdk_go.Outbox.{DurableOutbox, remove, append, event_ids, copy_events}
use logcenter_sdk_go.Client.Defs.{
  HookCall, World, Client, call_hook, set_client_error, event_dropped, event_truncated, add_failed,
  record_batch_failure, rejected_event, record_event_rejections, with_outbox, persist_outbox,
  remove_outbox,
}

-- A client without its last error and without the calls of its hooks.
abbrev pub quiet : Client → Client
quiet client = record client { stats = record client.stats { last_error = "" }; hook_calls = [] }

pub quiet-call_hook :
    (is_set : Bool) (call : HookCall) (client : Client)
    → quiet (call_hook is_set call client) ≡ quiet client
unfolding call_hook
quiet-call_hook true call client = refl
quiet-call_hook false call client = refl

pub quiet-set_client_error :
    (err : Option Error) (client : Client) → quiet (set_client_error err client) ≡ quiet client
unfolding set_client_error set_error
quiet-set_client_error none client = quiet-call_hook _ _ _
quiet-set_client_error (some err) client = quiet-call_hook _ _ _

pub quiet-event_dropped :
    (event : Event) (reason : String) (err : Option Error) (client : Client)
    → quiet (event_dropped event reason err client) ≡ quiet client
unfolding event_dropped
quiet-event_dropped event reason err client = quiet-call_hook _ _ _

pub quiet-event_truncated :
    (before after : Event) (reason : String) (client : Client)
    → quiet (event_truncated before after reason client) ≡ quiet client
unfolding event_truncated
quiet-event_truncated before after reason client = quiet-call_hook _ _ _

pub quiet-record_batch_failure :
    (err : Option Error) (events : List Event) (client : Client)
    → quiet (record_batch_failure err events client) ≡ quiet (add_failed (length events) client)
unfolding record_batch_failure
quiet-record_batch_failure err events client =
    quiet-call_hook _ _ _ ∙ quiet-set_client_error err (add_failed (length events) client)

pub quiet-record_event_rejections :
    (events : List Event) (errors : List EventError) (client : Client)
    → quiet (record_event_rejections events errors client) ≡ quiet client
unfolding record_event_rejections
quiet-record_event_rejections events [] client = refl
quiet-record_event_rejections events (e ∷ errors) client =
    quiet-record_event_rejections events errors _ ∙ quiet-call (rejected_event events e)
  where
    quiet-call :
        (o : Option Event)
        → quiet (elim o [
          | none ↦ client
          | some event ↦
              call_hook client.config.hooks.on_event_rejected
                (HookCall.on_event_rejected event e)
                client
        ])
          ≡ quiet client
    quiet-call none = refl
    quiet-call (some event) = quiet-call_hook _ _ _

module _ (world : World) where
  pub quiet-with_outbox :
      (result : Option DurableOutbox × Option Error) (client : Client)
      → quiet (with_outbox world result client)
        ≡ record (quiet client) { outbox = result.0; ticks = suc client.ticks }
  unfolding with_outbox
  quiet-with_outbox (outbox, none) client = refl
  quiet-with_outbox (outbox, some err) client = quiet-set_client_error (some err) _

  pub quiet-persist_outbox :
      (events : List Event) (client : Client)
      → quiet (persist_outbox world events client) ≡ record (quiet client) {
        outbox = (append (world.outbox_faults client.ticks) client.outbox (copy_events events)).0;
        ticks = suc client.ticks;
      }
  unfolding persist_outbox
  quiet-persist_outbox events client = quiet-with_outbox _ client

  pub quiet-remove_outbox :
      (events : List Event) (client : Client)
      → quiet (remove_outbox world events client) ≡ record (quiet client) {
        outbox =
            (remove world.platform
              (world.outbox_faults client.ticks)
              client.outbox
              (event_ids events)).0;
        ticks = suc client.ticks;
      }
  unfolding remove_outbox
  quiet-remove_outbox events client = quiet-with_outbox _ client
