-- ===== src/Tests/Runs.antt =====
-- A client that is closed without events, step by step.
use logcenter_sdk_go.Base.{[], true, none, ◌≡◌, refl}
use logcenter_sdk_go.Queue.{new_event_queue}
use logcenter_sdk_go.Client.{Client, new_client, send_round}
use logcenter_sdk_go.Client.Run.{
  Phase, System, Step, Steps, close, started, after_drain, after_round, after_resent,
}
use logcenter_sdk_go.Client.Closing.{IsOver, finished-closing, Steps-IsOver}
use logcenter_sdk_go.Tests.Data.{world, client}

abbrev lone_client : Client
lone_client = record client { outbox = none }

abbrev closed_system : System
closed_system = record {
  client = record lone_client { closed = true };
  phase = Phase.idle;
  closing = true;
  in_flight = [];
}

abbrev over_system : System
over_system = record closed_system { phase = Phase.finished }

to_over : Steps world (started lone_client) over_system
unfolding started close after_drain after_round after_resent send_round new_client new_event_queue
to_over =
    Steps.step
      (Steps.step (Steps.step (Steps.step Steps.stay Step.close_called) (Step.stopping refl refl))
        (Step.drained_all true none refl refl))
      (Step.resent true refl)

finished-closing_example : over_system.closing ≡ true
finished-closing_example = finished-closing world lone_client over_system to_over refl

over_system-IsOver : IsOver over_system
unfolding new_client new_event_queue
over_system-IsOver = record { phase = refl; closed = refl; in_flight = refl; queue = refl }

abbrev later_system : System
later_system = close over_system

later : Steps world over_system later_system
later = Steps.step Steps.stay Step.close_called

Steps-IsOver_example : IsOver later_system
Steps-IsOver_example = Steps-IsOver world over_system later_system later over_system-IsOver
