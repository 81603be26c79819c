-- ===== src/Broker/System.antt =====
-- The broker with its clients, in any order of their steps. `log` and `received` are what an
-- observer notes down: every event that was published, and what each client took from its channel.
use libvirt_rest_api.Base.{
  ℤ, ℕ, suc, ◌<◌, ◌^◌, ◌≡◌, false, List, [], ◌∷◌, ◌++◌, Option, some, update, ◌==◌, if◌then◌else◌,
  Text,
}
use libvirt_rest_api.Channel.{Channel, receive}
use libvirt_rest_api.Broker.{
  LifecycleEvent, EventBroker, Subscription, new_event_broker, stamp, publish, subscribe, cancel,
  close_broker,
}

pub record System : Type 0 where
  pub broker : EventBroker
  pub log : List LifecycleEvent
  pub received : ℕ → List LifecycleEvent

-- The literal that `recordLifecycleEvent` passes to `publish`.
abbrev pub lifecycle_event : Text → Text → Text → ℤ → LifecycleEvent
lifecycle_event name uuid event detail = record {
  id = 0;
  cursor = [];
  occurred_at = 0;
  name = name;
  uuid = uuid;
  event = event;
  detail = detail;
  stream_reset = false;
}

abbrev pub init : Option (List ℕ) → ℕ → System
init random now = record { broker = new_event_broker random now; log = []; received = λ _. [] }

-- An event was published if the broker counted it, whatever made the broker do so.
abbrev pub after_publish : System → LifecycleEvent → ℕ → EventBroker → System
after_publish s event now b = record s {
  broker = b;
  log = if b.next_id == s.broker.next_id then s.log else s.log ++ stamp s.broker event now ∷ [];
}

abbrev pub after_receive : System → ℕ → LifecycleEvent → Channel LifecycleEvent → System
after_receive s j event c = record s {
  broker = record s.broker { channels = update s.broker.channels j c };
  received = update s.received j (s.received j ++ event ∷ []);
}

-- Any thread may move next. `published` leaves out the event at which the counter would wrap.
pub data Step (s : System) : System → Type 0 where
  published :
      (name uuid event : Text) (detail : ℤ) (now : ℕ) {b : EventBroker}
      → suc s.broker.next_id < 2 ^ 64
      → publish s.broker (lifecycle_event name uuid event detail) now ≡ some b
      → Step s (after_publish s (lifecycle_event name uuid event detail) now b)
  subscribed :
      (position : Text) (now : ℕ) {b : EventBroker} {sub : Subscription}
      → subscribe s.broker position now ≡ some (b, sub)
      → Step s (record s { broker = b })
  cancelled :
      (sub : Subscription) {b : EventBroker}
      → cancel s.broker sub ≡ some b
      → Step s (record s { broker = b })
  closed : {b : EventBroker} → close_broker s.broker ≡ some b → Step s (record s { broker = b })
  received :
      (j : ℕ) {event : LifecycleEvent} {c : Channel LifecycleEvent}
      → receive (s.broker.channels j) ≡ some (event, c)
      → Step s (after_receive s j event c)

pub data Reach : System → Type 0 where
  start : (random : Option (List ℕ)) (now : ℕ) → Reach (init random now)
  later : {s t : System} → Reach s → Step s t → Reach t
