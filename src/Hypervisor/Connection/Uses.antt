-- ===== src/Hypervisor/Connection/Uses.antt =====
-- internal/hypervisor/libvirt.go: a service that `Connect` returned, with the events that libvirt
-- reports to it, its subscribers, and the calls of `Close`.
mod Closed
pub mod Runs
use libvirt_rest_api.Base.{
  ℤ, ℕ, suc, ◌+◌, ◌^◌, ◌<◌, ◌≤◌, ◌≡◌, refl, sym, ap, subst, ◌∙◌, Bool, true, false, ◌||◌, elem,
  length, length-append, List, [], ◌∷◌, Text, Option, none, some, arith, result_unique,
}
use libvirt_rest_api.Errors.{Error, Result, ok, err}
use libvirt_rest_api.Channel.{close as close_channel}
use libvirt_rest_api.Broker.{
  EventBroker, LifecycleEvent, Subscription, new_event_broker, stamp, publish, close_broker,
  subscribe, cancel,
}
use libvirt_rest_api.Broker.Streams.{Follows-length}
use libvirt_rest_api.Broker.Invariant.{
  Inv, init-Inv, publish-Inv, subscribe-Inv, cancel-Inv, close_broker-Inv,
}
use libvirt_rest_api.Broker.System.{System, init, lifecycle_event, after_publish}
use libvirt_rest_api.Hypervisor.Connection.{
  now, domain_name, Answers, Package, Libvirt, P, request, DomainEventType, lifecycle_event_name,
  record_lifecycle_event, after_name, after_uuid, published, closed_connection, closed_broker,
  after_set_up, after_opened, after_registered, subscribe_to_events, close, connect,
}

-- What happens to a service.
pub data Use : Type 0 where
  reported : (domain : ℕ) → DomainEventType → (detail : ℤ) → Use
  subscribing : (position : Text) → Use
  cancelling : Subscription → Use
  closing : Use

abbrev pub with_broker : Libvirt → Option EventBroker → Option Libvirt
with_broker l none = none
with_broker l (some b) = some (record l { broker = some b })

abbrev pub cancelled_by : Libvirt → Subscription → Option EventBroker → Option Libvirt
cancelled_by l sub none = none
cancelled_by l sub (some b) = with_broker l (cancel b sub)

abbrev pub first_of : {A B : Type 0} → Option (A × B) → Option A
first_of none = none
first_of (some (a, _)) = some a

abbrev pub second_of : {A B : Type 0} → Option (A × B) → Option B
second_of none = none
second_of (some (_, b)) = some b

-- A use; `none` is a panic.
abbrev pub use_once : Answers → Use → Libvirt → P (Option Libvirt)
use_once answers (reported domain event detail) l g =
    record_lifecycle_event answers l domain event detail g
use_once answers (subscribing position) l g =
    let (r, g') = subscribe_to_events answers l position g in (first_of r, g')
use_once answers (cancelling sub) l g = (cancelled_by l sub l.broker, g)
use_once answers closing l g = let (r, g') = close answers l g in (second_of r, g')

abbrev pub use_each : Answers → List Use → Option Libvirt → P (Option Libvirt)
use_each answers uses none g = (none, g)
use_each answers [] (some l) g = (some l, g)
use_each answers (u ∷ uses) (some l) g =
    let (r, g') = use_once answers u l g in use_each answers uses r g'

abbrev pub closes : Use → Bool
closes closing = true
closes _ = false

abbrev pub any_closes : List Use → Bool
any_closes [] = false
any_closes (u ∷ uses) = closes u || any_closes uses
