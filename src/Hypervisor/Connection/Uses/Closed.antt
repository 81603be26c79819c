-- ===== src/Hypervisor/Connection/Uses/Closed.antt =====
-- internal/hypervisor/events.go: what the operations of a broker leave closed.
use libvirt_rest_api.Base.{ℕ, ◌≡◌, sym, ap, ◌∙◌, true, [], Text, some, arith, result_unique}
use libvirt_rest_api.Channel.{close as close_channel}
use libvirt_rest_api.Broker.{
  EventBroker, LifecycleEvent, Subscription, publish, close_broker, subscribe, cancel,
}

pub publish_when_closed :
    (b : EventBroker) (e : LifecycleEvent) (time : ℕ) {b' : EventBroker}
    → publish b e time ≡ some b'
    → b.closed ≡ true
    → b'.closed ≡ true
unfolding publish
publish_when_closed b e time {b'} did over =
    let same : publish b e time ≡ some b = simp over in
    ap (λ (x : EventBroker). x.closed) (sym (result_unique same did)) ∙ over

pub subscribe_when_closed :
    (b : EventBroker) (position : Text) (time : ℕ) {b' : EventBroker} {sub : Subscription}
    → subscribe b position time ≡ some (b', sub)
    → b.closed ≡ true
    → b'.closed ≡ true
unfolding subscribe close_channel
subscribe_when_closed b position time did over = ground (arith, did, over)

pub cancel_when_closed :
    (b : EventBroker) (sub : Subscription) {b' : EventBroker}
    → cancel b sub ≡ some b'
    → b.subscribers ≡ []
    → b.closed ≡ true
    → b'.closed ≡ true
unfolding cancel
cancel_when_closed b sub did none_left over = ground (arith, did, over, none_left)

pub close_broker-closed :
    (b : EventBroker) {b' : EventBroker} → close_broker b ≡ some b' → b'.closed ≡ true
unfolding close_broker
close_broker-closed b did = ground (arith, did)
