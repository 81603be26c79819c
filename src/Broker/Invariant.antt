-- ===== src/Broker/Invariant.antt =====
-- What holds of the broker and its clients after any steps.
pub mod Defs
mod Log
mod Publish
mod Subscribe
mod Clients
pub use Defs.*
pub use Publish.{publish-Inv}
pub use Subscribe.{subscribe-Inv}
pub use Clients.{cancel-Inv, close_broker-Inv, receive-Inv}
use libvirt_rest_api.Base.{result_unique, ◌≡◌, refl, ap, subst, some, ◌∙◌, sym}
use libvirt_rest_api.Broker.{EventBroker}
use libvirt_rest_api.Broker.System.{
  System, Step, published, subscribed, cancelled, closed, received, Reach, start, later,
  lifecycle_event, after_publish,
}

-- Every step of the broker or of a client keeps the invariant.
pub Step-Inv : {s t : System} → Step s t → Inv s → Inv t
Step-Inv {s} (published name uuid event detail now room done) inv =
    let (b, done', kept) = publish-Inv inv (lifecycle_event name uuid event detail) now refl room in
    subst (λ b. Inv (after_publish s (lifecycle_event name uuid event detail) now b))
      (result_unique done' done) kept
Step-Inv {s} (subscribed position now done) inv =
    let (b, sub, done', kept) = subscribe-Inv inv position now in
    subst (λ b. Inv (record s { broker = b })) (ap (λ r. r.0) (result_unique done' done)) kept
Step-Inv {s} (cancelled sub done) inv =
    let (b, done', kept) = cancel-Inv inv sub in
    subst (λ b. Inv (record s { broker = b })) (result_unique done' done) kept
Step-Inv {s} (closed done) inv =
    let (b, done', kept) = close_broker-Inv inv in
    subst (λ b. Inv (record s { broker = b })) (result_unique done' done) kept
Step-Inv (received j got) inv = receive-Inv inv j _ _ got

pub Reach-Inv : {s : System} → Reach s → Inv s
Reach-Inv (start random now) = init-Inv random now
Reach-Inv (later r step) = Step-Inv step (Reach-Inv r)
