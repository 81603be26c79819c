-- ===== src/Hypervisor/Connection/Uses/Runs.antt =====
-- internal/hypervisor/libvirt.go: the runs of a service.
use libvirt_rest_api.Base.{
  ℤ, ℕ, suc, ◌+◌, ◌^◌, ◌<◌, ◌≤◌, ◌≡◌, refl, sym, ap, subst, ◌∙◌, Bool, true, false, ◌||◌, elem,
  length, length-append, List, [], ◌∷◌, Text, Option, none, some, arith,
}
use libvirt_rest_api.Errors.{Error, Result, ok, err}
use libvirt_rest_api.Broker.{EventBroker, new_event_broker, stamp}
use libvirt_rest_api.Broker.Streams.{Follows-length}
use libvirt_rest_api.Broker.Invariant.{
  Inv, init-Inv, publish-Inv, subscribe-Inv, cancel-Inv, close_broker-Inv,
}
use libvirt_rest_api.Broker.System.{System, init, lifecycle_event, after_publish}
use libvirt_rest_api.Hypervisor.Connection.{
  now, domain_name, Answers, Package, Libvirt, request, DomainEventType, lifecycle_event_name,
  record_lifecycle_event, after_name, after_uuid, published, closed_connection, closed_broker,
  after_set_up, after_opened, after_registered, subscribe_to_events, close, connect,
}
use libvirt_rest_api.Hypervisor.Connection.Uses.{
  Use, reported, subscribing, cancelling, closing, use_once, use_each, closes, any_closes,
  second_of,
}
use libvirt_rest_api.Hypervisor.Connection.Uses.Closed.{
  publish_when_closed, subscribe_when_closed, cancel_when_closed, close_broker-closed,
}

-- The service's broker is that of a run, closed if the service was closed.
record Stands (l : Libvirt) (s : System) (over : Bool) : Type 0 where
  pub broker : l.broker ≡ some s.broker
  pub inv : Inv s
  pub shut : over ≡ true → s.broker.closed ≡ true

record Used (l : Libvirt) (s : System) (over : Bool) (result : Option Libvirt) : Type 0 where
  pub service : Libvirt
  pub run : System
  pub returned : result ≡ some service
  pub stands : Stands service run over
  pub grown : length run.log ≤ suc (length s.log)
  pub connection : service.connection ≡ l.connection

module _ (answers : Answers) {l : Libvirt} {s : System} {over : Bool} (st : Stands l s over) where
  unchanged : Used l s over (some l)
  unchanged = record {
    service = l;
    run = s;
    returned = refl;
    stands = st;
    grown = omega arith;
    connection = refl;
  }

  module _ (room : suc (length s.log) < 2 ^ 64) where
    published-Used :
        (name uuid : Text) (event : DomainEventType) (detail : ℤ) (g : Package)
        → Used l s over (published answers l name uuid event detail g).0
    unfolding published
    published-Used name uuid event detail g =
        let small : suc s.broker.next_id < 2 ^ 64 =
          omega (arith, Follows-length 0 _ s.log st.inv.log.numbered) in
        let e = lifecycle_event name uuid (lifecycle_event_name event) detail in
        let (b, done, kept) = publish-Inv st.inv e (answers g.trace now) refl small in
        record {
          service = record l { broker = some b };
          run = after_publish s e (answers g.trace now) b;
          returned = rw (st.broker, done);
          stands = record {
            broker = refl;
            inv = kept;
            shut = λ h. publish_when_closed s.broker e _ done (st.shut h);
          };
          grown = ground (arith, length-append s.log (stamp s.broker e (answers g.trace now) ∷ []));
          connection = refl;
        }

    after_uuid-Used :
        (name : Text) (event : DomainEventType) (detail : ℤ) (uuid : Result Text) (g : Package)
        → Used l s over (after_uuid answers l name event detail uuid g).0
    unfolding after_uuid
    after_uuid-Used name event detail (err _) g = unchanged
    after_uuid-Used name event detail (ok uuid) g = published-Used name uuid event detail g

    after_name-Used :
        (domain : ℕ) (event : DomainEventType) (detail : ℤ) (name : Result Text) (g : Package)
        → Used l s over (after_name answers l domain event detail name g).0
    unfolding after_name
    after_name-Used domain event detail (err _) g = unchanged
    after_name-Used domain event detail (ok name) g = after_uuid-Used name event detail _ _

  -- Another broker with the same log.
  moved :
      (b : EventBroker) (last : Bool) (result : Option Libvirt)
      → result ≡ some (record l { broker = some b })
      → Inv (record s { broker = b })
      → (last ≡ true → b.closed ≡ true)
      → Used l s last result
  moved b last result returned kept shut = record {
    service = record l { broker = some b };
    run = record s { broker = b };
    returned = returned;
    stands = record { broker = refl; inv = kept; shut = shut };
    grown = omega arith;
    connection = refl;
  }

  closing-Used : (g : Package) → Used l s true (second_of (close answers l g).0)
  unfolding close closed_broker closed_connection
  closing-Used g =
      let (b, done, kept) = close_broker-Inv st.inv in
      moved b true _ (rw (st.broker, done) refl) kept (λ _. close_broker-closed s.broker done)

  use_once-Used :
      (u : Use) (g : Package)
      → suc (length s.log) < 2 ^ 64
      → Used l s (closes u || over) (use_once answers u l g).0
  unfolding record_lifecycle_event subscribe_to_events
  use_once-Used (reported domain event detail) g room =
      after_name-Used room domain event detail (answers g.trace (domain_name domain))
        (request answers (domain_name domain) g).1
  use_once-Used (subscribing position) g room =
      let (b, sub, done, kept) = subscribe-Inv st.inv position (answers g.trace now) in
      moved b over _ (rw (st.broker, done) refl) kept
        (λ h. subscribe_when_closed s.broker position _ done (st.shut h))
  use_once-Used (cancelling sub) g room =
      let (b, done, kept) = cancel-Inv st.inv sub in
      moved b over _ (rw (st.broker, done) refl) kept (λ h.
        cancel_when_closed s.broker sub done (st.inv.subscribers.stopped (st.shut h)) (st.shut h))
  use_once-Used closing g room = closing-Used g

use_each-Used :
    (answers : Answers) (uses : List Use) (l : Libvirt) (s : System) (over : Bool) (g : Package)
    → Stands l s over
    → length s.log + length uses < 2 ^ 64
    → (last : Libvirt) × (run : System) × ((use_each answers uses (some l) g).0 ≡ some last)
      × Stands last run (any_closes uses || over)
      × (last.connection ≡ l.connection)
use_each-Used answers [] l s over g st room = (l, s, refl, st, refl)
use_each-Used answers (u ∷ uses) l s over g st room =
    let first = use_once-Used answers st u g (omega arith) in
    let (last, run, done, stands, same) =
      use_each-Used answers uses first.service first.run (closes u || over)
        (use_once answers u l g).1 first.stands (omega (arith, first.grown)) in
    (
      last,
      run,
      ap (λ r. (use_each answers uses r (use_once answers u l g).1).0) first.returned ∙ done,
      subst (Stands last run) (grind arith) stands,
      same ∙ first.connection,
    )

-- A service with a broker that nothing was published to.
abbrev Fresh : Libvirt → Type 0
Fresh l = (random : Option (List ℕ)) × (time : ℕ) × Stands l (init random time) false

module _ (answers : Answers) (l : Libvirt) where
  after_registered-Fresh :
      (c : ℕ) (random : Option (List ℕ)) (time : ℕ) (r : Result ℤ) (g : Package)
      → (after_registered answers c (new_event_broker random time) r g).0 ≡ ok l
      → Fresh l
  unfolding after_registered
  after_registered-Fresh c random time (err e) g made = absurd (ground (arith, made))
  after_registered-Fresh c random time (ok id) g made =
      let started : Libvirt = record {
        connection = c;
        broker = some (new_event_broker random time);
        event_callback_id = id;
      } in
      let same : started ≡ l = ground (arith, made) in
      subst Fresh same (
        random,
        time,
        record {
          broker = refl;
          inv = init-Inv random time;
          shut = λ h. absurd (ground (arith, h));
        },
      )

  after_opened-Fresh :
      (opened : Result ℕ) (g : Package) → (after_opened answers opened g).0 ≡ ok l → Fresh l
  unfolding after_opened
  after_opened-Fresh (err e) g made = absurd (ground (arith, made))
  after_opened-Fresh (ok c) g made = after_registered-Fresh c _ _ _ _ made

  after_set_up-Fresh :
      (uri : Text) (e : Option Error) (g : Package)
      → (after_set_up answers uri e g).0 ≡ ok l
      → Fresh l
  unfolding after_set_up
  after_set_up-Fresh uri (some e) g made = absurd (ground (arith, made))
  after_set_up-Fresh uri none g made = after_opened-Fresh _ _ made

  connect-Fresh : (uri : Text) (g : Package) → (connect answers uri g).0 ≡ ok l → Fresh l
  unfolding connect
  connect-Fresh uri g made = after_set_up-Fresh uri _ _ made

-- A service that `Connect` returned, and any sequence of lifecycle events, of new subscriptions, of
-- cancellations and of calls of `Close`, of fewer than 2^64 steps: none of them panics; and if the
-- service was closed at one of them, then at the end the channels of all subscribers are closed.
pub services_run :
    (answers : Answers) (uri : Text) (g : Package) (l : Libvirt)
    → (connect answers uri g).0 ≡ ok l
    → (uses : List Use) (later : Package) → length uses < 2 ^ 64
    → (last : Libvirt) × (b : EventBroker) × ((use_each answers uses (some l) later).0 ≡ some last)
      × (last.broker ≡ some b)
      × (any_closes uses ≡ true → (j : ℕ) → (b.channels j).is_open ≡ false)
services_run answers uri g l made uses later room =
    let (random, time, st) = connect-Fresh answers l uri g made in
    let (last, run, done, stands, same) =
      use_each-Used answers uses l (init random time) false later st (omega arith) in
    (
      last,
      run.broker,
      done,
      stands.broker,
      λ h j.
          let shut = stands.shut (grind (arith, h)) in
          sym (stands.inv.subscribers.listed j) ∙ ap (elem j) (stands.inv.subscribers.stopped shut),
    )
