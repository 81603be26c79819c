-- ===== src/Broker/Invariant/Clients.antt =====
-- `cancel`, `close` and a client's receive end without a panic and keep the invariant.
use libvirt_rest_api.Base.{
  ℕ, ◌≡◌, refl, sym, ◌∙◌, Bool, true, not, ◌&&◌, inl, inr, List, [], ◌∷◌, ◌++◌, some, arith,
  append_assoc, elem, update, ◌==◌, if◌then◌else◌, Bool-cases, select, select-IsDistinct,
  elem-select,
}
use libvirt_rest_api.Channel.{Channel, shut, close, receive, receive_lem}
use libvirt_rest_api.Broker.{LifecycleEvent, EventBroker, Subscription, cancel, close_broker}
use libvirt_rest_api.Broker.Loops.{close_each_lem}
use libvirt_rest_api.Broker.Streams.{Stream, Stream-shut}
use libvirt_rest_api.Broker.System.{System, after_receive}
use libvirt_rest_api.Broker.Invariant.Defs.{HasLog-channels, HasStreams, Inv}

-- Taking an event out of the channel leaves what the client was given as it was.
receive-Stream :
    {log : List LifecycleEvent} {event : LifecycleEvent} (received : List LifecycleEvent)
    (c c' : Channel LifecycleEvent)
    → Stream log (received ++ c.buffer) c.is_open
    → c.buffer ≡ event ∷ c'.buffer
    → c'.is_open ≡ c.is_open
    → Stream log ((received ++ event ∷ []) ++ c'.buffer) c'.is_open
receive-Stream {event} received c c' st taken as_open =
    rw (as_open, append_assoc received (event ∷ []) c'.buffer, ← taken) st

module _ {s : System} (inv : Inv s) where
  open inv use {log, subscribers, streams}

  -- Channels of which some are closed; all else stays.
  HasStreams-shut :
      (b : EventBroker) (closing : ℕ → Bool)
      → b.allocated ≡ s.broker.allocated
      → ((j : ℕ)
          → b.channels j ≡ (if closing j then shut (s.broker.channels j) else s.broker.channels j))
      → HasStreams (record s { broker = b })
  HasStreams-shut b closing same each = record {
    stream = λ j. elim (Bool-cases (closing j)) [
      | inl gone ↦ rw (each j, gone) (Stream-shut (streams.stream j))
      | inr stays ↦ rw (each j, stays) (streams.stream j)
    ];
    fits = λ j. ground (arith, each j, streams.fits j);
    unused = λ j h. streams.unused j (omega (arith, same));
    blank = λ j h. ground (arith, each j, streams.blank j);
  }

  -- Cancelling never panics, however often it is called.
  pub cancel-Inv :
      (sub : Subscription)
      → (b : EventBroker) × (cancel s.broker sub ≡ some b) × Inv (record s { broker = b })
  unfolding cancel close select
  cancel-Inv sub = elim (Bool-cases (sub.cancellable && elem sub.events s.broker.subscribers)) [
    | inl here ↦
        let b : EventBroker = record s.broker {
          channels = update s.broker.channels sub.events (shut (s.broker.channels sub.events));
          subscribers = select (λ j. not (j == sub.events)) s.broker.subscribers;
        } in
        (
          b,
          ground (arith, subscribers.listed sub.events),
          record {
            log = HasLog-channels log _ _ _ _;
            subscribers = record {
              distinct = select-IsDistinct _ _ subscribers.distinct;
              listed = λ j. ground (
                arith,
                elem-select (λ k. not (k == sub.events)) j s.broker.subscribers,
                subscribers.listed j,
              );
              made = λ j h. ground (arith, subscribers.made j h);
              stopped = λ h. rw (subscribers.stopped h);
            };
            streams = HasStreams-shut b (λ j. sub.events == j) refl (λ j. ground arith);
          },
        )
    | inr gone ↦ (s.broker, rw gone, inv)
  ]

  -- Closing the broker closes every channel that is still open.
  pub close_broker-Inv :
      (b : EventBroker) × (close_broker s.broker ≡ some b) × Inv (record s { broker = b })
  unfolding close_broker
  close_broker-Inv = elim (Bool-cases s.broker.closed) [
    | inl over ↦ (s.broker, simp over, inv)
    | inr running ↦
        let (after, done, each) =
          close_each_lem s.broker.subscribers s.broker.channels subscribers.distinct
            (λ j m. sym (subscribers.listed j) ∙ m) in
        let b : EventBroker = record s.broker {
          closed = true;
          subscribers = [];
          channels = after;
        } in
        (
          b,
          ground (arith, done),
          record {
            log = HasLog-channels log _ _ _ _;
            subscribers = record {
              distinct = tt;
              listed = λ j. ground (arith, each j, subscribers.listed j);
              made = λ j h. ground (arith, each j, subscribers.listed j, subscribers.made j h);
              stopped = λ h. refl;
            };
            streams = HasStreams-shut b (λ j. elem j s.broker.subscribers) refl each;
          },
        )
  ]

  pub receive-Inv :
      (i : ℕ) (event : LifecycleEvent) (c : Channel LifecycleEvent)
      → receive (s.broker.channels i) ≡ some (event, c)
      → Inv (after_receive s i event c)
  unfolding receive
  receive-Inv i event c got =
      let (taken, same, as_open) = receive_lem (s.broker.channels i) got in
      record {
        log = HasLog-channels log _ _ _ _;
        subscribers = record {
          distinct = subscribers.distinct;
          listed = λ j. ground (arith, subscribers.listed j);
          made = λ j h. ground (arith, subscribers.made j h);
          stopped = subscribers.stopped;
        };
        streams = record {
          stream = λ j. elim (Bool-cases (i == j)) [
            | inl here ↦ rw here (
                receive-Stream (s.received i) (s.broker.channels i) c (streams.stream i) taken
                  as_open)
            | inr other ↦ rw other (streams.stream j)
          ];
          fits = λ j. ground (arith, streams.fits j);
          unused = λ j h. ground (arith, streams.unused j h, streams.blank j h);
          blank = λ j h. ground (arith, streams.blank j h);
        };
      }
