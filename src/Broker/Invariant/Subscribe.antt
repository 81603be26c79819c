-- ===== src/Broker/Invariant/Subscribe.antt =====
-- `subscribe` ends without a panic and keep the invariant.
use libvirt_rest_api.Base.{
  ℕ, suc, ◌+◌, ◌≡◌, ◌∙◌, true, false, Text, inl, inr, [], ◌∷◌, some, arith, length, update, ◌==◌,
  Bool-cases,
}
use libvirt_rest_api.Channel.{Channel, make, send_all_lem, close}
use libvirt_rest_api.Broker.{LifecycleEvent, EventBroker, Subscription, backlog, subscribe}
use libvirt_rest_api.Broker.Streams.{Stream-nothing}
use libvirt_rest_api.Broker.System.{System}
use libvirt_rest_api.Broker.Replay.{backlog-Stream, length-backlog-le}
use libvirt_rest_api.Broker.Invariant.Defs.{HasLog-channels, HasSubscribers, HasStreams, Inv}

module _ {s : System} (inv : Inv s) where
  open inv use {log, subscribers, streams}

  module _ (position : Text) (now : ℕ) (running : s.broker.closed ≡ false) where
    abbrev filled : Channel LifecycleEvent
    filled = record {
      buffer = backlog s.broker position now;
      capacity = length s.broker.history + 33;
      is_open = true;
    }

    abbrev joined : EventBroker
    joined = record s.broker {
      channels = update s.broker.channels s.broker.allocated filled;
      allocated = suc s.broker.allocated;
      subscribers = s.broker.allocated ∷ s.broker.subscribers;
    }

    subscribe_open :
        subscribe s.broker position now
        ≡ some (joined, record { events = s.broker.allocated; cancellable = true })
    unfolding subscribe
    subscribe_open = ground (
      arith,
      send_all_lem (make {A = LifecycleEvent} (length s.broker.history + 33))
          (backlog s.broker position now),
      length-backlog-le log position now,
    )

    joined-HasSubscribers : HasSubscribers joined
    joined-HasSubscribers = record {
      distinct = (
        subscribers.listed s.broker.allocated ∙ subscribers.made s.broker.allocated (omega arith),
        subscribers.distinct,
      );
      listed = λ j. ground (arith, subscribers.listed j);
      made = λ j h. ground (arith, subscribers.made j);
      stopped = λ h. ground arith;
    }

    joined-HasStreams : HasStreams (record s { broker = joined })
    joined-HasStreams = record {
      stream = λ j. elim (Bool-cases (s.broker.allocated == j)) [
        | inl new ↦ rw (new, streams.unused j (ground arith)) (backlog-Stream log position now)
        | inr old ↦ rw old (streams.stream j)
      ];
      fits = λ j. ground (arith, streams.fits j, length-backlog-le log position now);
      unused = λ j h. streams.unused j (omega arith);
      blank = λ j h. ground (arith, streams.blank j);
    }

  abbrev barred : EventBroker
  barred = record s.broker {
    channels =
        update s.broker.channels s.broker.allocated
          (record { buffer = []; capacity = length s.broker.history + 33; is_open = false });
    allocated = suc s.broker.allocated;
  }

  barred-Inv : s.broker.closed ≡ true → Inv (record s { broker = barred })
  barred-Inv over = record {
    log = HasLog-channels log _ _ _ _;
    subscribers = record {
      distinct = subscribers.distinct;
      listed = λ j. ground (arith, subscribers.listed j, subscribers.stopped over);
      made = λ j h. ground (arith, subscribers.made j);
      stopped = subscribers.stopped;
    };
    streams = record {
      stream = λ j. elim (Bool-cases (s.broker.allocated == j)) [
        | inl new ↦ rw (new, streams.unused j (ground arith)) (Stream-nothing s.log)
        | inr old ↦ rw old (streams.stream j)
      ];
      fits = λ j. ground (arith, streams.fits j);
      unused = λ j h. streams.unused j (omega arith);
      blank = λ j h. ground (arith, streams.blank j);
    };
  }

  -- A new subscription fits into its channel: the mutex is not held while waiting.
  pub subscribe-Inv :
      (position : Text) (now : ℕ)
      → (b : EventBroker) × (sub : Subscription) × (subscribe s.broker position now ≡ some (b, sub))
        × Inv (record s { broker = b })
  unfolding subscribe close
  subscribe-Inv position now = elim (Bool-cases s.broker.closed) [
    | inl over ↦ (
      barred,
      record { events = s.broker.allocated; cancellable = false },
      ground arith,
      barred-Inv over,
    )
    | inr running ↦ (
      joined position now running,
      record { events = s.broker.allocated; cancellable = true },
      subscribe_open position now running,
      record {
        log = HasLog-channels log _ _ _ _;
        subscribers = joined-HasSubscribers position now running;
        streams = joined-HasStreams position now running;
      },
    )
  ]
