-- ===== src/Broker/Invariant/Defs.antt =====
-- What holds of the broker and its clients after any steps.
use libvirt_rest_api.Base.{
  ℕ, ◌^◌, ◌≤◌, ◌<◌, ◌≡◌, Bool, refl, true, false, ◌⊎◌, inl, List, [], ◌++◌, Option, arith, length,
  All, elem, IsDistinct,
}
use libvirt_rest_api.Broker.{LifecycleEvent, EventBroker, history_limit, cursor, new_event_broker}
use libvirt_rest_api.Broker.Loops.{Channels}
use libvirt_rest_api.Broker.Streams.{Follows, Stream, Stream-nothing}
use libvirt_rest_api.Broker.Cursor.{HasNoColon, new_event_broker-HasNoColon}
use libvirt_rest_api.Broker.System.{System, init}

-- The counter, the history and the cursors, against the log.
pub record HasLog (b : EventBroker) (log : List LifecycleEvent) : Type 0 where
  pub small : b.next_id < 2 ^ 64
  pub clean : HasNoColon b.generation
  pub numbered : Follows 0 log b.next_id
  pub named : All (λ e. e.cursor ≡ cursor b.generation e.id) log
  pub older : List LifecycleEvent
  pub kept : log ≡ older ++ b.history
  pub short : length b.history ≤ history_limit
  pub full : (older ≡ []) ⊎ (length b.history ≡ history_limit)

-- The subscribers are the open channels, each listed once.
pub record HasSubscribers (b : EventBroker) : Type 0 where
  pub distinct : IsDistinct b.subscribers
  pub listed : (j : ℕ) → elem j b.subscribers ≡ (b.channels j).is_open
  pub made : (j : ℕ) → b.allocated ≤ j → (b.channels j).is_open ≡ false
  pub stopped : b.closed ≡ true → b.subscribers ≡ []

abbrev pub given : System → ℕ → List LifecycleEvent
given s j = s.received j ++ (s.broker.channels j).buffer

-- Each client's stream, its buffer within its capacity, and channels not yet made are empty.
pub record HasStreams (s : System) : Type 0 where
  pub stream : (j : ℕ) → Stream s.log (given s j) (s.broker.channels j).is_open
  pub fits : (j : ℕ) → length (s.broker.channels j).buffer ≤ (s.broker.channels j).capacity
  pub unused : (j : ℕ) → s.broker.allocated ≤ j → s.received j ≡ []
  pub blank : (j : ℕ) → s.broker.allocated ≤ j → (s.broker.channels j).buffer ≡ []

pub record Inv (s : System) : Type 0 where
  pub log : HasLog s.broker s.log
  pub subscribers : HasSubscribers s.broker
  pub streams : HasStreams s

-- The log part does not read the channels.
pub HasLog-channels :
    {b : EventBroker} {log : List LifecycleEvent}
    → HasLog b log
    → (subscribers : List ℕ) (closed : Bool) (channels : Channels) (allocated : ℕ)
    → HasLog
        (record b {
          subscribers = subscribers;
          closed = closed;
          channels = channels;
          allocated = allocated;
        })
        log
HasLog-channels h subscribers closed channels allocated = record {
  small = h.small;
  clean = h.clean;
  numbered = h.numbered;
  named = h.named;
  older = h.older;
  kept = h.kept;
  short = h.short;
  full = h.full;
}

pub init-Inv : (random : Option (List ℕ)) (now : ℕ) → Inv (init random now)
unfolding new_event_broker
init-Inv random now = record {
  log = record {
    small = omega arith;
    clean = new_event_broker-HasNoColon random now;
    numbered = refl;
    named = tt;
    older = [];
    kept = refl;
    short = omega arith;
    full = inl refl;
  };
  subscribers = record {
    distinct = tt;
    listed = λ j. refl;
    made = λ j h. refl;
    stopped = λ h. refl;
  };
  streams = record {
    stream = λ j. Stream-nothing [];
    fits = λ j. omega arith;
    unused = λ j h. refl;
    blank = λ j h. refl;
  };
}
