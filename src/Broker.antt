-- ===== src/Broker.antt =====
-- internal/hypervisor/events.go: the broker of lifecycle events. A channel is named by a number,
-- and `channels` holds the channels that the process has made so far; `none` is a panic, or a send
-- that would block under the mutex. Every method holds the mutex, so it is one step.
mod Loops
pub mod Replay
pub mod Invariant
pub mod Closed
pub mod Delivery
mod Tests
pub mod Streams
pub mod Cursor
pub mod System
use libvirt_rest_api.Base.{
  ℤ, pos, ℕ, suc, ◌+◌, ◌-◌, ◌%◌, ◌^◌, Bool, true, false, not, ◌&&◌, ◌||◌, List, [], ◌∷◌, ◌++◌,
  Option, none, some, length, drop, select, elem, update, ltb, ◌==◌, if◌then◌else◌, Text, text_eq,
  cut, format_uint, hex_encode, parse_uint,
}
use libvirt_rest_api.Channel.{Channel, ◌>>=◌, make, push, shut, has_room, send, close, send_all}

pub record LifecycleEvent : Type 0 where
  pub id : ℕ  -- uint64
  pub cursor : Text
  pub occurred_at : ℕ  -- nanoseconds
  pub name : Text
  pub uuid : Text
  pub event : Text
  pub detail : ℤ
  pub stream_reset : Bool

pub record EventBroker : Type 0 where
  pub next_id : ℕ  -- uint64
  pub history : List LifecycleEvent
  pub subscribers : List ℕ
  pub closed : Bool
  pub generation : Text
  pub channels : ℕ → Channel LifecycleEvent
  pub allocated : ℕ

-- What `subscribe` returns: the channel, and whether `Cancel` does anything.
pub record Subscription : Type 0 where
  pub events : ℕ
  pub cancellable : Bool

-- `newEventBroker`: the generation is twelve random bytes, or the time where there are none.
unfoldable pub new_event_broker : Option (List ℕ) → ℕ → EventBroker
new_event_broker random now = record {
  next_id = 0;
  history = [];
  subscribers = [];
  closed = false;
  generation = elim random [ none ↦ format_uint now 36 | some bytes ↦ hex_encode bytes ];
  channels = λ _. record { buffer = []; capacity = 0; is_open = false };
  allocated = 0;
}

abbrev pub history_limit : ℕ
history_limit = 256

abbrev pub u64 : ℕ → ℕ
u64 n = n % 2 ^ 64

unfoldable pub cursor : Text → ℕ → Text
cursor generation id = generation ++ b':' ∷ format_uint id 10

-- The event as `publish` sends it.
unfoldable pub stamp : EventBroker → LifecycleEvent → ℕ → LifecycleEvent
stamp b event now = record event {
  id = u64 (b.next_id + 1);
  cursor = cursor b.generation (u64 (b.next_id + 1));
  occurred_at = now;
}

-- The last `history_limit` events of a history.
unfoldable pub trim : List LifecycleEvent → List LifecycleEvent
trim history =
    if ltb history_limit (length history)
    then drop (length history - history_limit) history
    else history

-- One round of the loop over the subscribers: the `select` with a default. The flag says whether
-- the subscriber stays.
unfoldable pub offer :
    Channel LifecycleEvent → LifecycleEvent → Option (Channel LifecycleEvent × Bool)
unfolding send close
offer c event =
    if c.is_open
    then if has_room c then some (push c event, true) else (close c >>= λ c'. some (c', false))
    else none

-- The loop: the channels after it, and the subscribers that stay.
unfoldable pub deliver :
    LifecycleEvent
    → List ℕ
    → (ℕ → Channel LifecycleEvent)
    → Option ((ℕ → Channel LifecycleEvent) × List ℕ)
unfolding offer
deliver event [] channels = some (channels, [])
deliver event (i ∷ rest) channels = offer (channels i) event >>= λ (c, stays).
    deliver event rest (update channels i c) >>= λ (channels', kept).
    some (channels', if stays then i ∷ kept else kept)

unfoldable pub publish : EventBroker → LifecycleEvent → ℕ → Option EventBroker
unfolding stamp
publish b event now =
    if b.closed
    then some b
    else (deliver (stamp b event now) b.subscribers b.channels >>= λ (channels, subscribers).
        some (record b {
          next_id = u64 (b.next_id + 1);
          history = trim (b.history ++ stamp b event now ∷ []);
          subscribers = subscribers;
          channels = channels;
        }))

-- `afterCursor`: the sequence number, and whether the cursor cannot be replayed.
unfoldable pub after_cursor : EventBroker → Text → ℕ × Bool
after_cursor b [] = (0, false)
after_cursor b (c ∷ rest) =
    let (generation, sequence, found) = cut b':' (c ∷ rest) in
    if not found || not (text_eq generation b.generation)
    then (0, true)
    else (elim (parse_uint 64 sequence) [
      | none ↦ (0, true)
      | some after ↦ if ltb b.next_id after then (0, true) else (after, false)
    ])

-- `len(b.history) > 0 && after < b.history[0].ID-1`, in uint64 arithmetic.
unfoldable pub has_gap : List LifecycleEvent → ℕ → Bool
has_gap [] after = false
has_gap (oldest ∷ _) after = ltb after (u64 (oldest.id + 2 ^ 64 - 1))

unfoldable pub reset_notice : EventBroker → ℕ → LifecycleEvent
reset_notice b now = record {
  id = b.next_id;
  cursor = cursor b.generation b.next_id;
  occurred_at = now;
  name = [];
  uuid = [];
  event = [];
  detail = pos 0;
  stream_reset = true;
}

-- What a new subscriber finds in its channel.
unfoldable pub backlog : EventBroker → Text → ℕ → List LifecycleEvent
unfolding reset_notice
backlog b position now =
    let (after, unreplayable) = after_cursor b position in
    if unreplayable || has_gap b.history after
    then reset_notice b now ∷ []
    else select (λ event. ltb after event.id) b.history

unfoldable pub subscribe : EventBroker → Text → ℕ → Option (EventBroker × Subscription)
subscribe b position now =
    let channel : Channel LifecycleEvent = make (length b.history + 33) in
    let i = b.allocated in
    if b.closed
    then (close channel >>= λ c. some (
      record b { channels = update b.channels i c; allocated = suc i },
      record { events = i; cancellable = false },
    ))
    else (send_all channel (backlog b position now) >>= λ c. some (
      record b {
        channels = update b.channels i c;
        allocated = suc i;
        subscribers = i ∷ b.subscribers;
      },
      record { events = i; cancellable = true },
    ))

-- `Cancel`. The guard makes a second call a no-op, as `sync.Once` does.
unfoldable pub cancel : EventBroker → Subscription → Option EventBroker
cancel b s =
    if s.cancellable && elem s.events b.subscribers
    then (close (b.channels s.events) >>= λ c. some (record b {
      channels = update b.channels s.events c;
      subscribers = select (λ j. not (j == s.events)) b.subscribers;
    }))
    else some b

unfoldable pub close_each :
    List ℕ → (ℕ → Channel LifecycleEvent) → Option (ℕ → Channel LifecycleEvent)
close_each [] channels = some channels
close_each (i ∷ rest) channels = close (channels i) >>= λ c. close_each rest (update channels i c)

unfoldable pub close_broker : EventBroker → Option EventBroker
close_broker b =
    if b.closed
    then some b
    else (close_each b.subscribers b.channels >>= λ channels.
        some (record b { closed = true; subscribers = []; channels = channels }))
