-- ===== src/Broker/Delivery.antt =====
-- What the broker promises its clients, in every state that any order of steps can reach.
use libvirt_rest_api.Base.{
  ℤ, ℕ, suc, ◌+◌, ◌≤◌, ◌<◌, ◌^◌, ◌≡◌, refl, ◌≢◌, true, false, ◌⊎◌, inl, inr, List, [], ◌∷◌, ◌++◌,
  some, arith, length, drop, elem, sym, ap, Bool-cases, text_eq, text_eq_iff, ltb, not, ◌&&◌, ◌∙◌,
  Text, ◌||◌,
}
use libvirt_rest_api.Channel.{make, send_all_lem}
use libvirt_rest_api.Broker.{
  LifecycleEvent, EventBroker, Subscription, cursor, after_cursor, has_gap, reset_notice, backlog,
  publish, subscribe, cancel, close_broker,
}
use libvirt_rest_api.Broker.Streams.{Follows, Follows-split, Follows-rest, Stream}
use libvirt_rest_api.Broker.Cursor.{HasNoColon, after_cursor-cursor, after_cursor_foreign}
use libvirt_rest_api.Broker.Replay.{no_gap, gap, backlog-drop, backlog_reset, length-backlog-le}
use libvirt_rest_api.Broker.System.{System, Step, Reach, later, lifecycle_event}
use libvirt_rest_api.Broker.Invariant.{
  HasLog, given, Reach-Inv, publish-Inv, subscribe-Inv, cancel-Inv, close_broker-Inv,
}
use libvirt_rest_api.Broker.Closed.{closed-Step}

-- No call of the broker panics or waits for room while it holds the mutex: below the wrap of the
-- counter every publication, and every subscription, cancellation and close, returns a broker.
pub operations_succeed :
    {s : System}
    → Reach s
    → ((name uuid event : Text) (detail : ℤ) (now : ℕ)
        → suc s.broker.next_id < 2 ^ 64
        → (b : EventBroker) × (publish s.broker (lifecycle_event name uuid event detail) now
            ≡ some b))
      × ((position : Text) (now : ℕ)
          → (b : EventBroker) × (sub : Subscription) × (subscribe s.broker position now
              ≡ some (b, sub)))
      × ((sub : Subscription) → (b : EventBroker) × (cancel s.broker sub ≡ some b))
      × ((b : EventBroker) × (close_broker s.broker ≡ some b))
operations_succeed r =
    let inv = Reach-Inv r in
    (
      λ name uuid event detail now room.
          let p = publish-Inv inv (lifecycle_event name uuid event detail) now refl room in
          (p.0, p.1),
      λ position now. let p = subscribe-Inv inv position now in (p.0, p.1, p.2),
      λ sub. let p = cancel-Inv inv sub in (p.0, p.1),
      (let p = close_broker-Inv inv in (p.0, p.1)),
    )

pub client_stream :
    {s : System} (r : Reach s) (j : ℕ) → Stream s.log (given s j) (s.broker.channels j).is_open
client_stream r j = (Reach-Inv r).streams.stream j

-- The events after the notice have consecutive numbers, which begin after the events left out; on
-- an open channel they end with the broker's counter.
pub client_numbers :
    {s : System} (r : Reach s) (j : ℕ)
    → let st = client_stream r j in
      Follows (length st.before) st.seen (length st.before + length st.seen)
      × ((s.broker.channels j).is_open ≡ true
          → length st.before + length st.seen ≡ s.broker.next_id)
client_numbers {s} r j =
    let st = client_stream r j in
    let inv = Reach-Inv r in
    let whole : Follows 0 (st.before ++ (st.seen ++ st.missed)) s.broker.next_id =
      rw (← st.whole) inv.log.numbered in
    let rest = Follows-rest s.broker.next_id st.before (st.seen ++ st.missed) whole in
    let (seen, missed) = Follows-split (length st.before) s.broker.next_id st.seen st.missed rest in
    (seen, λ open_. rw (st.in_step open_) at missed)

-- The history holds the last events of the log, all of them or as many as the limit; the log's
-- events are numbered from one up to the counter, and each carries the cursor of its number.
pub history_of_log : {s : System} → Reach s → HasLog s.broker s.log
history_of_log r = (Reach-Inv r).log

module _ {s : System} (r : Reach s) (running : s.broker.closed ≡ false) (now : ℕ) where
  -- What lies in the new channel.
  subscribed_buffer :
      (position : Text) {b : EventBroker} {sub : Subscription}
      → subscribe s.broker position now ≡ some (b, sub)
      → (b.channels sub.events).buffer ≡ backlog s.broker position now
  unfolding subscribe
  subscribed_buffer position done = ground (
    arith,
    send_all_lem (make {A = LifecycleEvent} (length s.broker.history + 33))
        (backlog s.broker position now),
    length-backlog-le (Reach-Inv r).log position now,
  )

-- A client that comes back with the cursor of event `id`, while the history still reaches back to
-- the event after it, finds exactly the events published after `id`.
pub resume-drop :
    {s : System} (r : Reach s) (now id : ℕ) {b : EventBroker} {sub : Subscription}
    → s.broker.closed ≡ false
    → id ≤ s.broker.next_id
    → s.broker.next_id ≤ id + length s.broker.history
    → subscribe s.broker (cursor s.broker.generation id) now ≡ some (b, sub)
    → (b.channels sub.events).buffer ≡ drop id s.log
resume-drop {s} r now id running known near done =
    let log = (Reach-Inv r).log in
    subscribed_buffer r running now _ done
    ∙ backlog-drop log _ now id (after_cursor-cursor s.broker id log.clean log.small known)
        (no_gap log id near)

lost_cursor :
    {b : EventBroker} {events : List LifecycleEvent} (log : HasLog b events) (id : ℕ)
    (generation : Text)
    → HasNoColon generation
    → id < 2 ^ 64
    → (generation ≢ b.generation) ⊎ ((b.next_id < id) ⊎ (id + length b.history < b.next_id))
    → let read = after_cursor b (cursor generation id) in read.1 || has_gap b.history read.0 ≡ true
lost_cursor {b} log id generation clean small lost =
    elim (Bool-cases (text_eq generation b.generation && not (ltb b.next_id id))) [
      | inl ours ↦
          let same : generation ≡ b.generation =
            (text_eq_iff generation b.generation).0 (ground arith) in
          rw (same, after_cursor-cursor b id log.clean log.small (ground arith))
            (gap log id (ground arith))
      | inr foreign ↦ rw (
          after_cursor_foreign b generation id clean small
            (ground (arith, text_eq_iff generation b.generation)))
    ]

-- A client whose cursor is older than the history, of another generation or not yet reached finds
-- one reset notice, with the number and cursor of the last event published.
pub resume_reset :
    {s : System} (r : Reach s) (now id : ℕ) (generation : Text) {b : EventBroker}
    {sub : Subscription}
    → s.broker.closed ≡ false
    → HasNoColon generation
    → id < 2 ^ 64
    → (generation ≢ s.broker.generation)
      ⊎ ((s.broker.next_id < id) ⊎ (id + length s.broker.history < s.broker.next_id))
    → subscribe s.broker (cursor generation id) now ≡ some (b, sub)
    → (b.channels sub.events).buffer ≡ reset_notice s.broker now ∷ []
resume_reset {s} r now id generation running clean small lost done =
    let log = (Reach-Inv r).log in
    subscribed_buffer r running now _ done
    ∙ backlog_reset log _ now (lost_cursor log id generation clean small lost)

-- A closed broker stays closed and its channels are all closed; no step counts an event or adds one
-- to the history, and none gives an event to a client: what it has received and what waits for it
-- stay the same together.
pub closed_for_good :
    {s t : System}
    → Reach s
    → s.broker.closed ≡ true
    → Step s t
    → (t.broker.closed ≡ true)
      × ((j : ℕ) → (t.broker.channels j).is_open ≡ false)
      × (t.log ≡ s.log)
      × (t.broker.next_id ≡ s.broker.next_id)
      × (t.broker.history ≡ s.broker.history)
      × ((j : ℕ) → given t j ≡ given s j)
closed_for_good {t} r over step =
    let (still, same) = closed-Step (Reach-Inv r) over step in
    let (logged, counted, kept, shown) = same in
    let subs = (Reach-Inv (later r step)).subscribers in
    (
      still,
      λ j. sym (subs.listed j) ∙ ap (elem j) (subs.stopped still),
      logged,
      counted,
      kept,
      shown,
    )
