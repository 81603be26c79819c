-- ===== src/Broker/Invariant/Publish.antt =====
-- `publish` ends without a panic and keeps the invariant.
use libvirt_rest_api.Base.{
  ◌==◌, ℕ, suc, ◌+◌, ◌^◌, ◌≤◌, ◌<◌, ◌≡◌, refl, sym, subst, ◌∙◌, Bool, true, false, inl, inr, List,
  [], ◌∷◌, ◌++◌, some, arith, length, length-append, append_assoc, if◌then◌else◌, Bool-cases,
}
use libvirt_rest_api.Channel.{Channel, has_room}
use libvirt_rest_api.Broker.{LifecycleEvent, EventBroker, u64, stamp, trim, publish}
use libvirt_rest_api.Broker.Loops.{offered, Delivered, deliver-Delivered}
use libvirt_rest_api.Broker.Streams.{Stream, Stream-sent, Stream-missed}
use libvirt_rest_api.Broker.System.{System, after_publish}
use libvirt_rest_api.Broker.Invariant.Defs.{HasSubscribers, Inv}
use libvirt_rest_api.Broker.Invariant.Log.{stamp-HasLog}

abbrev after_round : Bool → Channel LifecycleEvent → LifecycleEvent → Channel LifecycleEvent
after_round listed c e = if listed then offered c e else c

-- One subscriber's share of the loop: it gets the event, is closed, or was closed before.
Stream-after_round :
    (log received : List LifecycleEvent) (c : Channel LifecycleEvent) (e : LifecycleEvent)
    (listed : Bool)
    → listed ≡ c.is_open
    → Stream log (received ++ c.buffer) c.is_open
    → Stream
        (log ++ e ∷ [])
        (received ++ (after_round listed c e).buffer)
        (after_round listed c e).is_open
Stream-after_round log received c e false o st = rw (← o) (Stream-missed e st)
Stream-after_round log received c e true o st = elim (Bool-cases (has_room c)) [
  | inl room ↦
      rw (room, ← o)
        (rw (← append_assoc received c.buffer (e ∷ [])) (Stream-sent e (rw (← o) at st)))
  | inr full ↦ rw full (Stream-missed e st)
]

module _ {s : System} (inv : Inv s) (e : LifecycleEvent) (now : ℕ)
    (running : s.broker.closed ≡ false)
    (d : Delivered (stamp s.broker e now) s.broker.subscribers s.broker.channels) where
  open inv use {subscribers, streams}

  abbrev sent : LifecycleEvent
  sent = stamp s.broker e now

  abbrev delivered : EventBroker
  delivered = record s.broker {
    next_id = u64 (s.broker.next_id + 1);
    history = trim (s.broker.history ++ sent ∷ []);
    subscribers = d.kept;
    channels = d.after;
  }

  delivered-HasSubscribers : HasSubscribers delivered
  delivered-HasSubscribers = record {
    distinct = d.distinct;
    listed = λ j. ground (arith, d.each j, d.stays j, subscribers.listed j);
    made = λ j h. ground (arith, d.each j, subscribers.listed j, subscribers.made j h);
    stopped = λ h. cc;
  }

  delivered-stream :
      (j : ℕ) → Stream (s.log ++ sent ∷ []) (s.received j ++ (d.after j).buffer) (d.after j).is_open
  delivered-stream j =
      rw (d.each j, subscribers.listed j)
        (Stream-after_round s.log (s.received j) (s.broker.channels j) sent
          (s.broker.channels j).is_open refl (streams.stream j))

  delivered-fits : (j : ℕ) → length (d.after j).buffer ≤ (d.after j).capacity
  delivered-fits j =
      ground
        (arith, d.each j, streams.fits j, length-append (s.broker.channels j).buffer (sent ∷ []))

  publish_lem : publish s.broker e now ≡ some delivered
  unfolding publish
  publish_lem = ground (arith, d.done)

  counted : suc s.broker.next_id < 2 ^ 64 → (delivered.next_id == s.broker.next_id) ≡ false
  counted room = ground (arith, room)

  abbrev with_log : Bool → System
  with_log over = record s { broker = delivered; log = if over then s.log else s.log ++ sent ∷ [] }

  delivered-Inv :
      e.stream_reset ≡ false → suc s.broker.next_id < 2 ^ 64 → Inv (after_publish s e now delivered)
  delivered-Inv plain room =
      subst (λ over. Inv (with_log over)) (sym (counted room))
        (record {
          log = stamp-HasLog inv.log e now plain room d.kept d.after;
          subscribers = delivered-HasSubscribers;
          streams = record {
            stream = delivered-stream;
            fits = delivered-fits;
            unused = streams.unused;
            blank = λ j h.
                ground
                  (arith, d.each j, subscribers.listed j, subscribers.made j h, streams.blank j h);
          };
        })

-- Publishing never panics, on a closed broker either, and keeps the invariant.
pub publish-Inv :
    {s : System} (inv : Inv s) (e : LifecycleEvent) (now : ℕ)
    → e.stream_reset ≡ false
    → suc s.broker.next_id < 2 ^ 64
    → (b : EventBroker) × (publish s.broker e now ≡ some b) × Inv (after_publish s e now b)
unfolding publish
publish-Inv {s} inv e now plain room = elim (Bool-cases s.broker.closed) [
  | inl over ↦
      let same : (s.broker.next_id == s.broker.next_id) ≡ true = ground arith in
      (s.broker, simp over, simp same inv)
  | inr running ↦
      let d =
        deliver-Delivered (stamp s.broker e now) s.broker.subscribers s.broker.channels
          inv.subscribers.distinct (λ j m. sym (inv.subscribers.listed j) ∙ m) in
      (
        delivered inv e now running d,
        publish_lem inv e now running d,
        delivered-Inv inv e now running d plain room,
      )
]
