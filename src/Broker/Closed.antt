-- ===== src/Broker/Closed.antt =====
-- internal/hypervisor/events.go: what the steps leave of a broker that is closed.
use libvirt_rest_api.Base.{
  ℕ, ◌≡◌, refl, true, inl, inr, [], ◌∷◌, ◌++◌, some, arith, sym, ap, Bool-cases, ◌∙◌, ◌==◌,
  result_unique, append_assoc,
}
use libvirt_rest_api.Channel.{receive_lem, close}
use libvirt_rest_api.Broker.{LifecycleEvent, EventBroker, publish, subscribe, cancel, close_broker}
use libvirt_rest_api.Broker.System.{
  System, Step, after_publish, lifecycle_event, published, subscribed, cancelled, closed, received,
}
use libvirt_rest_api.Broker.Invariant.{Inv, given}

-- What a step leaves as it was.
abbrev pub Unchanged : System → System → Type 0
Unchanged s t =
    (t.log ≡ s.log)
    × (t.broker.next_id ≡ s.broker.next_id)
    × (t.broker.history ≡ s.broker.history)
    × ((j : ℕ) → given t j ≡ given s j)

closed_publish :
    (s : System) (e : LifecycleEvent) (now : ℕ) {b : EventBroker}
    → s.broker.closed ≡ true
    → publish s.broker e now ≡ some b
    → (b.closed ≡ true) × Unchanged s (after_publish s e now b)
unfolding publish
closed_publish s e now {b} over done =
    let quiet : publish s.broker e now ≡ some s.broker = simp over in
    let same : s.broker ≡ b = result_unique quiet done in
    let counted : (b.next_id == s.broker.next_id) ≡ true =
      ground (arith, ap (λ (x : EventBroker). x.next_id) same) in
    (
      ap (λ (x : EventBroker). x.closed) (sym same) ∙ over,
      (
        rw counted refl,
        ap (λ (x : EventBroker). x.next_id) (sym same),
        ap (λ (x : EventBroker). x.history) (sym same),
        λ j. ap (λ (x : EventBroker). s.received j ++ (x.channels j).buffer) (sym same),
      ),
    )

closed_kept :
    (s : System) {b : EventBroker}
    → s.broker.closed ≡ true
    → s.broker ≡ b
    → (b.closed ≡ true) × Unchanged s (record s { broker = b })
closed_kept s over same = (
  ap (λ (x : EventBroker). x.closed) (sym same) ∙ over,
  (
    refl,
    ap (λ (x : EventBroker). x.next_id) (sym same),
    ap (λ (x : EventBroker). x.history) (sym same),
    λ j. ap (λ (x : EventBroker). s.received j ++ (x.channels j).buffer) (sym same),
  ),
)

pub closed-Step :
    {s t : System}
    → Inv s
    → s.broker.closed ≡ true
    → Step s t
    → (t.broker.closed ≡ true) × Unchanged s t
unfolding subscribe cancel close_broker close
closed-Step {s} inv over (published name uuid event detail now room done) =
    closed_publish s (lifecycle_event name uuid event detail) now over done
closed-Step {s} inv over (subscribed position now done) =
    (ground arith, (refl, ground arith, ground arith, λ j. ground (arith, inv.streams.blank j)))
closed-Step {s} inv over (cancelled sub {b} done) =
    let quiet : cancel s.broker sub ≡ some s.broker =
      ground (arith, inv.subscribers.stopped over) in
    closed_kept s over (result_unique quiet done)
closed-Step {s} inv over (closed {b} done) =
    let quiet : close_broker s.broker ≡ some s.broker = simp over in
    closed_kept s over (result_unique quiet done)
closed-Step {s} inv over (received i {event} {c} got) =
    let (first, _, _) = receive_lem (s.broker.channels i) got in
    (
      over,
      (
        refl,
        refl,
        refl,
        λ j. elim (Bool-cases (i == j)) [
          | inl here ↦
              let same : i ≡ j = ground (arith, here) in
              let split : (s.broker.channels j).buffer ≡ event ∷ c.buffer =
                ap (λ k. (s.broker.channels k).buffer) (sym same) ∙ first in
              rw here (
                ap (λ k. (s.received k ++ event ∷ []) ++ c.buffer) same
                ∙ (append_assoc (s.received j) (event ∷ []) c.buffer
                    ∙ ap (λ rest. s.received j ++ rest) (sym split)))
          | inr there ↦ rw there refl
        ],
      ),
    )
