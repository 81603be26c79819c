-- ===== src/Locks/Invariant/Moves.antt =====
-- Taking and giving back the semaphore, giving up, and `releaseDomainActionLock` keep the invariant.
use libvirt_rest_api.Base.{
  ℕ, ◌≡◌, refl, some, arith, update, ◌==◌, Text, Bool-cases, subst, inl, inr, Bool,
}
use libvirt_rest_api.Locks.{Libvirt, take_semaphore, give_semaphore}
use libvirt_rest_api.Locks.System.{Position, waiting, holding, leaving}
use libvirt_rest_api.Locks.Invariant.Defs.{IsNamed, Entry, Inv, Mover}

-- A move that keeps the names: it is enough to follow each entry.
pub same_names-Inv :
    {n : ℕ} {l l' : Libvirt} {at : ℕ → Position} {i : ℕ} {p p' : Position}
    → Inv n l at
    → Mover n at i p p'
    → l'.action_locks ≡ l.action_locks
    → IsNamed l.action_locks p'
    → ((k : ℕ) → Entry n l at k → Entry n l' (update at i p') k)
    → Inv n l' (update at i p')
same_names-Inv {n} {l} {l'} {at} {i} {p'} inv mv same name entries = record {
  named = λ j. elim (Bool-cases (i == j)) [
    | inl moved ↦ rw (moved, same) name
    | inr other ↦ rw (other, same) (inv.named j)
  ];
  outside = λ j h. ground (arith, inv.outside j h, mv.within);
  entry = λ a k h. entries k (inv.entry a k (rw same at h));
  single = λ a b k h h'. inv.single a b k (rw same at h) (rw same at h');
}

module _ {n : ℕ} {l : Libvirt} {at : ℕ → Position} (inv : Inv n l at) {i : ℕ} {name : Text}
    {lock : ℕ} where
  pub acquire-Inv :
      {context : Bool} {l' : Libvirt}
      → take_semaphore l lock ≡ some l'
      → Mover n at i (waiting name lock context) (holding name lock)
      → Inv n l' (update at i (holding name lock))
  unfolding take_semaphore
  acquire-Inv took mv =
      same_names-Inv inv mv (ground arith) (subst (IsNamed l.action_locks) mv.here (inv.named i))
        (λ k e. record {
          below = ground (arith, e.below);
          counted = ground (arith, mv.users k, e.counted);
          alive = ground (arith, e.alive);
          token = ground (arith, mv.holders k, e.token);
        })

  pub give_up-Inv :
      {context : Bool}
      → Mover n at i (waiting name lock context) (leaving name lock)
      → Inv n l (update at i (leaving name lock))
  give_up-Inv mv =
      same_names-Inv inv mv refl (subst (IsNamed l.action_locks) mv.here (inv.named i)) (λ k e.
        record {
          below = e.below;
          counted = ground (arith, mv.users k, e.counted);
          alive = e.alive;
          token = ground (arith, mv.holders k, e.token);
        })

  pub give_back-Inv :
      {l' : Libvirt}
      → give_semaphore l lock ≡ some l'
      → Mover n at i (holding name lock) (leaving name lock)
      → Inv n l' (update at i (leaving name lock))
  unfolding give_semaphore
  give_back-Inv gave mv =
      same_names-Inv inv mv (ground arith) (subst (IsNamed l.action_locks) mv.here (inv.named i))
        (λ k e. record {
          below = ground (arith, e.below);
          counted = ground (arith, mv.users k, e.counted);
          alive = ground (arith, e.alive);
          token = ground (arith, mv.holders k, e.token);
        })
