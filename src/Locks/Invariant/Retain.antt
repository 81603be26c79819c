-- ===== src/Locks/Invariant/Retain.antt =====
-- `retainDomainActionLock` keeps the invariant of the lock table.
use libvirt_rest_api.Base.{
  ℕ, suc, ◌+◌, ◌≡◌, none, some, arith, update, ◌==◌, Text, text_eq, text_eq_iff, text_eq_refl,
  subst, Bool-cases, Option-cases, inl, inr, Bool,
}
use libvirt_rest_api.Locks.{Libvirt, update_name, retain_domain_action_lock}
use libvirt_rest_api.Locks.System.{Position, idle, waiting, holding, leaving}
use libvirt_rest_api.Locks.Invariant.Defs.{IsNamed, Entry, Inv, unmade-unused, unmade-unheld, Mover}

module _ {n : ℕ} {l : Libvirt} {at : ℕ → Position} (inv : Inv n l at) {i : ℕ} (name : Text)
    (context : Bool) where
  -- A name that was free gets a new lock.
  module _ (free : l.action_locks name ≡ none)
      (mv : Mover n at i idle (waiting name l.allocated context)) where
    abbrev with_new : Libvirt
    with_new = record {
      action_locks = update_name l.action_locks name (some l.allocated);
      locks = update l.locks l.allocated (record { semaphore = 1; users = 1 });
      allocated = suc l.allocated;
    }

    IsNamed-new : (p : Position) → IsNamed l.action_locks p → IsNamed with_new.action_locks p
    IsNamed-new idle m = tt
    IsNamed-new (waiting a k _) m = ground (arith, text_eq_iff name a)
    IsNamed-new (holding a k) m = ground (arith, text_eq_iff name a)
    IsNamed-new (leaving a k) m = ground (arith, text_eq_iff name a)

    Entry-new : Entry n with_new (update at i (waiting name l.allocated context)) l.allocated
    Entry-new = record {
      below = omega arith;
      counted = ground (arith, mv.users l.allocated, unmade-unused inv l.allocated (omega arith));
      alive = ground arith;
      token = ground (arith, mv.holders l.allocated, unmade-unheld inv l.allocated (omega arith));
    }

    Entry-old :
        (k : ℕ)
        → Entry n l at k
        → Entry n with_new (update at i (waiting name l.allocated context)) k
    Entry-old k e = record {
      below = omega (arith, e.below);
      counted = ground (arith, mv.users k, e.counted, e.below);
      alive = ground (arith, e.alive, e.below);
      token = ground (arith, mv.holders k, e.token, e.below);
    }

    new-Inv : Inv n with_new (update at i (waiting name l.allocated context))
    new-Inv = record {
      named = λ j. elim (Bool-cases (i == j)) [
        | inl moved ↦ rw moved (ground (arith, text_eq_refl name))
        | inr other ↦ rw other (IsNamed-new (at j) (inv.named j))
      ];
      outside = λ j h. ground (arith, inv.outside j h, mv.within);
      entry = λ a k h. elim (Bool-cases (text_eq name a)) [
        | inl same ↦
            subst (Entry n with_new (update at i (waiting name l.allocated context))) (ground arith)
              Entry-new
        | inr other ↦ Entry-old k (inv.entry a k (ground arith))
      ];
      single = λ a b k h h'. ground (
        arith,
        text_eq_iff name a,
        text_eq_iff name b,
        inv.single a b k,
        inv.entry a k,
        inv.entry b k,
      );
    }

  -- A name in use gets the same lock again.
  module _ {lock : ℕ} (taken : l.action_locks name ≡ some lock)
      (mv : Mover n at i idle (waiting name lock context)) where
    abbrev with_user : Libvirt
    with_user = record l {
      locks = update l.locks lock (record (l.locks lock) { users = (l.locks lock).users + 1 });
    }

    Entry-again :
        (k : ℕ) → Entry n l at k → Entry n with_user (update at i (waiting name lock context)) k
    Entry-again k e = record {
      below = e.below;
      counted = ground (arith, mv.users k, e.counted);
      alive = ground (arith, e.alive);
      token = ground (arith, mv.holders k, e.token);
    }

    again-Inv : Inv n with_user (update at i (waiting name lock context))
    again-Inv = record {
      named = λ j. elim (Bool-cases (i == j)) [
        | inl moved ↦ rw moved taken
        | inr other ↦ rw other (inv.named j)
      ];
      outside = λ j h. ground (arith, inv.outside j h, mv.within);
      entry = λ a k h. Entry-again k (inv.entry a k h);
      single = inv.single;
    }

  pub retain-Inv :
      Mover n at i idle (waiting name (retain_domain_action_lock l name).1 context)
      → Inv n
          (retain_domain_action_lock l name).0
          (update at i (waiting name (retain_domain_action_lock l name).1 context))
  unfolding retain_domain_action_lock
  retain-Inv = elim (Option-cases (l.action_locks name)) [
    | inl free ↦ rw (free, retain_domain_action_lock) (λ mv. new-Inv free mv)
    | inr (lock, taken) ↦ rw (taken, retain_domain_action_lock) (λ mv. again-Inv taken mv)
  ]
