-- ===== src/Locks/Invariant/Release.antt =====
-- `releaseDomainActionLock` keeps the invariant: the last user takes the lock off the table.
use libvirt_rest_api.Base.{
  ℕ, ◌-◌, ◌≡◌, refl, ◌≢◌, none, some, arith, total-two, ltb, ltb→lt, update, ◌==◌, Text,
  text_eq_iff, Bool-cases, subst, inl, inr, true, false,
}
use libvirt_rest_api.Locks.{Libvirt, update_name, release_domain_action_lock}
use libvirt_rest_api.Locks.System.{Position, idle, waiting, holding, leaving}
use libvirt_rest_api.Locks.Invariant.Defs.{uses, IsNamed, Entry, Inv, Mover}
use libvirt_rest_api.Locks.Invariant.Moves.{same_names-Inv}

module _ {n : ℕ} {l : Libvirt} {at : ℕ → Position} (inv : Inv n l at) {i : ℕ} {name : Text}
    {lock : ℕ} (mv : Mover n at i (leaving name lock) idle) where
  held : l.action_locks name ≡ some lock
  held = subst (IsNamed l.action_locks) mv.here (inv.named i)

  abbrev with_less : Libvirt
  with_less = record l {
    locks = update l.locks lock (record (l.locks lock) { users = (l.locks lock).users - 1 });
  }

  -- Another user stays.
  less-Inv : ((l.locks lock).users - 1 == 0) ≡ false → Inv n with_less (update at i idle)
  less-Inv more = same_names-Inv inv mv refl tt (λ k e. record {
    below = e.below;
    counted = ground (arith, mv.users k, e.counted);
    alive = ground (arith, e.alive);
    token = ground (arith, mv.holders k, e.token);
  })

  module _ (last : ((l.locks lock).users - 1 == 0) ≡ true) where
    abbrev without : Libvirt
    without = record with_less { action_locks = update_name l.action_locks name none }

    alone : (j : ℕ) → i ≢ j → uses lock (at j) ≡ 0
    alone j ne = elim (Bool-cases (ltb j n)) [
      | inl inside ↦
          let e = inv.entry name lock held in
          let two = total-two (uses lock) n at i j mv.within (ltb→lt j n inside) ne in
          let here : uses lock (at i) ≡ 1 = rw (mv.here) (ground arith) in ground (arith, e.counted)
      | inr beyond ↦ rw (inv.outside j (ground arith))
    ]

    IsNamed-left :
        (p : Position) → uses lock p ≡ 0 → IsNamed l.action_locks p → IsNamed without.action_locks p
    IsNamed-left idle u m = tt
    IsNamed-left (waiting a k _) u m = ground (arith, text_eq_iff name a, held)
    IsNamed-left (holding a k) u m = ground (arith, text_eq_iff name a, held)
    IsNamed-left (leaving a k) u m = ground (arith, text_eq_iff name a, held)

    Entry-left : (k : ℕ) → k ≢ lock → Entry n l at k → Entry n without (update at i idle) k
    Entry-left k ne e = record {
      below = e.below;
      counted = ground (arith, mv.users k, e.counted);
      alive = ground (arith, e.alive);
      token = ground (arith, mv.holders k, e.token);
    }

    without-Inv : Inv n without (update at i idle)
    without-Inv = record {
      named = λ j. elim (Bool-cases (i == j)) [
        | inl moved ↦ rw moved tt
        | inr other ↦ rw other (IsNamed-left (at j) (alone j (ground arith)) (inv.named j))
      ];
      outside = λ j h. ground (arith, inv.outside j h, mv.within);
      entry = λ a k h.
          let old : l.action_locks a ≡ some k = ground arith in
          Entry-left k (λ e. ground (arith, text_eq_iff name a, inv.single name a lock, held))
            (inv.entry a k old);
      single = λ a b k h h'. inv.single a b k (ground arith) (ground arith);
    }

  pub release-Inv : Inv n (release_domain_action_lock l name lock) (update at i idle)
  unfolding release_domain_action_lock
  release-Inv = elim (Bool-cases ((l.locks lock).users - 1 == 0)) [
    | inl last ↦ rw last (without-Inv last)
    | inr more ↦ rw more (less-Inv more)
  ]
