-- ===== src/Locks.antt =====
-- internal/hypervisor/libvirt.go: the locks that serialise the actions on one domain. A lock is
-- named by a number, and `locks` holds the locks that the process has made so far. `retain` and
-- `release` hold the mutex of the table, so each is one step; waiting for the semaphore is another.
pub mod System
pub mod Invariant
pub mod Safety
mod Tests
use libvirt_rest_api.Base.{
  ℕ, zero, suc, ◌+◌, ◌-◌, ◌≡◌, Bool, true, false, Option, none, some, update, ◌==◌, if◌then◌else◌,
  Text, text_eq,
}

pub record DomainActionLock : Type 0 where
  pub semaphore : ℕ  -- the values in a channel of capacity one
  pub users : ℕ

pub record Libvirt : Type 0 where
  pub action_locks : Text → Option ℕ
  pub locks : ℕ → DomainActionLock
  pub allocated : ℕ

abbrev pub no_locks : Libvirt
no_locks = record {
  action_locks = λ _. none;
  locks = λ _. record { semaphore = 0; users = 0 };
  allocated = 0;
}

abbrev pub update_name : (Text → Option ℕ) → Text → Option ℕ → Text → Option ℕ
update_name f name v other = if text_eq name other then v else f other

-- `retainDomainActionLock`: the table after it, and the lock.
unfoldable pub retain_domain_action_lock : Libvirt → Text → Libvirt × ℕ
retain_domain_action_lock l name = elim (l.action_locks name) [
  | none ↦ (
    record {
      action_locks = update_name l.action_locks name (some l.allocated);
      locks = update l.locks l.allocated (record { semaphore = 1; users = 1 });
      allocated = suc l.allocated;
    },
    l.allocated,
  )
  | some lock ↦ (
    record l {
      locks = update l.locks lock (record (l.locks lock) { users = (l.locks lock).users + 1 });
    },
    lock,
  )
]

unfoldable pub release_domain_action_lock : Libvirt → Text → ℕ → Libvirt
release_domain_action_lock l name lock =
    let users = (l.locks lock).users - 1 in
    record l {
      action_locks = if users == 0 then update_name l.action_locks name none else l.action_locks;
      locks = update l.locks lock (record (l.locks lock) { users = users });
    }

-- `<-lock.semaphore`, which waits while the channel is empty.
unfoldable pub take_semaphore : Libvirt → ℕ → Option Libvirt
take_semaphore l lock = elim (l.locks lock).semaphore [
  | zero ↦ none
  | suc left ↦
      some (record l { locks = update l.locks lock (record (l.locks lock) { semaphore = left }) })
]

-- `lock.semaphore <- struct{}{}`, which waits while the channel is full.
unfoldable pub give_semaphore : Libvirt → ℕ → Option Libvirt
give_semaphore l lock = elim (l.locks lock).semaphore [
  | zero ↦ some (record l { locks = update l.locks lock (record (l.locks lock) { semaphore = 1 }) })
  | suc _ ↦ none
]
