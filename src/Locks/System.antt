-- ===== src/Locks/System.antt =====
-- Threads that run `lockDomainAction` or `lockDomainActionContext` and later the function that it
-- returned, interleaved in any order.
use libvirt_rest_api.Base.{ℕ, ◌<◌, ◌≡◌, Bool, true, some, update, Text}
use libvirt_rest_api.Locks.{
  Libvirt, no_locks, retain_domain_action_lock, release_domain_action_lock, take_semaphore,
  give_semaphore,
}

-- Where a thread stands. `waiting` says whether a context can end the wait.
pub data Position : Type 0 where
  idle : Position
  waiting : (name : Text) (lock : ℕ) (context : Bool) → Position
  holding : (name : Text) (lock : ℕ) → Position
  leaving : (name : Text) (lock : ℕ) → Position

pub record System : Type 0 where
  pub table : Libvirt
  pub at : ℕ → Position

pub data Move (l : Libvirt) : Position → Libvirt → Position → Type 0 where
  retain :
      (name : Text) (context : Bool)
      → Move l idle
          (retain_domain_action_lock l name).0
          (waiting name (retain_domain_action_lock l name).1 context)
  acquire :
      {name : Text} {lock : ℕ} {context : Bool} {l' : Libvirt}
      → take_semaphore l lock ≡ some l'
      → Move l (waiting name lock context) l' (holding name lock)
  give_up :
      {name : Text} {lock : ℕ} {context : Bool}
      → context ≡ true
      → Move l (waiting name lock context) l (leaving name lock)
  give_back :
      {name : Text} {lock : ℕ} {l' : Libvirt}
      → give_semaphore l lock ≡ some l'
      → Move l (holding name lock) l' (leaving name lock)
  release :
      {name : Text} {lock : ℕ}
      → Move l (leaving name lock) (release_domain_action_lock l name lock) idle

-- `n` threads; a thread from `n` on never moves.
pub data Step (n : ℕ) (s : System) : System → Type 0 where
  move :
      (i : ℕ) {l : Libvirt} {p : Position}
      → i < n
      → Move s.table (s.at i) l p
      → Step n s (record { table = l; at = update s.at i p })

abbrev pub init : System
init = record { table = no_locks; at = λ _. idle }

pub data Reach (n : ℕ) : System → Type 0 where
  start : Reach n init
  later : {s t : System} → Reach n s → Step n s t → Reach n t
