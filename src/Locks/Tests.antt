-- ===== src/Locks/Tests.antt =====
-- Two threads at the lock of one domain, and the theorems about locks at their states.
use libvirt_rest_api.Base.{
  ℕ, ◌≡◌, refl, ◌⊎◌, Option, none, some, arith, false, Text, text, text_eq, update,
}
use libvirt_rest_api.Locks.{
  Libvirt, retain_domain_action_lock, release_domain_action_lock, take_semaphore, give_semaphore,
}
use libvirt_rest_api.Locks.System.{
  Position, idle, waiting, holding, leaving, System, retain, acquire, give_back, release, move,
  init, Reach, start, later,
}
use libvirt_rest_api.Locks.Safety.{
  HasLock, mutual_exclusion, no_lost_wakeup, unlock_succeeds, no_leak,
}

locks_go : Unit {0}
unfolding retain_domain_action_lock release_domain_action_lock take_semaphore give_semaphore text
    text_eq
locks_go = tt

abbrev web : Text
web = text "web"

abbrev or_else {ℓ} : {A : Type ℓ} → Option A → A → A
or_else none a = a
or_else (some a) _ = a

abbrev moved : System → ℕ → Libvirt → Position → System
moved s i l p = record { table = l; at = update s.at i p }

abbrev first_waits : System
first_waits = moved init 0 (retain_domain_action_lock init.table web).0 (waiting web 0 false)

abbrev first_holds : System
first_holds =
    moved first_waits 0 (or_else (take_semaphore first_waits.table 0) first_waits.table)
      (holding web 0)

abbrev second_waits : System
second_waits =
    moved first_holds 1 (retain_domain_action_lock first_holds.table web).0 (waiting web 0 false)

first_reach : Reach 2 first_holds
unfolding locks_go
first_reach =
    later (later start (move 0 (omega arith) (retain web false)))
      (move 0 (omega arith) (acquire refl))

second_reach : Reach 2 second_waits
unfolding locks_go
second_reach = later first_reach (move 1 (omega arith) (retain web false))

-- The second user found the first one's lock, and its semaphore is empty.
second_counts :
    ((second_waits.table.locks 0).users ≡ 2) × (take_semaphore second_waits.table 0 ≡ none)
unfolding locks_go
second_counts = (refl, refl)

mutual_exclusion_example : ◌≡◌ {A = ℕ} 0 0
mutual_exclusion_example = mutual_exclusion second_reach 0 0 web (0, refl) (0, refl)

no_lost_wakeup_example :
    ((l : Libvirt) × (take_semaphore second_waits.table 0 ≡ some l))
    ⊎ ((j : ℕ) × HasLock second_waits j web)
no_lost_wakeup_example =
    no_lost_wakeup second_reach 1 {name = web} {lock = 0} {context = false} refl

unlock_succeeds_example : (l : Libvirt) × (give_semaphore second_waits.table 0 ≡ some l)
unlock_succeeds_example = unlock_succeeds second_reach 0 {name = web} {lock = 0} refl

abbrev first_leaves : System
first_leaves =
    moved first_holds 0 (or_else (give_semaphore first_holds.table 0) first_holds.table)
      (leaving web 0)

abbrev first_gone : System
first_gone = moved first_leaves 0 (release_domain_action_lock first_leaves.table web 0) idle

gone_reach : Reach 2 first_gone
unfolding locks_go
gone_reach =
    later (later first_reach (move 0 (omega arith) (give_back refl))) (move 0 (omega arith) release)

gone_quiet : (i : ℕ) → first_gone.at i ≡ idle
gone_quiet i = ground arith

no_leak_example : first_gone.table.action_locks web ≡ none
no_leak_example = no_leak gone_reach gone_quiet web
