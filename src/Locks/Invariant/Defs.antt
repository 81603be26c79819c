-- ===== src/Locks/Invariant/Defs.antt =====
-- How the table of locks fits the threads that use it.
use libvirt_rest_api.Base.{
  ℕ, ◌+◌, ◌≤◌, ◌<◌, ◌≡◌, refl, Option, some, arith, total, total-zero, total-update, update, ◌==◌,
  if◌then◌else◌, Text,
}
use libvirt_rest_api.Locks.{Libvirt}
use libvirt_rest_api.Locks.System.{Position, idle, waiting, holding, leaving, init}

-- Between `retainDomainActionLock` and `releaseDomainActionLock` of the lock `k`.
abbrev pub uses : ℕ → Position → ℕ
uses k idle = 0
uses k (waiting _ lock _) = if lock == k then 1 else 0
uses k (holding _ lock) = if lock == k then 1 else 0
uses k (leaving _ lock) = if lock == k then 1 else 0

-- Between taking the semaphore of the lock `k` and giving it back.
abbrev pub holds : ℕ → Position → ℕ
holds k (holding _ lock) = if lock == k then 1 else 0
holds k idle = 0
holds k (waiting _ _ _) = 0
holds k (leaving _ _) = 0

-- The lock that a thread has in hand is the one in the table.
abbrev pub IsNamed : (Text → Option ℕ) → Position → Type 0
IsNamed f idle = Unit
IsNamed f (waiting name lock _) = f name ≡ some lock
IsNamed f (holding name lock) = f name ≡ some lock
IsNamed f (leaving name lock) = f name ≡ some lock

pub record Entry (n : ℕ) (l : Libvirt) (at : ℕ → Position) (k : ℕ) : Type 0 where
  pub below : k < l.allocated
  pub counted : (l.locks k).users ≡ total (uses k) n at
  pub alive : 0 < (l.locks k).users
  pub token : (l.locks k).semaphore + total (holds k) n at ≡ 1

pub record Inv (n : ℕ) (l : Libvirt) (at : ℕ → Position) : Type 0 where
  pub named : (i : ℕ) → IsNamed l.action_locks (at i)
  pub outside : (i : ℕ) → n ≤ i → at i ≡ idle
  pub entry : (name : Text) (k : ℕ) → l.action_locks name ≡ some k → Entry n l at k
  pub single : (a b : Text) (k : ℕ) → l.action_locks a ≡ some k → l.action_locks b ≡ some k → a ≡ b

pub init-Inv : (n : ℕ) → Inv n init.table init.at
init-Inv n = record {
  named = λ i. tt;
  outside = λ i h. refl;
  entry = λ name k h. absurd (cc);
  single = λ a b k h. cc;
}

holds-le-uses : (k : ℕ) (p : Position) → holds k p ≤ uses k p
holds-le-uses k idle = omega arith
holds-le-uses k p = ground arith

module _ {n : ℕ} {l : Libvirt} {at : ℕ → Position} (inv : Inv n l at) where
  -- A thread uses a lock that has been made.
  uses-below : (i k : ℕ) → l.allocated ≤ k → uses k (at i) ≡ 0
  uses-below i k h = go (at i) (inv.named i)
    where
      go : (p : Position) → IsNamed l.action_locks p → uses k p ≡ 0
      go idle m = refl
      go (waiting name lock _) m = ground (arith, (inv.entry name lock m).below)
      go (holding name lock) m = ground (arith, (inv.entry name lock m).below)
      go (leaving name lock) m = ground (arith, (inv.entry name lock m).below)

  pub unmade-unused : (k : ℕ) → l.allocated ≤ k → total (uses k) n at ≡ 0
  unmade-unused k h = total-zero (uses k) n at (λ i _. uses-below i k h)

  pub unmade-unheld : (k : ℕ) → l.allocated ≤ k → total (holds k) n at ≡ 0
  unmade-unheld k h =
      total-zero (holds k) n at (λ i _. omega (arith, holds-le-uses k (at i), uses-below i k h))

-- Thread `i` goes from `p` to `p'`: what that does to the sums.
pub record Mover (n : ℕ) (at : ℕ → Position) (i : ℕ) (p p' : Position) : Type 0 where
  pub here : at i ≡ p
  pub within : i < n
  pub users :
      (k : ℕ) → total (uses k) n (update at i p') + uses k p ≡ total (uses k) n at + uses k p'
  pub holders :
      (k : ℕ) → total (holds k) n (update at i p') + holds k p ≡ total (holds k) n at + holds k p'

pub mover : {n : ℕ} {at : ℕ → Position} (i : ℕ) → i < n → (p' : Position) → Mover n at i (at i) p'
mover {n} {at} i lt p' = record {
  here = refl;
  within = lt;
  users = λ k. total-update (uses k) n at i p' lt;
  holders = λ k. total-update (holds k) n at i p' lt;
}
