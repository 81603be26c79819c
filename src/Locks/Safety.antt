-- ===== src/Locks/Safety.antt =====
-- What the locks promise, for any number of threads in any interleaving.
use libvirt_rest_api.Base.{
  ℕ, ◌<◌, ◌≡◌, refl, ◌≢◌, ◌⊎◌, inl, inr, none, some, arith, total-two, total-pos, total-ge,
  total-zero, ◌==◌, Bool-cases, Option-cases, Bool, ltb, ltb→lt, Text, subst,
}
use libvirt_rest_api.Locks.{Libvirt, take_semaphore, give_semaphore}
use libvirt_rest_api.Locks.System.{Position, idle, waiting, holding, leaving, System, Reach}
use libvirt_rest_api.Locks.Invariant.{uses, holds, IsNamed, Entry, Inv, Reach-Inv}

-- The thread is between the return of `lockDomainAction` and its unlock, for this domain.
abbrev pub HasLock : System → ℕ → Text → Type 0
HasLock s i name = (lock : ℕ) × (s.at i ≡ holding name lock)

module _ {n : ℕ} {l : Libvirt} {at : ℕ → Position} (inv : Inv n l at) where
  inside : (i : ℕ) → at i ≢ idle → i < n
  inside i busy = elim (Bool-cases (ltb i n)) [
    | inl lt ↦ ltb→lt i n lt
    | inr beyond ↦ absurd (busy (inv.outside i (ground arith)))
  ]

  held : (i : ℕ) {name : Text} {k : ℕ} → at i ≡ holding name k → l.action_locks name ≡ some k
  held i e = subst (IsNamed l.action_locks) e (inv.named i)

  held_lock : (i : ℕ) (name : Text) (k : ℕ) → at i ≡ holding name k → Entry n l at k
  held_lock i name k e = inv.entry name k (held i e)

-- A thread with a share in the sum of holders holds the lock.
holder : (k : ℕ) (p : Position) → 0 < holds k p → (name : Text) × (p ≡ holding name k)
holder k idle h = absurd (omega arith)
holder k (waiting _ _ _) h = absurd (omega arith)
holder k (holding name lock) h = (name, ground arith)
holder k (leaving _ _) h = absurd (omega arith)

take_free :
    (l : Libvirt) (k : ℕ)
    → (l.locks k).semaphore ≡ 1
    → (l' : Libvirt) × (take_semaphore l k ≡ some l')
unfolding take_semaphore
take_free l k e = rw (e, take_semaphore) (_, refl)

give_taken :
    (l : Libvirt) (k : ℕ)
    → (l.locks k).semaphore ≡ 0
    → (l' : Libvirt) × (give_semaphore l k ≡ some l')
unfolding give_semaphore
give_taken l k e = rw (e, give_semaphore) (_, refl)

-- Two threads are never inside the actions of one domain together.
pub mutual_exclusion :
    {n : ℕ} {s : System} (r : Reach n s) (i j : ℕ) (name : Text)
    → HasLock s i name
    → HasLock s j name
    → i ≡ j
mutual_exclusion {n} {s} r i j name (k, at_i) (k', at_j) = elim (Bool-cases (i == j)) [
  | inl same ↦ ground arith
  | inr other ↦
      let inv = Reach-Inv r in
      let one : k ≡ k' = ground (arith, held inv i at_i, held inv j at_j) in
      let e = held_lock inv i name k at_i in
      let two =
        total-two (holds k) n s.at i j (inside inv i (λ q. cc)) (inside inv j (λ q. cc))
          (λ q. ground arith) in
      let a : holds k (s.at i) ≡ 1 = rw at_i (ground arith) in
      let b : holds k (s.at j) ≡ 1 = rw at_j (ground arith) in absurd (omega (arith, e.token))
]

-- A thread that waits for a domain can go on at once, unless another is inside that domain's
-- actions: no wake-up is lost, and other domains do not block it.
pub no_lost_wakeup :
    {n : ℕ} {s : System} (r : Reach n s) (i : ℕ) {name : Text} {lock : ℕ} {context : Bool}
    → s.at i ≡ waiting name lock context
    → ((l : Libvirt) × (take_semaphore s.table lock ≡ some l)) ⊎ ((j : ℕ) × HasLock s j name)
no_lost_wakeup {n} {s} r i {name} {lock} at_i =
    let inv = Reach-Inv r in
    let mine : s.table.action_locks name ≡ some lock =
      subst (IsNamed s.table.action_locks) at_i (inv.named i) in
    let e = inv.entry name lock mine in
    elim (Bool-cases ((s.table.locks lock).semaphore == 0)) [
      | inl taken ↦
          let (j, _, pos) = total-pos (holds lock) n s.at (ground (arith, e.token)) in
          let (owner, at_j) = holder lock (s.at j) pos in
          let same = inv.single owner name lock (held inv j at_j) mine in
          inr (j, (lock, rw (← same) at_j))
      | inr free ↦ inl (take_free s.table lock (ground (arith, e.token)))
    ]

-- Giving the semaphore back never blocks.
pub unlock_succeeds :
    {n : ℕ} {s : System} (r : Reach n s) (i : ℕ) {name : Text} {lock : ℕ}
    → s.at i ≡ holding name lock
    → (l : Libvirt) × (give_semaphore s.table lock ≡ some l)
unlock_succeeds {n} {s} r i {name} {lock} at_i =
    let inv = Reach-Inv r in
    let e = held_lock inv i name lock at_i in
    let share : holds lock (s.at i) ≡ 1 = rw at_i (ground arith) in
    let all = total-ge (holds lock) n s.at i (inside inv i (λ q. cc)) in
    give_taken s.table lock (omega (arith, e.token))

-- When no thread is busy the table is empty: no lock is leaked.
pub no_leak :
    {n : ℕ} {s : System} (r : Reach n s)
    → ((i : ℕ) → s.at i ≡ idle)
    → (name : Text) → s.table.action_locks name ≡ none
no_leak {n} {s} r quiet name = elim (Option-cases (s.table.action_locks name)) [
  | inl gone ↦ gone
  | inr (k, left) ↦
      let e = (Reach-Inv r).entry name k left in
      absurd (omega (arith, e.alive, e.counted, total-zero (uses k) n s.at (λ i _. rw (quiet i))))
]
