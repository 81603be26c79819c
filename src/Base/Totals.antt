-- ===== src/Base/Totals.antt =====
-- Sums over the first `n` threads of a weight of each thread's position.
use Prim.Native.Nat.{ℕ, zero, suc, ◌+◌, ◌≤◌, ◌<◌}
use mathlib.Core.Path.{◌≡◌, refl}
use mathlib.Core.Logic.{◌≢◌, inl, inr}
use native.Mathlib.Omega.{arith}
use libvirt_rest_api.Base.Tests.{update, Bool-cases, ltb, ltb→lt}

module _ {ℓ} {P : Type ℓ} (w : P → ℕ) where
  pub total : ℕ → (ℕ → P) → ℕ
  total zero pc = 0
  total (suc n) pc = total n pc + w (pc n)

  pub total-zero : (n : ℕ) (pc : ℕ → P) → ((i : ℕ) → i < n → w (pc i) ≡ 0) → total n pc ≡ 0
  unfolding total
  total-zero zero pc h = refl
  total-zero (suc n) pc h =
      omega (arith, h n (omega arith), total-zero n pc (λ i lt. h i (omega arith)))

  pub total-ge : (n : ℕ) (pc : ℕ → P) (i : ℕ) → i < n → w (pc i) ≤ total n pc
  unfolding total
  total-ge zero pc i lt = elim lt [ ]
  total-ge (suc n) pc i lt = ground (arith, total-ge n pc i)

  pub total-two :
      (n : ℕ) (pc : ℕ → P) (i j : ℕ) → i < n → j < n → i ≢ j → w (pc i) + w (pc j) ≤ total n pc
  unfolding total
  total-two zero pc i j lt lt' ne = elim lt [ ]
  total-two (suc n) pc i j lt lt' ne =
      ground (arith, total-two n pc i j, total-ge n pc i, total-ge n pc j)

  total-same : (n : ℕ) (pc : ℕ → P) (i : ℕ) (p : P) → n ≤ i → total n (update pc i p) ≡ total n pc
  unfolding total
  total-same zero pc i p le = refl
  total-same (suc n) pc i p le = ground (arith, total-same n pc i p)

  -- One thread moves.
  pub total-update :
      (n : ℕ) (pc : ℕ → P) (i : ℕ) (p : P)
      → i < n
      → total n (update pc i p) + w (pc i) ≡ total n pc + w p
  unfolding total
  total-update zero pc i p lt = elim lt [ ]
  total-update (suc n) pc i p lt = ground (arith, total-update n pc i p, total-same n pc i p)

  -- A positive total has a thread behind it.
  pub total-pos : (n : ℕ) (pc : ℕ → P) → 0 < total n pc → (i : ℕ) × (i < n) × (0 < w (pc i))
  unfolding total
  total-pos zero pc h = elim h [ ]
  total-pos (suc n) pc h = elim (Bool-cases (ltb 0 (w (pc n)))) [
    | inl here ↦ (n, omega arith, ltb→lt _ _ here)
    | inr other ↦ let (i, lt, pos) = total-pos n pc (ground arith) in (i, omega arith, pos)
  ]
