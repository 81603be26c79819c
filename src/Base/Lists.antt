-- ===== src/Base/Lists.antt =====
-- Lists measured by native numbers, under the library's names, and predicates on their entries.
use Prim.Native.Nat.{ℕ, zero, suc, ◌+◌, ◌-◌, min}
use mathlib.Core.Path.{◌≡◌, refl, sym, subst}
use mathlib.Core.Bool.{Bool, true, false, ◌||◌, ◌&&◌}
use mathlib.Core.Logic.Or
use mathlib.Core.List.{
  List, [], ◌∷◌, ◌++◌, Mem, mem-cons, not-mem-nil, mem-cons_self, mem-cons_of_mem,
}
use native.Mathlib.Omega.{arith}
use libvirt_rest_api.Base.Tests.{◌==◌, if◌then◌else◌}

module _ {ℓ} {A : Type ℓ} where
  abbrev pub length : List A → ℕ
  length [] = 0
  length (x ∷ xs) = suc (length xs)

  pub length-append : (xs ys : List A) → length (xs ++ ys) ≡ length xs + length ys
  length-append [] ys = omega arith
  length-append (x ∷ xs) ys = omega (arith, length-append xs ys)

  abbrev pub drop : ℕ → List A → List A
  drop zero xs = xs
  drop (suc n) [] = []
  drop (suc n) (x ∷ xs) = drop n xs

  abbrev pub take : ℕ → List A → List A
  take zero xs = []
  take (suc n) [] = []
  take (suc n) (x ∷ xs) = x ∷ take n xs

  pub take-append-drop : (n : ℕ) (xs : List A) → take n xs ++ drop n xs ≡ xs
  take-append-drop zero xs = refl
  take-append-drop (suc n) [] = refl
  take-append-drop (suc n) (x ∷ xs) = rw (take-append-drop n xs)

  pub length-drop : (n : ℕ) (xs : List A) → length (drop n xs) ≡ length xs - n
  length-drop zero xs = omega arith
  length-drop (suc n) [] = omega arith
  length-drop (suc n) (x ∷ xs) = omega (arith, length-drop n xs)

  pub length-take : (n : ℕ) (xs : List A) → length (take n xs) ≡ min n (length xs)
  length-take zero xs = omega arith
  length-take (suc n) [] = omega arith
  length-take (suc n) (x ∷ xs) = omega (arith, length-take n xs)

  abbrev pub get_or : List A → ℕ → A → A
  get_or [] i d = d
  get_or (x ∷ xs) zero d = x
  get_or (x ∷ xs) (suc i) d = get_or xs i d

  abbrev pub all : (A → Bool) → List A → Bool
  all p [] = true
  all p (x ∷ xs) = p x && all p xs

  -- The entries that pass a Boolean test.
  unfoldable pub select : (A → Bool) → List A → List A
  select p [] = []
  select p (x ∷ xs) = if p x then x ∷ select p xs else select p xs

module _ {ℓ κ} {A : Type ℓ} (P : A → Type κ) where
  abbrev pub All : List A → Type κ
  All [] = Unit
  All (x ∷ xs) = P x × All xs

  pub All-append : (xs ys : List A) → All xs → All ys → All (xs ++ ys)
  All-append [] ys hx hy = hy
  All-append (x ∷ xs) ys hx hy = (hx.0, All-append xs ys hx.1 hy)

pub All-map {ℓ κ μ} :
    {A : Type ℓ} {P : A → Type κ} {Q : A → Type μ}
    → ((a : A) → P a → Q a)
    → (l : List A) → All P l
    → All Q l
All-map f [] h = tt
All-map f (a ∷ l) h = (f a h.0, All-map f l h.1)

-- `All` and the library's membership say the same.
pub mem-All {ℓ κ} : {A : Type ℓ} {P : A → Type κ} (l : List A) → ((a : A) → Mem a l → P a) → All P l
mem-All [] f = tt
mem-All (a ∷ l) f = (f a mem-cons_self, mem-All l (λ b m. f b (mem-cons_of_mem a m)))

pub All-mem {ℓ κ} :
    {A : Type ℓ} {P : A → Type κ}
    → ((a : A) → IsProp (P a))
    → (l : List A) → All P l
    → (a : A) → Mem a l
    → P a
All-mem prop [] h a m = absurd (not-mem-nil m)
All-mem {P} prop (b ∷ l) h a m =
    Or.elim (prop a) (mem-cons.0 m) (λ e. subst P (sym e) h.0) (All-mem prop l h.1 a)

-- Membership of a number, and lists that name each number once.
abbrev pub elem : ℕ → List ℕ → Bool
elem a [] = false
elem a (x ∷ xs) = x == a || elem a xs

abbrev pub IsDistinct : List ℕ → Type 0
IsDistinct [] = Unit
IsDistinct (x ∷ xs) = (elem x xs ≡ false) × IsDistinct xs

pub elem-select-false :
    (p : ℕ → Bool) (a : ℕ) (xs : List ℕ) → elem a xs ≡ false → elem a (select p xs) ≡ false
unfolding select
elem-select-false p a [] h = refl
elem-select-false p a (x ∷ xs) h = ground (arith, elem-select-false p a xs)

-- An entry is kept exactly if it was there and passes the test.
pub elem-select : (p : ℕ → Bool) (a : ℕ) (xs : List ℕ) → elem a (select p xs) ≡ elem a xs && p a
unfolding select
elem-select p a [] = refl
elem-select p a (x ∷ xs) = grind (arith, elem-select p a xs)

pub select-IsDistinct : (p : ℕ → Bool) (xs : List ℕ) → IsDistinct xs → IsDistinct (select p xs)
unfolding select
select-IsDistinct p [] h = tt
select-IsDistinct p (x ∷ xs) h = ground (arith, select-IsDistinct p xs, elem-select-false p x xs)
