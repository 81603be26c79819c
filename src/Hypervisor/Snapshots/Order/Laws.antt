-- ===== src/Hypervisor/Snapshots/Order/Laws.antt =====
-- internal/hypervisor/snapshots.go: among snapshots with a time, the comparison is an order, by the
-- time and then by the name; among others it is none.
use mathlib.Core.List.{Mem}
use libvirt_rest_api.Base.{
  ℕ, ◌≡◌, ◌≢◌, ◌<◌, ◌↔◌, inl, inr, refl, Bool, true, false, List, [], ◌∷◌, Option, none, some, Text,
  ◌==◌, ltb, arith, All, All-mem, Bool-cases, ltb→lt, ==_iff, sym, ap, ◌∙◌,
}
use libvirt_rest_api.Service.{Snapshot}
use libvirt_rest_api.Hypervisor.Snapshots.{Comparison, before, after}
use libvirt_rest_api.Hypervisor.Snapshots.Order.{
  text_ltb, compare_names, compare_times, compare_snapshots,
}

pub text_ltb_asym : (s t : Text) → text_ltb s t ≡ true → text_ltb t s ≡ false
unfolding text_ltb
text_ltb_asym [] [] h = cc
text_ltb_asym [] (b ∷ t) h = refl
text_ltb_asym (a ∷ s) [] h = ground arith
text_ltb_asym (a ∷ s) (b ∷ t) h = ground (arith, text_ltb_asym s t)

text_ltb_back : (s t u : Text) → text_ltb s t ≡ false → text_ltb t u ≡ false → text_ltb s u ≡ false
unfolding text_ltb
text_ltb_back [] [] u h k = k
text_ltb_back [] (b ∷ t) u h k = ground arith
text_ltb_back (a ∷ s) [] [] h k = refl
text_ltb_back (a ∷ s) (b ∷ t) [] h k = refl
text_ltb_back (a ∷ s) [] (c ∷ u) h k = ground arith
text_ltb_back (a ∷ s) (b ∷ t) (c ∷ u) h k = ground (arith, text_ltb_back s t u)

text_ltb_total : (s t : Text) → text_ltb s t ≡ false → text_ltb t s ≡ false → s ≡ t
unfolding text_ltb
text_ltb_total [] [] h k = refl
text_ltb_total [] (b ∷ t) h k = ground arith
text_ltb_total (a ∷ s) [] h k = ground arith
text_ltb_total (a ∷ s) (b ∷ t) h k = ground (arith, text_ltb_total s t)

-- What `slices.SortFunc` asks of a comparison: a strict weak order on the entries of the list, given
-- by its sign.
pub record IsOrderOn {A : Type 0} (cmp : A → A → Comparison) (l : List A) : Type 0 where
  pub opposite : (a b : A) → Mem a l → Mem b l → (cmp a b ≡ after) ↔ (cmp b a ≡ before)
  pub asymmetric : (a b : A) → Mem a l → Mem b l → cmp a b ≡ before → cmp b a ≢ before
  pub back :
      (a b c : A)
      → Mem a l
      → Mem b l
      → Mem c l
      → cmp a b ≢ before
      → cmp b c ≢ before
      → cmp a c ≢ before

abbrev pub is_some : Option ℕ → Bool
is_some none = false
is_some (some _) = true

module _ (n m : Text) where
  times_opposite :
      (t u : Option ℕ)
      → is_some t ≡ true
      → is_some u ≡ true
      → (compare_times t u (compare_names n m) ≡ after)
        ↔ (compare_times u t (compare_names m n) ≡ before)
  times_opposite none u h k = cc
  times_opposite (some t) none h k = cc
  times_opposite (some t) (some u) h k = ground (arith, text_ltb_asym n m, text_ltb_asym m n)

  times_asymmetric :
      (t u : Option ℕ)
      → is_some t ≡ true
      → is_some u ≡ true
      → compare_times t u (compare_names n m) ≡ before
      → compare_times u t (compare_names m n) ≢ before
  times_asymmetric none u h k b = cc
  times_asymmetric (some t) none h k b = cc
  times_asymmetric (some t) (some u) h k b =
      λ c. ground (arith, text_ltb_asym n m, text_ltb_asym m n)

  times_back :
      (o : Text) (t u v : Option ℕ)
      → is_some t ≡ true
      → is_some u ≡ true
      → is_some v ≡ true
      → compare_times t u (compare_names n m) ≢ before
      → compare_times u v (compare_names m o) ≢ before
      → compare_times t v (compare_names n o) ≢ before
  times_back o none u v h k l = cc
  times_back o (some t) none v h k l = cc
  times_back o (some t) (some u) none h k l = cc
  times_back o (some t) (some u) (some v) h k l = λ b c d. ground (arith, text_ltb_back n m o)

abbrev pub HasTime : Snapshot → Type 0
HasTime s = is_some s.created_at ≡ true

-- Among snapshots with a time the comparison is an order.
pub compare_snapshots-IsOrderOn :
    (l : List Snapshot) → All HasTime l → IsOrderOn compare_snapshots l
unfolding compare_snapshots
compare_snapshots-IsOrderOn l timed = record {
  opposite =
      λ a b ma mb. times_opposite a.name b.name a.created_at b.created_at (has a ma) (has b mb);
  asymmetric =
      λ a b ma mb. times_asymmetric a.name b.name a.created_at b.created_at (has a ma) (has b mb);
  back = λ a b c ma mb mc.
      times_back a.name b.name c.name a.created_at b.created_at c.created_at (has a ma) (has b mb)
        (has c mc);
}
  where
    has : (a : Snapshot) → Mem a l → HasTime a
    has = All-mem (λ s. hlevel) l timed

-- The earlier one, or the one whose name is not greater at the same time.
pub data InOrder (a b : Snapshot) : Type 0 where
  earlier : (t u : ℕ) → a.created_at ≡ some t → b.created_at ≡ some u → t < u → InOrder a b
  same_time :
      (t : ℕ)
      → a.created_at ≡ some t
      → b.created_at ≡ some t
      → text_ltb b.name a.name ≡ false
      → InOrder a b

pub not_after-InOrder :
    (a b : Snapshot) (t u : Option ℕ)
    → a.created_at ≡ t
    → b.created_at ≡ u
    → is_some t ≡ true
    → is_some u ≡ true
    → compare_times u t (compare_names b.name a.name) ≢ before
    → InOrder a b
not_after-InOrder a b none u ea eb h k c = absurd (ground arith)
not_after-InOrder a b (some t) none ea eb h k c = absurd (ground arith)
not_after-InOrder a b (some t) (some u) ea eb h k c = elim (Bool-cases (ltb t u)) [
  | inl less ↦ earlier t u ea eb (ltb→lt t u less)
  | inr more ↦ elim (Bool-cases (t == u)) [
    | inl same ↦ same_time t ea (eb ∙ ap some (sym ((==_iff t u).0 same))) (ground arith)
    | inr other ↦ absurd (ground arith)
  ]
]

-- The comparison follows a circle round a snapshot without a time whose name lies between those of
-- a later and an earlier snapshot.
pub compare_snapshots_cyclic :
    (a b c : Snapshot) (t u : ℕ)
    → a.created_at ≡ some u
    → b.created_at ≡ none
    → c.created_at ≡ some t
    → t < u
    → text_ltb a.name b.name ≡ true
    → text_ltb b.name c.name ≡ true
    → (compare_snapshots a b ≡ before)
      × (compare_snapshots b c ≡ before)
      × (compare_snapshots c a ≡ before)
unfolding compare_snapshots
compare_snapshots_cyclic a b c t u ea eb ec lt ab bc =
    (simp (ea, eb, ab), simp (eb, ec, bc), simp (ea, ec) (ground arith))
