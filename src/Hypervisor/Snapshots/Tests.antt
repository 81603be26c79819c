-- ===== src/Hypervisor/Snapshots/Tests.antt =====
-- Two snapshots, and insertion sort as a way to sort them.
use mathlib.Core.Logic.Or
use mathlib.Core.List.{Mem, Perm, Pairwise, mem-cons, mem-cons_self, mem-cons_of_mem, not-mem-nil}
use mathlib.Core.List.Perm
use libvirt_rest_api.Base.{
  ℕ, ◌≡◌, ◌≢◌, refl, sym, subst, Bool, true, false, List, [], ◌∷◌, ◌++◌, Text, text, text_eq, some,
  none, Option, arith, inl, inr, if◌then◌else◌, Bool-cases, map, pos,
}
use libvirt_rest_api.Errors.{ok}
use libvirt_rest_api.Service.{Snapshot}
use libvirt_rest_api.Hypervisor.{◌>>=◌, free_snapshot}
use libvirt_rest_api.Hypervisor.Fixtures.{binding}
use libvirt_rest_api.Hypervisor.Freed.{Freed}
use libvirt_rest_api.Hypervisor.Snapshots.{
  Comparison, before, equal, after, SnapshotXml, SnapshotDefinition, snapshot_metadata,
  parse_snapshot_definition,
}
use libvirt_rest_api.Hypervisor.Snapshots.Order.{text_ltb, compare_snapshots}
use libvirt_rest_api.Hypervisor.Snapshots.Order.Laws.{IsOrderOn, InOrder, compare_snapshots_cyclic}
use libvirt_rest_api.Hypervisor.Snapshots.Listing.{all_metadata, listed}
use libvirt_rest_api.Hypervisor.Snapshots.Listing.Sorted.{Sorts, listed-InOrder}

abbrev is_before : Comparison → Bool
is_before before = true
is_before equal = false
is_before after = false

before_of : (c : Comparison) → is_before c ≡ true → c ≡ before
before_of before h = refl
before_of equal h = cc
before_of after h = cc

not_before_of : (c : Comparison) → is_before c ≡ false → c ≢ before
not_before_of before h e = cc
not_before_of equal h e = cc
not_before_of after h e = cc

module _ (cmp : Snapshot → Snapshot → Comparison) where
  -- Behind the entries that it does not precede.
  insert : Snapshot → List Snapshot → List Snapshot
  insert a [] = a ∷ []
  insert a (b ∷ l) = let rest = insert a l in if is_before (cmp b a) then b ∷ rest else a ∷ b ∷ l

  insertion_sort : List Snapshot → List Snapshot
  unfolding insert
  insertion_sort [] = []
  insertion_sort (a ∷ l) = insert a (insertion_sort l)

  insert-perm : (a : Snapshot) (l : List Snapshot) → Perm (insert a l) (a ∷ l)
  unfolding insert
  insert-perm a [] = Perm.rfl
  insert-perm a (b ∷ l) = elim (Bool-cases (is_before (cmp b a))) [
    | inl e ↦ rw e (Perm.trans (Perm.cons b (insert-perm a l)) (Perm.swap a b l))
    | inr n ↦ rw n Perm.rfl
  ]

  insertion_sort-perm : (l : List Snapshot) → Perm (insertion_sort l) l
  unfolding insertion_sort
  insertion_sort-perm [] = Perm.rfl
  insertion_sort-perm (a ∷ l) =
      Perm.trans (insert-perm a (insertion_sort l)) (Perm.cons a (insertion_sort-perm l))

  module _ (all : List Snapshot) (order : IsOrderOn cmp all) where
    abbrev Follows : Snapshot → Snapshot → Type 0
    Follows a b = cmp b a ≢ before

    abbrev Inside : List Snapshot → Type 0
    Inside l = (a : Snapshot) → Mem a l → Mem a all

    -- A fact about the head and about the rest is one about all.
    head_or_rest :
        {P : Snapshot → Type 0} (prop : (c : Snapshot) → IsProp (P c)) (b : Snapshot)
        (l : List Snapshot)
        → P b
        → ((c : Snapshot) → Mem c l → P c)
        → (c : Snapshot) → Mem c (b ∷ l)
        → P c
    head_or_rest {P} prop b l h k c m =
        Or.elim (prop c) (mem-cons.0 m) (λ e. subst P (sym e) h) (k c)

    insert-Pairwise :
        (a : Snapshot) (l : List Snapshot)
        → Inside (a ∷ l)
        → Pairwise Follows l
        → Pairwise Follows (insert a l)
    unfolding insert
    insert-Pairwise a [] inside h = Pairwise.cons (λ b m. absurd (not-mem-nil m)) Pairwise.nil
    insert-Pairwise a (b ∷ l) inside (Pairwise.cons first rest) =
        let a_in = inside a mem-cons_self in
        let b_in = inside b (mem-cons_of_mem a mem-cons_self) in
        let l_in =
          λ (c : Snapshot) (m : Mem c l). inside c (mem-cons_of_mem a (mem-cons_of_mem b m)) in
        elim (Bool-cases (is_before (cmp b a))) [
          | inl e ↦
              let shown = order.asymmetric b a b_in a_in (before_of (cmp b a) e) in
              rw e (
                Pairwise.cons
                  (λ c m.
                    head_or_rest (λ c. hlevel) a l shown first c
                      (Perm.subset (insert-perm a l) c m))
                  (insert-Pairwise a l (head_or_rest (λ c. hlevel) a l a_in l_in) rest))
          | inr n ↦
              let shown = not_before_of (cmp b a) n in
              rw n (
                Pairwise.cons
                  (head_or_rest (λ c. hlevel) b l shown
                    (λ c m. order.back c b a (l_in c m) b_in a_in (first c m) shown))
                  (Pairwise.cons first rest))
        ]

    insertion_sort-Pairwise : (l : List Snapshot) → Inside l → Pairwise Follows (insertion_sort l)
    unfolding insertion_sort
    insertion_sort-Pairwise [] inside = Pairwise.nil
    insertion_sort-Pairwise (a ∷ l) inside =
        insert-Pairwise a (insertion_sort l)
          (λ c m. inside c (Perm.subset (Perm.cons a (insertion_sort-perm l)) c m))
          (insertion_sort-Pairwise l (λ c m. inside c (mem-cons_of_mem a m)))

insertion_sort-Sorts : Sorts insertion_sort
insertion_sort-Sorts = record {
  permutes = insertion_sort-perm;
  ordered = λ cmp l order. insertion_sort-Pairwise cmp l order l (λ a m. m);
}

abbrev definition : Text → ℕ → SnapshotDefinition
definition name time = record {
  name = name;
  description = [];
  state = [];
  creation_time = pos time;
  parent = [];
}

-- Every definition decodes to one that was made at the same time.
abbrev xml : SnapshotXml
xml = record { encode = λ name description. ok name; decode = λ text. ok (definition text 5) }

abbrev snapshot : Text → Option ℕ → Snapshot
snapshot name time = record {
  name = name;
  description = [];
  parent = [];
  state = [];
  created_at = time;
  current = false;
}

abbrev two_snapshots : List Snapshot
two_snapshots =
    snapshot (text "xml") (some 5000000000) ∷ snapshot (text "xml") (some 5000000000) ∷ []

two_described : (all_metadata binding xml [] (8 ∷ 9 ∷ []) []).0 ≡ ok two_snapshots
unfolding all_metadata snapshot_metadata parse_snapshot_definition text text_eq ◌>>=◌
two_described = refl

listed-InOrder_example :
    (result : List Snapshot) × ((listed binding xml insertion_sort [] (8 ∷ 9 ∷ []) []).0
      ≡ ok result)
    × Perm result two_snapshots
    × Pairwise InOrder result
    × ((listed binding xml insertion_sort [] (8 ∷ 9 ∷ []) []).1
        ≡ (all_metadata binding xml [] (8 ∷ 9 ∷ []) []).1 ++ map free_snapshot (8 ∷ 9 ∷ []))
listed-InOrder_example =
    listed-InOrder insertion_sort insertion_sort-Sorts binding xml [] (8 ∷ 9 ∷ []) [] two_snapshots
      two_described (refl, (refl, tt))

compare_snapshots_cyclic_example :
    (compare_snapshots (snapshot (text "a") (some 2)) (snapshot (text "b") none) ≡ before)
    × (compare_snapshots (snapshot (text "b") none) (snapshot (text "c") (some 1)) ≡ before)
    × (compare_snapshots (snapshot (text "c") (some 1)) (snapshot (text "a") (some 2)) ≡ before)
unfolding text text_ltb
compare_snapshots_cyclic_example =
    compare_snapshots_cyclic (snapshot (text "a") (some 2)) (snapshot (text "b") none)
      (snapshot (text "c") (some 1)) 1 2 refl refl refl (omega arith) refl refl
