-- ===== src/Hypervisor/Snapshots/Listing/Sorted.antt =====
-- internal/hypervisor/snapshots.go: the order of the list of snapshots.
use mathlib.Core.List.{Mem, Perm, Pairwise, Pairwise-cons, mem-cons_self, mem-cons_of_mem}
use mathlib.Core.List.Perm
use libvirt_rest_api.Base.{
  ℕ, ◌≡◌, ◌≢◌, refl, sym, ◌∙◌, List, [], ◌∷◌, ◌++◌, Text, All, All-mem, map, append_assoc,
  append-nil,
}
use libvirt_rest_api.Errors.{ok}
use libvirt_rest_api.Service.{Snapshot}
use libvirt_rest_api.Hypervisor.{Op, Binding, ◌>>=◌, free_snapshot}
use libvirt_rest_api.Hypervisor.Snapshots.{Comparison, before, SnapshotXml, SortFunc}
use libvirt_rest_api.Hypervisor.Snapshots.Order.{compare_snapshots}
use libvirt_rest_api.Hypervisor.Snapshots.Order.Laws.{
  IsOrderOn, HasTime, compare_snapshots-IsOrderOn, InOrder, not_after-InOrder,
}
use libvirt_rest_api.Hypervisor.Snapshots.Listing.{all_metadata, free_snapshots, listed}

-- What `slices.SortFunc` promises: the same entries, and no entry before one that it should follow,
-- provided that the comparison is an order on them.
pub record Sorts (sort : SortFunc) : Type 0 where
  pub permutes : (cmp : Snapshot → Snapshot → Comparison) (l : List Snapshot) → Perm (sort cmp l) l
  pub ordered :
      (cmp : Snapshot → Snapshot → Comparison) (l : List Snapshot)
      → IsOrderOn cmp l
      → Pairwise (λ (a b : Snapshot). cmp b a ≢ before) (sort cmp l)

Pairwise-map :
    {R S : Snapshot → Snapshot → Type 0} (l : List Snapshot)
    → ((a b : Snapshot) → Mem a l → Mem b l → R a b → S a b)
    → Pairwise R l
    → Pairwise S l
Pairwise-map [] f h = Pairwise.nil
Pairwise-map (a ∷ l) f h =
    let (first, rest) = Pairwise-cons.0 h in
    Pairwise.cons (λ b m. f a b mem-cons_self (mem-cons_of_mem a m) (first b m))
      (Pairwise-map l (λ b c mb mc. f b c (mem-cons_of_mem a mb) (mem-cons_of_mem a mc)) rest)

module _ (sort : SortFunc) (sorts : Sorts sort) where
  pub sort_snapshots-InOrder :
      (l : List Snapshot) → All HasTime l → Pairwise InOrder (sort compare_snapshots l)
  unfolding compare_snapshots
  sort_snapshots-InOrder l timed =
      let has = λ (a : Snapshot) (m : Mem a (sort compare_snapshots l)).
        All-mem (λ s. hlevel) l timed a (Perm.subset (sorts.permutes compare_snapshots l) a m) in
      Pairwise-map (sort compare_snapshots l)
        (λ a b ma mb.
          not_after-InOrder a b a.created_at b.created_at refl refl (has a ma) (has b mb))
        (sorts.ordered compare_snapshots l (compare_snapshots-IsOrderOn l timed))

  module _ (binding : Binding) (xml : SnapshotXml) where
    free_snapshots-eq :
        (items : List ℕ) (old : List Op)
        → (free_snapshots binding items old).1 ≡ old ++ map free_snapshot items
    unfolding free_snapshots ◌>>=◌
    free_snapshots-eq [] old = sym (append-nil old)
    free_snapshots-eq (item ∷ items) old =
        free_snapshots-eq items (old ++ free_snapshot item ∷ [])
        ∙ append_assoc old (free_snapshot item ∷ []) (map free_snapshot items)

    -- Provided that SortFunc keeps its promise: if the snapshots that libvirt lists can be described
    -- and each has a creation time, the list is made of their descriptions, by time and then by
    -- name; and every handle is freed after that.
    pub listed-InOrder :
        (current : Text) (items : List ℕ) (old : List Op) (snapshots : List Snapshot)
        → (all_metadata binding xml current items old).0 ≡ ok snapshots
        → All HasTime snapshots
        → (result : List Snapshot) × ((listed binding xml sort current items old).0 ≡ ok result)
          × Perm result snapshots
          × Pairwise InOrder result
          × ((listed binding xml sort current items old).1
              ≡ (all_metadata binding xml current items old).1 ++ map free_snapshot items)
    unfolding listed ◌>>=◌
    listed-InOrder current items old snapshots h timed = (
      sort compare_snapshots snapshots,
      rw h,
      sorts.permutes compare_snapshots snapshots,
      sort_snapshots-InOrder snapshots timed,
      free_snapshots-eq items (all_metadata binding xml current items old).1,
    )
