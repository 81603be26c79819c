-- ===== src/Hypervisor/Snapshots/Order.antt =====
-- internal/hypervisor/snapshots.go: the function by which the list of snapshots is sorted.
pub mod Laws
use libvirt_rest_api.Base.{
  ℕ, ◌≡◌, ◌≢◌, ◌<◌, ◌≤◌, ◌⊎◌, inl, inr, refl, Bool, true, false, not, ◌&&◌, ◌||◌, List, [], ◌∷◌,
  Option, none, some, Text, ◌==◌, ltb, if◌then◌else◌, arith,
}
use libvirt_rest_api.Service.{Snapshot}
use libvirt_rest_api.Hypervisor.Snapshots.{Comparison, before, equal, after}

-- `s < t` on Go strings.
unfoldable pub text_ltb : Text → Text → Bool
text_ltb [] [] = false
text_ltb [] (_ ∷ _) = true
text_ltb (_ ∷ _) [] = false
text_ltb (a ∷ s) (b ∷ t) = ltb a b || a == b && text_ltb s t

abbrev pub compare_names : Text → Text → Comparison
compare_names s t = if text_ltb s t then before else if text_ltb t s then after else equal

-- With the two times.
abbrev pub compare_times : Option ℕ → Option ℕ → Comparison → Comparison
compare_times (some t) (some u) otherwise =
    if not (t == u) then (if ltb t u then before else after) else otherwise
compare_times (some _) none otherwise = otherwise
compare_times none _ otherwise = otherwise

unfoldable pub compare_snapshots : Snapshot → Snapshot → Comparison
unfolding text_ltb
compare_snapshots left right =
    compare_times left.created_at right.created_at (compare_names left.name right.name)
