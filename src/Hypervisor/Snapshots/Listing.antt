-- ===== src/Hypervisor/Snapshots/Listing.antt =====
-- internal/hypervisor/snapshots.go: the list of a domain's snapshots.
pub mod Sorted
use libvirt_rest_api.Base.{ℕ, not, List, [], ◌∷◌, Text, text, if◌then◌else◌}
use libvirt_rest_api.Errors.{Result, ok, err, is_code, no_domain_snapshot}
use libvirt_rest_api.Service.{Snapshot}
use libvirt_rest_api.Hypervisor.{
  Binding, L, ◌>>=◌, pure, request, or_return, about, snapshot_current, list_all_snapshots,
  snapshot_name, free_snapshot,
}
use libvirt_rest_api.Hypervisor.Lookup.{lookup_domain}
use libvirt_rest_api.Hypervisor.Power.{with_domain}
use libvirt_rest_api.Hypervisor.Snapshots.{SnapshotXml, SortFunc, snapshot_metadata}
use libvirt_rest_api.Hypervisor.Snapshots.Order.{compare_snapshots}

module _ (binding : Binding) where
  -- The name of the current snapshot, by the answer to the question for it.
  unfoldable pub current_name : Text → Result ℕ → L (Result Text)
  current_name identifier (ok current) = request binding (snapshot_name current) >>= λ named.
      request binding (free_snapshot current) >>= λ _.
      or_return (about (text "get current snapshot name for domain ") identifier (text ": ")) named
        (λ name. pure (ok name))
  current_name identifier (err e) =
      if not (is_code e no_domain_snapshot)
      then pure (err (about (text "get current snapshot for domain ") identifier (text ": ") e))
      else pure (ok [])

  -- The loop over the snapshots.
  unfoldable pub all_metadata : SnapshotXml → Text → List ℕ → L (Result (List Snapshot))
  unfolding snapshot_metadata
  all_metadata xml current [] = pure (ok [])
  all_metadata xml current (item ∷ items) = snapshot_metadata binding xml item current >>= λ given.
      or_return (λ e. e) given
        (λ snapshot. all_metadata xml current items >>= λ others.
          or_return (λ e. e) others (λ rest. pure (ok (snapshot ∷ rest))))

  -- The deferred function.
  unfoldable pub free_snapshots : List ℕ → L (Unit {0})
  free_snapshots [] = pure tt
  free_snapshots (item ∷ items) = request binding (free_snapshot item) >>= λ _. free_snapshots items

  abbrev sorted : SortFunc → Result (List Snapshot) → Result (List Snapshot)
  sorted sort (ok snapshots) = ok (sort compare_snapshots snapshots)
  sorted sort (err e) = err e

  unfoldable pub listed : SnapshotXml → SortFunc → Text → List ℕ → L (Result (List Snapshot))
  unfolding all_metadata free_snapshots compare_snapshots
  listed xml sort current items = all_metadata xml current items >>= λ result.
      free_snapshots items >>= λ _. pure (sorted sort result)

  unfoldable pub list_snapshots_read : SnapshotXml → SortFunc → Text → L (Result (List Snapshot))
  unfolding with_domain current_name listed
  list_snapshots_read xml sort identifier = with_domain binding identifier (λ domain.
      request binding (snapshot_current domain) >>= λ current.
      current_name identifier current >>= λ named.
      or_return (λ e. e) named
        (λ name. request binding (list_all_snapshots domain) >>= λ all.
          or_return (about (text "list snapshots for domain ") identifier (text ": ")) all
            (listed xml sort name)))
