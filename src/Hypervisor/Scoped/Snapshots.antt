-- ===== src/Hypervisor/Scoped/Snapshots.antt =====
-- internal/hypervisor/snapshots.go: the methods on snapshots ask for no operation beyond their scope.
use Prim.Native.String.{String}
use libvirt_rest_api.Base.{arith, ℕ, ◌≤◌, Bool, not, List, [], ◌∷◌, Option, none, some, Text}
use libvirt_rest_api.Errors.{Error, Result, ok, err, is_code, no_domain_snapshot}
use libvirt_rest_api.Service.{SnapshotCreateRequest, SnapshotRevertRequest}
use libvirt_rest_api.Hypervisor.{
  Binding, L, unlock, lock_context, context_error, snapshot_current, list_all_snapshots,
  create_snapshot_xml, snapshot_lookup_by_name, snapshot_name, snapshot_xml, revert_to_snapshot,
  delete_snapshot, free_snapshot,
}
use libvirt_rest_api.Hypervisor.Within.{
  Within, Within-pure, Within-bind, Within-if, Within-or_return,
}
use libvirt_rest_api.Hypervisor.Snapshots.{
  SnapshotXml, SortFunc, context_locked, context_identified, with_context_lock, unless_ended,
  check_context, snapshot_freed, snapshot_metadata, with_snapshot, create_snapshot_action,
  revert_snapshot_action, delete_snapshot_action, snapshot_create_flags, snapshot_revert_flags,
  snapshot_delete_flags,
}
use libvirt_rest_api.Hypervisor.Snapshots.Listing.{
  current_name, all_metadata, free_snapshots, listed, list_snapshots_read,
}
use libvirt_rest_api.Hypervisor.Scoped.{
  At, domain_identity-Scoped, with_domain-Scoped, on_error-Scoped,
}
use libvirt_rest_api.Hypervisor.Scoped.Reads.{request-Scoped}

module _ (binding : Binding) (n : ℕ) (read : 1 ≤ n) where
  snapshot_metadata-Scoped :
      (xml : SnapshotXml) (snapshot : ℕ) (current : Text)
      → Within (At n) (snapshot_metadata binding xml snapshot current)
  unfolding snapshot_metadata
  snapshot_metadata-Scoped xml snapshot current =
      request-Scoped binding n (snapshot_xml snapshot) read
        (λ given. Within-or_return _ given (λ definition. Within-pure _))

  current_name-Scoped :
      (identifier : Text) (answer : Result ℕ)
      → Within (At n) (current_name binding identifier answer)
  unfolding current_name
  current_name-Scoped identifier (ok current) =
      request-Scoped binding n (snapshot_name current) read (λ named.
        request-Scoped binding n (free_snapshot current) read
          (λ _. Within-or_return _ named (λ name. Within-pure _)))
  current_name-Scoped identifier (err e) =
      Within-if (not (is_code e no_domain_snapshot)) (Within-pure _) (Within-pure _)

  module _ (xml : SnapshotXml) (current : Text) where
    all_metadata-Scoped : (items : List ℕ) → Within (At n) (all_metadata binding xml current items)
    unfolding all_metadata
    all_metadata-Scoped [] = Within-pure _
    all_metadata-Scoped (item ∷ items) =
        Within-bind (snapshot_metadata-Scoped xml item current) (λ given.
          Within-or_return _ given (λ snapshot.
            Within-bind (all_metadata-Scoped items)
              (λ others. Within-or_return _ others (λ rest. Within-pure _))))

  free_snapshots-Scoped : (items : List ℕ) → Within (At n) (free_snapshots binding items)
  unfolding free_snapshots
  free_snapshots-Scoped [] = Within-pure _
  free_snapshots-Scoped (item ∷ items) =
      request-Scoped binding n (free_snapshot item) read (λ _. free_snapshots-Scoped items)

  pub list_snapshots_read-Scoped :
      (xml : SnapshotXml) (sort : SortFunc) (identifier : Text)
      → Within (At n) (list_snapshots_read binding xml sort identifier)
  unfolding list_snapshots_read listed
  list_snapshots_read-Scoped xml sort identifier =
      with_domain-Scoped binding n read identifier (λ domain.
        request-Scoped binding n (snapshot_current domain) read (λ current.
          Within-bind (current_name-Scoped identifier current) (λ named.
            Within-or_return _ named (λ name.
              request-Scoped binding n (list_all_snapshots domain) read (λ all.
                Within-or_return _ all (λ items.
                  Within-bind (all_metadata-Scoped xml name items)
                    (λ result. Within-bind (free_snapshots-Scoped items) (λ _. Within-pure _))))))))

  snapshot_freed-Scoped :
      {A : Type 0} (snapshot : ℕ) {m : L A}
      → Within (At n) m
      → Within (At n) (snapshot_freed binding snapshot m)
  unfolding snapshot_freed
  snapshot_freed-Scoped snapshot h =
      Within-bind h
        (λ result. request-Scoped binding n (free_snapshot snapshot) read (λ _. Within-pure _))

  unless_ended-Scoped :
      {A : Type 0} (operation : String) (name : Text) {next : L (Result A)} (ended : Option Error)
      → Within (At n) next
      → Within (At n) (unless_ended binding operation name next ended)
  unless_ended-Scoped operation name none h = h
  unless_ended-Scoped operation name (some e) h = Within-pure _

  check_context-Scoped :
      {A : Type 0} (operation : String) (name : Text) {next : L (Result A)}
      → Within (At n) next
      → Within (At n) (check_context binding operation name next)
  check_context-Scoped operation name h =
      request-Scoped binding n context_error read
        (λ ended. unless_ended-Scoped operation name ended h)

  with_snapshot-Scoped :
      {A : Type 0} (operation : String) (name : Text) (domain : ℕ) (snapshot : Text)
      {body : ℕ → L (Result A)}
      → ((handle : ℕ) → Within (At n) (body handle))
      → Within (At n) (with_snapshot binding operation name domain snapshot body)
  unfolding with_snapshot
  with_snapshot-Scoped operation name domain snapshot h =
      request-Scoped binding n (snapshot_lookup_by_name domain snapshot) read (λ found.
        Within-or_return _ found
          (λ handle. snapshot_freed-Scoped handle (check_context-Scoped operation name (h handle))))

  module _ (admin : 3 ≤ n) where
    locking : 2 ≤ n
    locking = omega arith

    with_context_lock-Scoped :
        {A : Type 0} (operation : String) (identifier : Text)
        {body : Text → Text → ℕ → L (Result A)}
        → ((name uuid : Text) (domain : ℕ) → Within (At n) (body name uuid domain))
        → Within (At n) (with_context_lock binding operation identifier body)
    unfolding with_context_lock context_identified context_locked
    with_context_lock-Scoped operation identifier h =
        with_domain-Scoped binding n read identifier (λ domain.
          Within-bind (domain_identity-Scoped binding n read domain) (λ identity.
            Within-or_return _ identity (λ (name, uuid).
              request-Scoped binding n (lock_context uuid) locking (λ held.
                Within-or_return _ held (λ _. Within-bind (h name uuid domain) (λ result.
                  request-Scoped binding n (unlock uuid) locking (λ _. Within-pure _)))))))

    pub create_snapshot-Scoped :
        (xml : SnapshotXml) (identifier : Text) (r : SnapshotCreateRequest)
        → Within (At n) (create_snapshot_action binding xml identifier r)
    unfolding create_snapshot_action
    create_snapshot-Scoped xml identifier r =
        with_context_lock-Scoped "create" identifier (λ name uuid domain.
          Within-or_return _ (xml.encode r.name r.description) (λ definition.
            check_context-Scoped "create" name (
              request-Scoped binding n
                (create_snapshot_xml domain definition (snapshot_create_flags r)) admin
                (λ created. Within-or_return _ created (λ handle.
                  snapshot_freed-Scoped handle (snapshot_metadata-Scoped xml handle r.name))))))

    pub revert_snapshot-Scoped :
        (identifier snapshot : Text) (r : SnapshotRevertRequest)
        → Within (At n) (revert_snapshot_action binding identifier snapshot r)
    unfolding revert_snapshot_action
    revert_snapshot-Scoped identifier snapshot r =
        with_context_lock-Scoped "revert" identifier (λ name uuid domain.
          with_snapshot-Scoped "revert" name domain snapshot (λ handle.
            request-Scoped binding n (revert_to_snapshot handle (snapshot_revert_flags r)) admin
              (λ reverted. on_error-Scoped reverted (λ e. Within-pure _) (Within-pure _))))

    pub delete_snapshot-Scoped :
        (identifier snapshot : Text) (children : Bool)
        → Within (At n) (delete_snapshot_action binding identifier snapshot children)
    unfolding delete_snapshot_action
    delete_snapshot-Scoped identifier snapshot children =
        with_context_lock-Scoped "delete" identifier (λ name uuid domain.
          with_snapshot-Scoped "delete" name domain snapshot (λ handle.
            request-Scoped binding n (delete_snapshot handle (snapshot_delete_flags children)) admin
              (λ deleted. on_error-Scoped deleted (λ e. Within-pure _) (Within-pure _))))
