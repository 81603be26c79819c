-- ===== src/Hypervisor/Snapshots.antt =====
-- internal/hypervisor/snapshots.go, over the libvirt binding. The encoder and the decoder of
-- encoding/xml are parameters (`SnapshotXml`), and so is `slices.SortFunc` (`SortFunc`).
mod Described
pub mod Order
pub mod Listing
pub mod Bracket
pub mod Changes
mod Tests
pub use Described.{
  SortFunc, created_at_of, described, decoded, snapshot_lookup_error, snapshot_operation_error,
  for_domain, SnapshotDefinition, SnapshotXml, Comparison, before, equal, after,
}
unfoldable pub use Described.{
  snapshot_create_flags, snapshot_revert_flags, snapshot_delete_flags, parse_snapshot_definition,
}
use libvirt_rest_api.Base.{
  ℕ, zero, suc, ◌*◌, Bool, true, false, not, ◌||◌, List, [], ◌∷◌, ◌++◌, Option, none, some, Text,
  text, text_eq, if◌then◌else◌, ℤ, pos, negsuc,
}
use Prim.Native.String.{String}
use libvirt_rest_api.Errors.{
  Error, Result, ok, err, is_code, snapshot_not_found, conflict, unsupported, no_domain_snapshot,
  operation_invalid, no_support, operation_unsupported, config_unsupported, fail, wrap, lit, quoted,
}
use libvirt_rest_api.Values.{
  SnapshotFlag, create_atomic, create_disk_only, create_quiesce, revert_running, revert_paused,
  revert_force, delete_children,
}
use libvirt_rest_api.Service.{
  Snapshot, SnapshotCreateRequest, SnapshotRevertRequest, SnapshotActionResult, snapshot_kind_disk,
  snapshot_revert_running, snapshot_revert_paused,
}
use libvirt_rest_api.Hypervisor.{
  Binding, L, ◌>>=◌, pure, request, or_return, about, snapshot_current, list_all_snapshots,
  create_snapshot_xml, snapshot_lookup_by_name, snapshot_name, snapshot_xml, revert_to_snapshot,
  delete_snapshot, free_snapshot, lock_context, unlock, context_error,
}
use libvirt_rest_api.Hypervisor.Lookup.{domain_identity}
use libvirt_rest_api.Hypervisor.Power.{with_domain, on_error}

module _ (binding : Binding) where
  -- After the wait for the lock, which the context may end; the release is deferred.
  abbrev pub after_lock :
      {A : Type 0}
      → String
      → (Text → Text → ℕ → L (Result A))
      → ℕ
      → Text
      → Text
      → Result (Unit {0})
      → L (Result A)
  after_lock operation body domain name uuid held =
      or_return (for_domain operation name) held (λ _.
        body name uuid domain >>= λ result. request binding (unlock uuid) >>= λ _. pure result)

  unfoldable pub context_locked :
      {A : Type 0} → String → (Text → Text → ℕ → L (Result A)) → ℕ → Text × Text → L (Result A)
  context_locked operation body domain (name, uuid) =
      request binding (lock_context uuid) >>= after_lock operation body domain name uuid

  unfoldable pub context_identified :
      {A : Type 0} → String → (Text → Text → ℕ → L (Result A)) → ℕ → L (Result A)
  unfolding context_locked
  context_identified operation body domain = domain_identity binding domain >>= λ identity.
      or_return (λ e. e) identity (context_locked operation body domain)

  -- The beginning of the methods that change snapshots, and what it defers.
  unfoldable pub with_context_lock :
      {A : Type 0} → String → Text → (Text → Text → ℕ → L (Result A)) → L (Result A)
  unfolding with_domain context_identified
  with_context_lock operation identifier body =
      with_domain binding identifier (context_identified operation body)

  abbrev pub unless_ended :
      {A : Type 0} → String → Text → L (Result A) → Option Error → L (Result A)
  unless_ended operation name next none = next
  unless_ended operation name next (some e) = pure (err (for_domain operation name e))

  -- `if err := ctx.Err(); err != nil { … }`, and what follows.
  abbrev pub check_context : {A : Type 0} → String → Text → L (Result A) → L (Result A)
  check_context operation name next =
      request binding context_error >>= unless_ended operation name next

  -- The deferred `snapshot.Free()`.
  unfoldable pub snapshot_freed : {A : Type 0} → ℕ → L A → L A
  snapshot_freed snapshot m =
      m >>= λ result. request binding (free_snapshot snapshot) >>= λ _. pure result

  unfoldable pub snapshot_metadata : SnapshotXml → ℕ → Text → L (Result Snapshot)
  unfolding parse_snapshot_definition
  snapshot_metadata xml snapshot current_name = request binding (snapshot_xml snapshot) >>= λ given.
      or_return (λ e. wrap (lit (text "get snapshot XML: ") ∷ []) e []) given
        (λ definition. pure (parse_snapshot_definition xml definition current_name))

  -- With the answer to the creation.
  abbrev pub after_created : SnapshotXml → Text → Text → Result ℕ → L (Result Snapshot)
  after_created xml name snapshot created =
      or_return (snapshot_operation_error "create" name snapshot) created
        (λ handle. snapshot_freed handle (snapshot_metadata xml handle snapshot))

  -- With the encoded definition.
  abbrev pub create_encoded :
      SnapshotXml → Text → ℕ → SnapshotCreateRequest → Result Text → L (Result Snapshot)
  create_encoded xml name domain r encoded =
      or_return (λ e. wrap (lit (text "encode snapshot definition: ") ∷ []) e []) encoded
        (λ definition. check_context "create" name (
          request binding (create_snapshot_xml domain definition (snapshot_create_flags r))
          >>= after_created xml name r.name))

  unfoldable pub create_snapshot_action :
      SnapshotXml → Text → SnapshotCreateRequest → L (Result Snapshot)
  unfolding with_context_lock snapshot_create_flags
  create_snapshot_action xml identifier r =
      with_context_lock "create" identifier
        (λ name uuid domain. create_encoded xml name domain r (xml.encode r.name r.description))

  -- With the snapshot that was looked up: its deferred `Free`, and the check of the context.
  abbrev pub after_found :
      {A : Type 0} → String → Text → Text → (ℕ → L (Result A)) → Result ℕ → L (Result A)
  after_found operation name snapshot body found =
      or_return (snapshot_lookup_error name snapshot) found
        (λ handle. snapshot_freed handle (check_context operation name (body handle)))

  unfoldable pub with_snapshot :
      {A : Type 0} → String → Text → ℕ → Text → (ℕ → L (Result A)) → L (Result A)
  unfolding snapshot_freed
  with_snapshot operation name domain snapshot body =
      request binding (snapshot_lookup_by_name domain snapshot)
      >>= after_found operation name snapshot body

  abbrev pub revert_found :
      Text → Text → Text → SnapshotRevertRequest → ℕ → L (Result SnapshotActionResult)
  revert_found name uuid snapshot r handle =
      request binding (revert_to_snapshot handle (snapshot_revert_flags r)) >>= λ reverted.
      on_error reverted (λ e. pure (err (snapshot_operation_error "revert to" name snapshot e)))
        (pure
          (ok (record { name = name; uuid = uuid; snapshot = snapshot; status = text "reverted" })))

  unfoldable pub revert_snapshot_action :
      Text → Text → SnapshotRevertRequest → L (Result SnapshotActionResult)
  unfolding with_context_lock with_snapshot snapshot_revert_flags
  revert_snapshot_action identifier snapshot r =
      with_context_lock "revert" identifier (λ name uuid domain.
        with_snapshot "revert" name domain snapshot (revert_found name uuid snapshot r))

  abbrev pub delete_found : Text → Text → Bool → ℕ → L (Result (Unit {0}))
  delete_found name snapshot children handle =
      request binding (delete_snapshot handle (snapshot_delete_flags children)) >>= λ deleted.
      on_error deleted (λ e. pure (err (snapshot_operation_error "delete" name snapshot e)))
        (pure (ok tt))

  unfoldable pub delete_snapshot_action : Text → Text → Bool → L (Result (Unit {0}))
  unfolding with_context_lock with_snapshot snapshot_delete_flags
  delete_snapshot_action identifier snapshot children =
      with_context_lock "delete" identifier (λ name uuid domain.
        with_snapshot "delete" name domain snapshot (delete_found name snapshot children))
