-- ===== src/Hypervisor/Snapshots/Changes.antt =====
-- internal/hypervisor/snapshots.go: creation, revert and deletion, and what they ask.
use libvirt_rest_api.Base.{Bool, List, Text}
use Prim.Native.String.{String}
use libvirt_rest_api.Service.{SnapshotCreateRequest, SnapshotRevertRequest}
use libvirt_rest_api.Hypervisor.{Op, Binding}
use libvirt_rest_api.Hypervisor.Freed.{Freed}
use libvirt_rest_api.Hypervisor.Snapshots.{
  SnapshotXml, create_snapshot_action, revert_snapshot_action, delete_snapshot_action,
}

-- The methods that change snapshots, with their arguments.
pub data Change : Type 0 where
  to_create : (identifier : Text) → SnapshotCreateRequest → Change
  to_revert : (identifier snapshot : Text) → SnapshotRevertRequest → Change
  to_delete : (identifier snapshot : Text) → (children : Bool) → Change

-- The operations so far, after a change.
abbrev pub change_operations : Binding → SnapshotXml → Change → List Op → List Op
change_operations binding xml (to_create identifier r) old =
    (create_snapshot_action binding xml identifier r old).1
change_operations binding xml (to_revert identifier snapshot r) old =
    (revert_snapshot_action binding identifier snapshot r old).1
change_operations binding xml (to_delete identifier snapshot children) old =
    (delete_snapshot_action binding identifier snapshot children old).1
