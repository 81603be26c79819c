-- ===== src/Hypervisor/Snapshots/Described.antt =====
-- internal/hypervisor/snapshots.go: what is read of a snapshot, the flags and the errors.
use libvirt_rest_api.Base.{
  ℕ, zero, suc, ◌*◌, Bool, ◌||◌, List, [], ◌∷◌, ◌++◌, Option, none, some, Text, text, text_eq,
  if◌then◌else◌, ℤ, pos, negsuc,
}
use Prim.Native.String.{String}
use libvirt_rest_api.Errors.{
  Error, Result, ok, err, is_code, snapshot_not_found, conflict, unsupported, no_domain_snapshot,
  operation_invalid, no_support, operation_unsupported, config_unsupported, fail, wrap, lit, quoted,
}
use libvirt_rest_api.Values.{
  SnapshotFlag, create_atomic, create_disk_only, create_quiesce, revert_running, revert_paused,
  revert_force, delete_children,
}
use libvirt_rest_api.Service.{
  Snapshot, SnapshotCreateRequest, SnapshotRevertRequest, snapshot_kind_disk,
  snapshot_revert_running, snapshot_revert_paused,
}

-- `snapshotXML`, with the name in `snapshotParentXML`.
pub record SnapshotDefinition : Type 0 where
  pub name : Text
  pub description : Text
  pub state : Text
  pub creation_time : ℤ
  pub parent : Text

-- `xml.Marshal` of a `snapshotCreateXML` with this name and description, and `xml.Unmarshal`.
pub record SnapshotXml : Type 0 where
  pub encode : (name description : Text) → Result Text
  pub decode : Text → Result SnapshotDefinition

-- The sign of what the function that is given to `slices.SortFunc` returns.
pub data Comparison : Type 0 where
  before equal after : Comparison

abbrev pub SortFunc : Type 0
SortFunc = (Snapshot → Snapshot → Comparison) → List Snapshot → List Snapshot

unfoldable pub snapshot_create_flags : SnapshotCreateRequest → List SnapshotFlag
snapshot_create_flags r =
    create_atomic
    ∷ ((if text_eq r.kind snapshot_kind_disk then create_disk_only ∷ [] else [])
        ++ (if r.quiesce then create_quiesce ∷ [] else []))

unfoldable pub snapshot_revert_flags : SnapshotRevertRequest → List SnapshotFlag
snapshot_revert_flags r =
    (if text_eq r.state snapshot_revert_running
      then revert_running ∷ []
      else if text_eq r.state snapshot_revert_paused
      then revert_paused ∷ []
      else [])
    ++ (if r.force then revert_force ∷ [] else [])

unfoldable pub snapshot_delete_flags : Bool → List SnapshotFlag
snapshot_delete_flags children = if children then delete_children ∷ [] else []

-- `time.Unix(seconds, 0)` in nanoseconds, for a time that is set.
abbrev pub created_at_of : ℤ → Option ℕ
created_at_of (negsuc _) = none
created_at_of (pos zero) = none
created_at_of (pos (suc s)) = some (suc s * 1000000000)

abbrev pub described : Text → SnapshotDefinition → Snapshot
described current_name parsed = record {
  name = parsed.name;
  description = parsed.description;
  parent = parsed.parent;
  state = parsed.state;
  created_at = created_at_of parsed.creation_time;
  current = text_eq parsed.name current_name;
}

abbrev pub decoded : Text → Result SnapshotDefinition → Result Snapshot
decoded current_name (ok parsed) = ok (described current_name parsed)
decoded current_name (err e) = err (wrap (lit (text "decode snapshot XML: ") ∷ []) e [])

unfoldable pub parse_snapshot_definition : SnapshotXml → Text → Text → Result Snapshot
parse_snapshot_definition xml definition current_name = decoded current_name (xml.decode definition)

abbrev pub snapshot_lookup_error : Text → Text → Error → Error
snapshot_lookup_error domain_name snapshot e =
    if is_code e no_domain_snapshot
    then fail snapshot_not_found (
        lit (text ": snapshot ")
        ∷ quoted snapshot
        ∷ lit (text " for domain ")
        ∷ quoted domain_name
        ∷ [])
    else wrap
        (lit (text "look up snapshot ")
          ∷ quoted snapshot
          ∷ lit (text " for domain ")
          ∷ quoted domain_name
          ∷ lit (text ": ")
          ∷ [])
        e []

abbrev pub snapshot_operation_error : String → Text → Text → Error → Error
snapshot_operation_error operation domain_name snapshot e =
    let cannot =
      lit (text ": cannot ")
      ∷ lit (text operation)
      ∷ lit (text " snapshot ")
      ∷ quoted snapshot
      ∷ lit (text " for domain ")
      ∷ quoted domain_name
      ∷ [] in
    if is_code e operation_invalid
    then fail conflict cannot
    else if is_code e no_support || is_code e operation_unsupported || is_code e config_unsupported
    then fail unsupported cannot
    else wrap
        (lit (text operation)
          ∷ lit (text " snapshot ")
          ∷ quoted snapshot
          ∷ lit (text " for domain ")
          ∷ quoted domain_name
          ∷ lit (text ": ")
          ∷ [])
        e []

-- The prefix of the errors of a lock or of a context.
abbrev pub for_domain : String → Text → Error → Error
for_domain operation name e =
    wrap
      (lit (text operation)
        ∷ lit (text " snapshot for domain ")
        ∷ quoted name
        ∷ lit (text ": ")
        ∷ [])
      e []
