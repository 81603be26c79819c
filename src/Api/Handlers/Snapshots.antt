-- ===== src/Api/Handlers/Snapshots.antt =====
-- internal/api/server.go: the handlers of snapshots.
use libvirt_rest_api.Base.{
  is_set, Bool, false, not, ◌&&◌, List, [], ◌∷◌, Option, none, some, Text, text, text_eq, ltb,
  if◌then◌else◌, length,
}
use libvirt_rest_api.Errors.{lit_of}
use libvirt_rest_api.Service.{
  Service, list_snapshots, create_snapshot, revert_snapshot, delete_snapshot, snapshot_kind_system,
  snapshot_kind_disk, snapshot_revert_recorded, snapshot_revert_running, snapshot_revert_paused,
  SnapshotCreateRequest, SnapshotRevertRequest,
}
use libvirt_rest_api.Api.Http.{
  Request, Handler, M, ◌>>◌, ◌>>=◌, snapshots_object, snapshot_object, snapshot_action_object, ask,
  write_json, write_error, write_header, clear_deadline, path_value,
}
use libvirt_rest_api.Api.Validate.{
  valid_snapshot_name, valid_snapshot_lookup_name, parse_bool, one_of,
}
use libvirt_rest_api.Api.Decode.{Json, decode_json, is_zero}
use libvirt_rest_api.Api.Handlers.{respond, identifier}

abbrev pub snapshot_kinds : List Text
snapshot_kinds = snapshot_kind_system ∷ snapshot_kind_disk ∷ []

abbrev pub revert_states : List Text
revert_states = snapshot_revert_recorded ∷ snapshot_revert_running ∷ snapshot_revert_paused ∷ []

abbrev pub state_or_recorded : SnapshotRevertRequest → SnapshotRevertRequest
state_or_recorded request = record {
  state = if not (is_set request.state) then snapshot_revert_recorded else request.state;
  force = request.force;
}

abbrev pub decode_children : Text → Option Bool
decode_children value = if is_set value then parse_bool value else some false

module _ {B : Type 0} (service : Service) where
  abbrev pub list_vm_snapshots : Handler B
  list_vm_snapshots r =
      ask service (list_snapshots (identifier service r))
      >>= respond (λ snapshots. write_json 200 (snapshots_object snapshots))

  -- The checks on the decoded request, and the call.
  unfoldable pub create_checked : Request B → SnapshotCreateRequest → M (Unit {0})
  create_checked r request =
      if not (valid_snapshot_name request.name)
      then write_error 400 (text "invalid_snapshot_name") (
          lit_of
            "name must be 1-128 ASCII letters, numbers, dots, underscores, or hyphens and must start with a letter or number")
      else if ltb 1024 (length request.description)
      then write_error 400 (text "invalid_description")
          (lit_of "description must not exceed 1024 bytes")
      else if not (one_of snapshot_kinds request.kind)
      then write_error 400 (text "invalid_snapshot_kind") (lit_of "kind must be system or disk")
      else if request.quiesce && not (text_eq request.kind snapshot_kind_disk)
      then write_error 400 (text "invalid_snapshot_options")
          (lit_of "quiesce is only valid for disk snapshots")
      else do
        clear_deadline
        ask service (create_snapshot (identifier service r) request)
            >>= respond (λ snapshot. write_json 201 (snapshot_object snapshot))

  unfoldable pub create_vm_snapshot : Json B → Handler B
  unfolding create_checked
  create_vm_snapshot json r = elim (decode_json json json.decode_create r.body) [
    | none ↦
        write_error 400 (text "invalid_request") (lit_of "request body must be one JSON object")
    | some request ↦ create_checked r request
  ]

  -- The request of a revert: a body that is announced is decoded over the default.
  abbrev pub decode_revert_request : Json B → Request B → Option SnapshotRevertRequest
  decode_revert_request json r =
      if is_zero r.content_length
      then some (record { state = snapshot_revert_recorded; force = false })
      else decode_json json (json.decode_revert snapshot_revert_recorded) r.body

  unfoldable pub revert_checked : Request B → Text → SnapshotRevertRequest → M (Unit {0})
  revert_checked r snapshot request =
      if not (one_of revert_states request.state)
      then write_error 400 (text "invalid_revert_state")
          (lit_of "state must be snapshot, running, or paused")
      else do
        clear_deadline
        ask service (revert_snapshot (identifier service r) snapshot request)
            >>= respond (λ result. write_json 200 (snapshot_action_object result))

  unfoldable pub revert_vm_snapshot : Json B → Handler B
  unfolding revert_checked
  revert_vm_snapshot json r =
      let snapshot = path_value (text "snapshot") r.path_values in
      if not (valid_snapshot_lookup_name snapshot)
      then write_error 400 (text "invalid_snapshot_name") (lit_of "invalid snapshot name")
      else elim (decode_revert_request json r) [
        | none ↦
            write_error 400 (text "invalid_request") (lit_of "request body must be one JSON object")
        | some request ↦ revert_checked r snapshot (state_or_recorded request)
      ]

  unfoldable pub delete_vm_snapshot : Handler B
  delete_vm_snapshot r =
      let snapshot = path_value (text "snapshot") r.path_values in
      if not (valid_snapshot_lookup_name snapshot)
      then write_error 400 (text "invalid_snapshot_name") (lit_of "invalid snapshot name")
      else elim (decode_children (r.query (text "children"))) [
        | none ↦ write_error 400 (text "invalid_children") (lit_of "children must be true or false")
        | some children ↦ do
          clear_deadline
          ask service (delete_snapshot (identifier service r) snapshot children)
              >>= respond (λ _. write_header 204)
      ]
