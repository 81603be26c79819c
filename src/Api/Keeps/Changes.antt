-- ===== src/Api/Keeps/Changes.antt =====
-- internal/api/server.go: the handlers that change snapshots keep the invariant.
use libvirt_rest_api.Base.{
  ◌≡◌, refl, ◌⊎◌, inl, inr, Bool, true, false, not, ◌&&◌, Text, text, text_eq, text_eq_iff, ltb,
  length, arith, Bool-cases, Option-cases,
}
use libvirt_rest_api.Service.{
  Service, Call, create_snapshot, revert_snapshot, delete_snapshot, SnapshotCreateRequest,
  SnapshotRevertRequest, snapshot_kind_disk,
}
use libvirt_rest_api.Api.Http.{Request, State, path_value}
use libvirt_rest_api.Api.Auth.{scope_admin}
use libvirt_rest_api.Api.Validate.{one_of, valid_snapshot_name, valid_snapshot_lookup_name}
use libvirt_rest_api.Api.Decode.{Json, decode_json}
use libvirt_rest_api.Api.Handlers.Snapshots.{
  create_vm_snapshot, create_checked, revert_vm_snapshot, revert_checked, delete_vm_snapshot,
  snapshot_kinds, revert_states, decode_children, decode_revert_request, state_or_recorded,
}
use libvirt_rest_api.Api.Keeps.{
  Stable, Keeps, Keeps-bind, write_header-Keeps, clear_deadline-Keeps, ask-Keeps, write_json-Keeps,
  write_error-Keeps,
}
use libvirt_rest_api.Api.Keeps.Handlers.{Allows, ask_respond-Keeps}
use libvirt_rest_api.Api.Keeps.Valid.{ValidCreate}

quiesce_fits :
    (quiesce : Bool) (kind : Text)
    → (quiesce && not (text_eq kind snapshot_kind_disk)) ≡ false
    → (quiesce ≡ false) ⊎ (kind ≡ snapshot_kind_disk)
quiesce_fits false kind h = inl refl
quiesce_fits true kind h = inr ((text_eq_iff kind snapshot_kind_disk).0 (ground arith))

module _ {I P : State → Type 0} {C : Call → Type 0} {Free : Text → Type 0}
    (stable : Stable I P C Free) {B : Type 0} (service : Service) (r : Request B) where
  abbrev name : Text
  name = path_value (text "identifier") r.path_values

  abbrev snapshot_name : Text
  snapshot_name = path_value (text "snapshot") r.path_values

  module _ (json : Json B) (allows : Allows stable scope_admin) where
    create_checked-Keeps :
        (request : SnapshotCreateRequest) → Keeps I P (create_checked service r request)
    unfolding create_checked
    create_checked-Keeps request = elim (Bool-cases (valid_snapshot_name request.name)) [
      | inr bad ↦ simp (bad, create_checked) (write_error-Keeps stable _ _ _)
      | inl named ↦ elim (Bool-cases (ltb 1024 (length request.description))) [
        | inl long ↦ simp (named, long, create_checked) (write_error-Keeps stable _ _ _)
        | inr short ↦ elim (Bool-cases (one_of snapshot_kinds request.kind)) [
          | inr bad ↦ simp (named, short, bad, create_checked) (write_error-Keeps stable _ _ _)
          | inl known ↦
              elim (Bool-cases (request.quiesce && not (text_eq request.kind snapshot_kind_disk))) [
                | inl bad ↦
                    simp (named, short, known, bad, create_checked) (write_error-Keeps stable _ _ _)
                | inr fitting ↦
                    let call : Call = create_snapshot name request in
                    let valid : ValidCreate request = record {
                      name_valid = named;
                      description_short = ground arith;
                      kind_known = known;
                      quiesce_disk = quiesce_fits request.quiesce request.kind fitting;
                    } in
                    simp (named, short, known, fitting, create_checked)
                      (Keeps-bind (clear_deadline-Keeps stable) (λ _.
                        ask_respond-Keeps stable
                          (ask-Keeps stable service call (allows call valid refl))
                          (λ _. write_json-Keeps stable _ _)))
              ]
        ]
      ]
    ]

    pub create_vm_snapshot-Keeps : Keeps I P (create_vm_snapshot service json r)
    unfolding create_vm_snapshot
    create_vm_snapshot-Keeps = elim (Option-cases (decode_json json json.decode_create r.body)) [
      | inl e ↦ rw (e, create_vm_snapshot) (write_error-Keeps stable _ _ _)
      | inr (request, e) ↦ rw (e, create_vm_snapshot) (create_checked-Keeps request)
    ]

    revert_checked-Keeps :
        (request : SnapshotRevertRequest)
        → valid_snapshot_lookup_name snapshot_name ≡ true
        → Keeps I P (revert_checked service r snapshot_name request)
    unfolding revert_checked
    revert_checked-Keeps request valid = elim (Bool-cases (one_of revert_states request.state)) [
      | inl known ↦
          let call : Call = revert_snapshot name snapshot_name request in
          simp (known, revert_checked)
            (Keeps-bind (clear_deadline-Keeps stable) (λ _.
              ask_respond-Keeps stable
                (ask-Keeps stable service call (allows call (valid, known) refl))
                (λ _. write_json-Keeps stable _ _)))
      | inr unknown ↦ rw (unknown, revert_checked) (write_error-Keeps stable _ _ _)
    ]

    pub revert_vm_snapshot-Keeps : Keeps I P (revert_vm_snapshot service json r)
    unfolding revert_vm_snapshot
    revert_vm_snapshot-Keeps = elim (Bool-cases (valid_snapshot_lookup_name snapshot_name)) [
      | inl valid ↦ elim (Option-cases (decode_revert_request service json r)) [
        | inl e ↦ rw (valid, e, revert_vm_snapshot) (write_error-Keeps stable _ _ _)
        | inr (request, e) ↦
            rw (valid, e, revert_vm_snapshot)
              (revert_checked-Keeps (state_or_recorded request) valid)
      ]
      | inr bad ↦ rw (bad, revert_vm_snapshot) (write_error-Keeps stable _ _ _)
    ]

  pub delete_vm_snapshot-Keeps :
      Allows stable scope_admin → Keeps I P (delete_vm_snapshot service r)
  unfolding delete_vm_snapshot
  delete_vm_snapshot-Keeps allows = elim (Bool-cases (valid_snapshot_lookup_name snapshot_name)) [
    | inl valid ↦ elim (Option-cases (decode_children (r.query (text "children")))) [
      | inl e ↦ rw (valid, e, delete_vm_snapshot) (write_error-Keeps stable _ _ _)
      | inr (children, e) ↦
          let call : Call = delete_snapshot name snapshot_name children in
          rw (valid, e, delete_vm_snapshot)
            (Keeps-bind (clear_deadline-Keeps stable) (λ _.
              ask_respond-Keeps stable (ask-Keeps stable service call (allows call valid refl))
                (λ _. write_header-Keeps stable _)))
    ]
    | inr bad ↦ rw (bad, delete_vm_snapshot) (write_error-Keeps stable _ _ _)
  ]
