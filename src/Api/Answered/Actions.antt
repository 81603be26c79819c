-- ===== src/Api/Answered/Actions.antt =====
-- The handlers of internal/api/server.go for snapshots, shutdowns and the event stream answer.
use libvirt_rest_api.Base.{
  inl, inr, not, ◌&&◌, List, [], ◌∷◌, Text, text, text_eq, ltb, length, Bool-cases, Option-cases,
}
use libvirt_rest_api.Errors.{Result}
use libvirt_rest_api.Service.{
  Service, subscribe, cancel, create_snapshot, revert_snapshot, delete_snapshot, shutdown, reboot,
  Signal, event_received, stream_closed, heartbeat, request_done, SnapshotCreateRequest,
  SnapshotRevertRequest, snapshot_kind_disk, power_mode_default, ActionResult,
}
use libvirt_rest_api.Api.Http.{Request, M, ask, ◌>>=◌, path_value}
use libvirt_rest_api.Api.Validate.{one_of, valid_snapshot_name, valid_snapshot_lookup_name}
use libvirt_rest_api.Api.Decode.{
  Json, decode_power_mode, decode_json, check_mode, mode_or_default, power_modes, is_zero,
}
use libvirt_rest_api.Api.Handlers.Snapshots.{
  create_vm_snapshot, create_checked, revert_vm_snapshot, revert_checked, delete_vm_snapshot,
  snapshot_kinds, revert_states, decode_children, decode_revert_request, state_or_recorded,
}
use libvirt_rest_api.Api.Handlers.Power.{vm_shutdown, vm_reboot, ask_mode}
use libvirt_rest_api.Api.Handlers.Stream.{events, event_loop}
use libvirt_rest_api.Api.Answered.{
  Answers, Quiet, Lasting, Quiet-Answers, Answers-Lasting, Lasting-bind, Answers-if, Lasting-if,
  write_header-Answers, set_header-Quiet, clear_deadline-Quiet, ask-Quiet, ask-Lasting,
  pure-Lasting, write-Lasting, write_json-Answers, write_error-Answers, respond-Answers,
  Answers-pure-bind, Answers-then-bind,
}

module _ {B : Type 0} (service : Service) (r : Request B) where
  abbrev name : Text
  name = path_value (text "identifier") r.path_values

  abbrev snapshot_name : Text
  snapshot_name = path_value (text "snapshot") r.path_values

  create_checked-Answers :
      (request : SnapshotCreateRequest) → Answers (create_checked service r request)
  unfolding create_checked
  create_checked-Answers request =
      Answers-if (not (valid_snapshot_name request.name)) (write_error-Answers _ _ _) (
        Answers-if (ltb 1024 (length request.description)) (write_error-Answers _ _ _) (
          Answers-if (not (one_of snapshot_kinds request.kind)) (write_error-Answers _ _ _) (
            Answers-if (request.quiesce && not (text_eq request.kind snapshot_kind_disk))
              (write_error-Answers _ _ _)
              (Quiet-Answers clear_deadline-Quiet (λ _.
                Quiet-Answers (ask-Quiet service (create_snapshot name request))
                  (respond-Answers _ (λ _. write_json-Answers _ _)))))))

  pub create_vm_snapshot-Answers : (json : Json B) → Answers (create_vm_snapshot service json r)
  unfolding create_vm_snapshot
  create_vm_snapshot-Answers json =
      elim (Option-cases (decode_json json json.decode_create r.body)) [
        | inl e ↦ rw (e, create_vm_snapshot) (write_error-Answers _ _ _)
        | inr (request, e) ↦ rw (e, create_vm_snapshot) (create_checked-Answers request)
      ]

  revert_checked-Answers :
      (request : SnapshotRevertRequest) → Answers (revert_checked service r snapshot_name request)
  unfolding revert_checked
  revert_checked-Answers request =
      Answers-if (not (one_of revert_states request.state)) (write_error-Answers _ _ _) (
        Quiet-Answers clear_deadline-Quiet (λ _.
          Quiet-Answers (ask-Quiet service (revert_snapshot name snapshot_name request))
            (respond-Answers _ (λ _. write_json-Answers _ _))))

  pub revert_vm_snapshot-Answers : (json : Json B) → Answers (revert_vm_snapshot service json r)
  unfolding revert_vm_snapshot
  revert_vm_snapshot-Answers json = elim (Bool-cases (valid_snapshot_lookup_name snapshot_name)) [
    | inl valid ↦ elim (Option-cases (decode_revert_request service json r)) [
      | inl e ↦ rw (valid, e, revert_vm_snapshot) (write_error-Answers _ _ _)
      | inr (request, e) ↦
          rw (valid, e, revert_vm_snapshot) (revert_checked-Answers (state_or_recorded request))
    ]
    | inr bad ↦ rw (bad, revert_vm_snapshot) (write_error-Answers _ _ _)
  ]

  pub delete_vm_snapshot-Answers : Answers (delete_vm_snapshot service r)
  unfolding delete_vm_snapshot
  delete_vm_snapshot-Answers = elim (Bool-cases (valid_snapshot_lookup_name snapshot_name)) [
    | inl valid ↦ elim (Option-cases (decode_children (r.query (text "children")))) [
      | inl e ↦ rw (valid, e, delete_vm_snapshot) (write_error-Answers _ _ _)
      | inr (children, e) ↦
          rw (valid, e, delete_vm_snapshot)
            (Quiet-Answers clear_deadline-Quiet (λ _.
              Quiet-Answers (ask-Quiet service (delete_snapshot name snapshot_name children))
                (respond-Answers _ (λ _. write_header-Answers _))))
    ]
    | inr bad ↦ rw (bad, delete_vm_snapshot) (write_error-Answers _ _ _)
  ]

  ask_mode-Answers :
      (action : Text → Text → M (Result ActionResult))
      → ((mode : Text) → Quiet (action name mode))
      → (mode : Text) → Answers (check_mode mode >>= ask_mode service action r)
  unfolding check_mode
  ask_mode-Answers action quiet mode = elim (Bool-cases (one_of power_modes mode)) [
    | inl known ↦
        rw (known, check_mode)
          (Answers-pure-bind _
            (Quiet-Answers (quiet mode) (respond-Answers _ (λ _. write_json-Answers _ _))))
    | inr unknown ↦
        rw (unknown, check_mode) (Answers-then-bind _ (write_error-Answers _ _ _) (pure-Lasting tt))
  ]

  decoded_mode-Answers :
      (json : Json B) (action : Text → Text → M (Result ActionResult))
      → ((mode : Text) → Quiet (action name mode))
      → Answers (decode_power_mode json r >>= ask_mode service action r)
  unfolding decode_power_mode
  decoded_mode-Answers json action quiet = elim (Bool-cases (is_zero r.content_length)) [
    | inl empty ↦
        rw (empty, decode_power_mode)
          (Answers-pure-bind _ (
            Quiet-Answers (quiet power_mode_default)
              (respond-Answers _ (λ _. write_json-Answers _ _))))
    | inr filled ↦ elim (Option-cases (json.decode_mode r.body)) [
      | inl e ↦
          rw (filled, e, decode_power_mode)
            (Answers-then-bind _ (write_error-Answers _ _ _) (pure-Lasting tt))
      | inr ((mode, rest), e) ↦
          rw (filled, e, decode_power_mode) (ask_mode-Answers action quiet (mode_or_default mode))
    ]
  ]

  pub vm_shutdown-Answers : (json : Json B) → Answers (vm_shutdown service json r)
  vm_shutdown-Answers json =
      decoded_mode-Answers json (λ vm_name mode. ask service (shutdown vm_name mode))
        (λ mode. ask-Quiet service (shutdown name mode))

  pub vm_reboot-Answers : (json : Json B) → Answers (vm_reboot service json r)
  vm_reboot-Answers json =
      decoded_mode-Answers json (λ vm_name mode. ask service (reboot vm_name mode))
        (λ mode. ask-Quiet service (reboot name mode))

event_loop-Lasting : (signals : List Signal) → Lasting (event_loop signals)
unfolding event_loop
event_loop-Lasting [] = pure-Lasting tt
event_loop-Lasting (stream_closed ∷ rest) = pure-Lasting tt
event_loop-Lasting (request_done ∷ rest) = pure-Lasting tt
event_loop-Lasting (heartbeat ∷ rest) =
    Lasting-bind (write-Lasting _)
      (λ success. Lasting-if success (event_loop-Lasting rest) (pure-Lasting tt))
event_loop-Lasting (event_received event ∷ rest) =
    Lasting-bind (write-Lasting _)
      (λ success. Lasting-if success (event_loop-Lasting rest) (pure-Lasting tt))

module _ {B : Type 0} (service : Service) (r : Request B) where
  pub events-Answers : Answers (events service r)
  unfolding events
  events-Answers =
      Quiet-Answers (record { calm = λ st h. h })
        (λ flushes. Answers-if (not flushes) (write_error-Answers _ _ _) (
          Quiet-Answers clear_deadline-Quiet (λ _. Quiet-Answers (set_header-Quiet _ _) (λ _.
            Quiet-Answers (set_header-Quiet _ _) (λ _. Quiet-Answers (set_header-Quiet _ _) (λ _.
              Answers-Lasting (write_header-Answers _) (λ _. Lasting-bind (write-Lasting _) (λ _.
                Lasting-bind (ask-Lasting service (subscribe (r.header (text "Last-Event-ID"))))
                  (λ signals.
                    Lasting-bind (event_loop-Lasting signals)
                      (λ _. ask-Lasting service cancel))))))))))
