-- ===== src/Api/Handlers.antt =====
-- internal/api/server.go: the handlers that read, and how the service's errors are answered.
pub mod Snapshots
pub mod Power
pub mod Stream
use libvirt_rest_api.Base.{
  is_set, ℕ, Bool, true, false, not, ◌&&◌, ◌||◌, List, [], ◌∷◌, Option, none, some, Text, text,
  text_eq, to_lower, ltb, if◌then◌else◌, length,
}
use libvirt_rest_api.Errors.{
  Error, Message, Result, ok, err, is, not_found, snapshot_not_found, conflict, unsupported, lit_of,
}
use libvirt_rest_api.Service.{
  Service, Call, ready, host, host_stats, list_domains, subscribe, cancel, domain, domain_stats,
  autostart, list_snapshots, domain_xml, viewer, screenshot, start, pause, resume, reset, stop,
  domain_interfaces, set_autostart, create_snapshot, revert_snapshot, delete_snapshot, shutdown,
  reboot, interface_source_lease, interface_source_agent, interface_source_arp,
  snapshot_kind_system, snapshot_kind_disk, snapshot_revert_recorded, snapshot_revert_running,
  snapshot_revert_paused, Signal, event_received, stream_closed, heartbeat, request_done,
  SnapshotCreateRequest, SnapshotRevertRequest, Answer, ActionResult,
}
use libvirt_rest_api.Api.Http.{
  Request, Handler, M, ◌>>◌, ◌>>=◌, pure, Payload, status_object, host_object, host_stats_object,
  vms_object, domain_object, domain_stats_object, interfaces_object, autostart_object,
  snapshots_object, snapshot_object, snapshot_action_object, viewer_object, action_object,
  plain_text, bytes, event_frame, State, done, ask, write, write_json, write_error, write_header,
  set_header, clear_deadline, log_line, not_ready, request_failed, screenshot_broken, path_value,
}
use libvirt_rest_api.Api.Validate.{
  parse_domain_filter, valid_snapshot_name, valid_snapshot_lookup_name, parse_bool, one_of,
}
use libvirt_rest_api.Api.Decode.{Json, decode_json, decode_power_mode, is_zero}

unfoldable pub write_service_error : Error → M (Unit {0})
write_service_error e =
    if is e not_found
    then write_error 404 (text "vm_not_found") (lit_of "virtual machine not found")
    else if is e snapshot_not_found
    then write_error 404 (text "snapshot_not_found") (lit_of "snapshot not found")
    else if is e conflict
    then write_error 409 (text "state_conflict") e.message
    else if is e unsupported
    then write_error 422 (text "operation_unsupported") e.message
    else do
      log_line request_failed
      write_error 503 (text "hypervisor_unavailable") (lit_of "hypervisor request failed")

-- The end that the handlers share: the service's error, or a response with its answer.
abbrev pub respond : {A : Type 0} → (A → M (Unit {0})) → Result A → M (Unit {0})
respond finish (ok a) = finish a
respond finish (err e) = write_service_error e

-- Constants of the interfaces handler.
abbrev pub interface_sources : List Text
interface_sources = interface_source_lease ∷ interface_source_agent ∷ interface_source_arp ∷ []

abbrev pub ready_answer : Result (Unit {0}) → M (Unit {0})
ready_answer (err _) = do
  log_line not_ready
  write_error 503 (text "hypervisor_unavailable") (lit_of "hypervisor is not ready")
ready_answer (ok _) = write_json 200 (status_object (text "ready"))

abbrev pub source_or_lease : Text → Text
source_or_lease source = if not (is_set source) then interface_source_lease else source

module _ {B : Type 0} (service : Service) where
  abbrev pub identifier : Request B → Text
  identifier r = path_value (text "identifier") r.path_values

  abbrev pub health : Handler B
  health r = write_json 200 (status_object (text "ok"))

  abbrev pub ready_handler : Handler B
  ready_handler r = ask service ready >>= ready_answer

  abbrev pub host_handler : Handler B
  host_handler r = ask service host >>= respond (λ h. write_json 200 (host_object h))

  abbrev pub host_stats_handler : Handler B
  host_stats_handler r =
      ask service host_stats >>= respond (λ stats. write_json 200 (host_stats_object stats))

  unfoldable pub list_vms : Handler B
  list_vms r = elim (parse_domain_filter (r.query (text "state"))) [
    | none ↦
        write_error 400 (text "invalid_state") (lit_of "state must be all, active, or inactive")
    | some filter ↦
        ask service (list_domains filter)
        >>= respond (λ domains. write_json 200 (vms_object domains))
  ]

  abbrev pub vm : Handler B
  vm r =
      ask service (domain (identifier r)) >>= respond (λ info. write_json 200 (domain_object info))

  abbrev pub vm_stats : Handler B
  vm_stats r =
      ask service (domain_stats (identifier r))
      >>= respond (λ stats. write_json 200 (domain_stats_object stats))

  abbrev pub ask_interfaces : Request B → Text → M (Unit {0})
  ask_interfaces r source =
      if not (one_of interface_sources source)
      then write_error 400 (text "invalid_source") (lit_of "source must be lease, agent, or arp")
      else (ask service (domain_interfaces (identifier r) source)
          >>= respond (λ interfaces. write_json 200 (interfaces_object interfaces)))

  unfoldable pub vm_interfaces : Handler B
  vm_interfaces r = ask_interfaces r (source_or_lease (to_lower (r.query (text "source"))))

  abbrev pub vm_autostart : Handler B
  vm_autostart r =
      ask service (autostart (identifier r))
      >>= respond (λ value. write_json 200 (autostart_object value))

  unfoldable pub set_vm_autostart : Json B → Handler B
  set_vm_autostart json r = elim (json.decode_autostart r.body) [
    | some (some enabled, _) ↦
        ask service (set_autostart (identifier r) enabled)
        >>= respond (λ value. write_json 200 (autostart_object value))
    | _ ↦
        write_error 400 (text "invalid_request")
          (lit_of "request body must contain boolean enabled")
  ]

  abbrev pub vm_xml : Handler B
  vm_xml r =
      ask service (domain_xml (identifier r))
      >>= respond (λ xml. do
        set_header (text "Content-Type") (text "application/xml; charset=utf-8")
        write_header 200
        success ← write (plain_text xml)
        pure tt)

  abbrev pub vm_viewer : Handler B
  vm_viewer r =
      ask service (viewer (identifier r)) >>= respond (λ v. write_json 200 (viewer_object v))

  -- `io.Copy` of the image: one write of all of it.
  abbrev pub vm_screenshot : Handler B
  vm_screenshot r =
      ask service (screenshot (identifier r))
      >>= respond (λ image. do
        set_header (text "Content-Type") image.content_type
        set_header (text "Cache-Control") (text "no-store")
        write_header 200
        success ← write (bytes image.image)
        if success then pure tt else log_line screenshot_broken)
