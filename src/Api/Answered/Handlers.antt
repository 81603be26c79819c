-- ===== src/Api/Answered/Handlers.antt =====
-- Every handler of internal/api/server.go answers.
use libvirt_rest_api.Base.{inl, inr, not, none, some, Text, text, to_lower, Option-cases}
use libvirt_rest_api.Errors.{Result, ok, err}
use libvirt_rest_api.Service.{
  Service, ready, host, host_stats, list_domains, domain, domain_stats, autostart, list_snapshots,
  domain_xml, viewer, screenshot, start, pause, resume, reset, stop, domain_interfaces,
  set_autostart,
}
use libvirt_rest_api.Api.Http.{Request, path_value}
use libvirt_rest_api.Api.Validate.{parse_domain_filter, one_of}
use libvirt_rest_api.Api.Decode.{Json}
use libvirt_rest_api.Api.Handlers.{
  interface_sources, source_or_lease, health, ready_handler, ready_answer, host_handler,
  host_stats_handler, list_vms, vm, vm_stats, vm_interfaces, vm_autostart, set_vm_autostart, vm_xml,
  vm_viewer, vm_screenshot,
}
use libvirt_rest_api.Api.Handlers.Snapshots.{list_vm_snapshots}
use libvirt_rest_api.Api.Handlers.Power.{vm_start, vm_stop, vm_pause, vm_resume, vm_reset}
use libvirt_rest_api.Api.Answered.{
  Answers, Quiet-Answers, Answers-Lasting, Lasting-bind, Answers-if, Lasting-if,
  write_header-Answers, set_header-Quiet, log_line-Quiet, ask-Quiet, log_line-Lasting, pure-Lasting,
  write-Lasting, write_json-Answers, write_error-Answers, respond-Answers,
}

module _ {B : Type 0} (service : Service) (r : Request B) where
  abbrev name : Text
  name = path_value (text "identifier") r.path_values

  abbrev snapshot_name : Text
  snapshot_name = path_value (text "snapshot") r.path_values

  pub health-Answers : Answers (health service r)
  health-Answers = write_json-Answers _ _

  ready_answer-Answers : (result : Result (Unit {0})) → Answers (ready_answer result)
  ready_answer-Answers (err _) = Quiet-Answers (log_line-Quiet _) (λ _. write_error-Answers _ _ _)
  ready_answer-Answers (ok _) = write_json-Answers _ _

  pub ready_handler-Answers : Answers (ready_handler service r)
  ready_handler-Answers = Quiet-Answers (ask-Quiet service ready) ready_answer-Answers

  pub host_handler-Answers : Answers (host_handler service r)
  host_handler-Answers =
      Quiet-Answers (ask-Quiet service host) (respond-Answers _ (λ _. write_json-Answers _ _))

  pub host_stats_handler-Answers : Answers (host_stats_handler service r)
  host_stats_handler-Answers =
      Quiet-Answers (ask-Quiet service host_stats) (respond-Answers _ (λ _. write_json-Answers _ _))

  pub vm-Answers : Answers (vm service r)
  vm-Answers =
      Quiet-Answers (ask-Quiet service (domain name))
        (respond-Answers _ (λ _. write_json-Answers _ _))

  pub vm_stats-Answers : Answers (vm_stats service r)
  vm_stats-Answers =
      Quiet-Answers (ask-Quiet service (domain_stats name))
        (respond-Answers _ (λ _. write_json-Answers _ _))

  pub vm_autostart-Answers : Answers (vm_autostart service r)
  vm_autostart-Answers =
      Quiet-Answers (ask-Quiet service (autostart name))
        (respond-Answers _ (λ _. write_json-Answers _ _))

  pub vm_viewer-Answers : Answers (vm_viewer service r)
  vm_viewer-Answers =
      Quiet-Answers (ask-Quiet service (viewer name))
        (respond-Answers _ (λ _. write_json-Answers _ _))

  pub list_vm_snapshots-Answers : Answers (list_vm_snapshots service r)
  list_vm_snapshots-Answers =
      Quiet-Answers (ask-Quiet service (list_snapshots name))
        (respond-Answers _ (λ _. write_json-Answers _ _))

  pub vm_start-Answers : Answers (vm_start service r)
  vm_start-Answers =
      Quiet-Answers (ask-Quiet service (start name))
        (respond-Answers _ (λ _. write_json-Answers _ _))

  pub vm_pause-Answers : Answers (vm_pause service r)
  vm_pause-Answers =
      Quiet-Answers (ask-Quiet service (pause name))
        (respond-Answers _ (λ _. write_json-Answers _ _))

  pub vm_resume-Answers : Answers (vm_resume service r)
  vm_resume-Answers =
      Quiet-Answers (ask-Quiet service (resume name))
        (respond-Answers _ (λ _. write_json-Answers _ _))

  pub vm_reset-Answers : Answers (vm_reset service r)
  vm_reset-Answers =
      Quiet-Answers (ask-Quiet service (reset name))
        (respond-Answers _ (λ _. write_json-Answers _ _))

  pub vm_stop-Answers : Answers (vm_stop service r)
  vm_stop-Answers =
      Quiet-Answers (ask-Quiet service (stop name))
        (respond-Answers _ (λ _. write_json-Answers _ _))

  pub list_vms-Answers : Answers (list_vms service r)
  unfolding list_vms
  list_vms-Answers = elim (Option-cases (parse_domain_filter (r.query (text "state")))) [
    | inl e ↦ rw (e, list_vms) (write_error-Answers _ _ _)
    | inr (filter, e) ↦
        rw (e, list_vms)
          (Quiet-Answers (ask-Quiet service (list_domains filter))
            (respond-Answers _ (λ _. write_json-Answers _ _)))
  ]

  pub vm_interfaces-Answers : Answers (vm_interfaces service r)
  unfolding vm_interfaces
  vm_interfaces-Answers =
      let source : Text = source_or_lease (to_lower (r.query (text "source"))) in
      Answers-if (not (one_of interface_sources source)) (write_error-Answers _ _ _) (
        Quiet-Answers (ask-Quiet service (domain_interfaces name source))
          (respond-Answers _ (λ _. write_json-Answers _ _)))

  pub vm_xml-Answers : Answers (vm_xml service r)
  vm_xml-Answers = Quiet-Answers (ask-Quiet service (domain_xml name)) (
      respond-Answers _ (λ _. Quiet-Answers (set_header-Quiet _ _) (λ _.
        Answers-Lasting (write_header-Answers _)
          (λ _. Lasting-bind (write-Lasting _) (λ _. pure-Lasting tt)))))

  pub vm_screenshot-Answers : Answers (vm_screenshot service r)
  vm_screenshot-Answers = Quiet-Answers (ask-Quiet service (screenshot name)) (
      respond-Answers _ (λ _. Quiet-Answers (set_header-Quiet _ _) (λ _.
        Quiet-Answers (set_header-Quiet _ _) (λ _. Answers-Lasting (write_header-Answers _) (λ _.
          Lasting-bind (write-Lasting _)
            (λ success. Lasting-if success (pure-Lasting tt) (log_line-Lasting _)))))))

  pub set_vm_autostart-Answers : (json : Json B) → Answers (set_vm_autostart service json r)
  unfolding set_vm_autostart
  set_vm_autostart-Answers json = elim (Option-cases (json.decode_autostart r.body)) [
    | inl e ↦ rw (e, set_vm_autostart) (write_error-Answers _ _ _)
    | inr ((none, rest), e) ↦ rw (e, set_vm_autostart) (write_error-Answers _ _ _)
    | inr ((some enabled, rest), e) ↦
        rw (e, set_vm_autostart)
          (Quiet-Answers (ask-Quiet service (set_autostart name enabled))
            (respond-Answers _ (λ _. write_json-Answers _ _)))
  ]
