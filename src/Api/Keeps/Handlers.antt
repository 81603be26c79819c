-- ===== src/Api/Keeps/Handlers.antt =====
-- Every handler of internal/api/server.go keeps an invariant that allows its valid calls.
use libvirt_rest_api.Base.{
  ◌≡◌, refl, inl, inr, Bool, true, Option, none, some, Text, text, text_eq, Bool-cases,
  Option-cases,
}
use libvirt_rest_api.Errors.{Result, ok, err, lit_of}
use libvirt_rest_api.Service.{
  Service, Call, ready, host, host_stats, list_domains, domain, domain_stats, autostart,
  list_snapshots, domain_xml, viewer, screenshot, domain_interfaces, set_autostart,
}
use libvirt_rest_api.Api.Http.{
  Request, M, State, ask, ◌>>=◌, path_value, write_json, write_error, autostart_object,
}
use libvirt_rest_api.Api.Auth.{Scope, scope_public, scope_read, scope_admin}
use libvirt_rest_api.Api.Validate.{parse_domain_filter, one_of}
use libvirt_rest_api.Api.Decode.{Json}
use libvirt_rest_api.Api.Handlers.{
  respond, interface_sources, ask_interfaces, health, ready_handler, ready_answer, host_handler,
  host_stats_handler, list_vms, vm, vm_stats, vm_interfaces, vm_autostart, set_vm_autostart, vm_xml,
  vm_viewer, vm_screenshot,
}
use libvirt_rest_api.Api.Handlers.Snapshots.{list_vm_snapshots}
use libvirt_rest_api.Api.Keeps.{
  Stable, Keeps, Keeps-bind, Keeps-if, Keeps-pure, set_header-Keeps, write_header-Keeps,
  write-Keeps, log_line-Keeps, ask-Keeps, write_json-Keeps, write_error-Keeps, respond-Keeps,
  is_free,
}
use libvirt_rest_api.Api.Keeps.Valid.{call_scope, Valid}

pub content_type-free : is_free (text "Content-Type") ≡ true
unfolding text_eq text
content_type-free = refl

pub cache_control-free : is_free (text "Cache-Control") ≡ true
unfolding text_eq text
cache_control-free = refl

pub connection-free : is_free (text "Connection") ≡ true
unfolding text_eq text
connection-free = refl

module _ {I P : State → Type 0} {C : Call → Type 0} {Free : Text → Type 0}
    (stable : Stable I P C Free) where
  -- The calls of a scope, with valid arguments, are allowed.
  abbrev pub Allows : Scope → Type 0
  Allows scope = (call : Call) → Valid call → call_scope call ≡ scope → C call

  -- A call, and a response with its answer.
  pub ask_respond-Keeps :
      {A : Type 0} {m : M (Result A)} {finish : A → M (Unit {0})}
      → Keeps I P m
      → ((a : A) → Keeps I P (finish a))
      → Keeps I P (m >>= respond finish)
  ask_respond-Keeps {finish} asked keeps = Keeps-bind asked (respond-Keeps stable finish keeps)

  module _ {B : Type 0} (service : Service) (r : Request B) where
    abbrev name : Text
    name = path_value (text "identifier") r.path_values

    pub health-Keeps : Keeps I P (health service r)
    health-Keeps = write_json-Keeps stable _ _

    ready_answer-Keeps : (result : Result (Unit {0})) → Keeps I P (ready_answer result)
    ready_answer-Keeps (err _) =
        Keeps-bind (log_line-Keeps stable _) (λ _. write_error-Keeps stable _ _ _)
    ready_answer-Keeps (ok _) = write_json-Keeps stable _ _

    pub ready_handler-Keeps : Allows scope_public → Keeps I P (ready_handler service r)
    ready_handler-Keeps allows =
        Keeps-bind (ask-Keeps stable service ready (allows ready tt refl)) ready_answer-Keeps

    module _ (allows : Allows scope_read) where
      pub host_handler-Keeps : Keeps I P (host_handler service r)
      host_handler-Keeps =
          ask_respond-Keeps (ask-Keeps stable service host (allows host tt refl))
            (λ _. write_json-Keeps stable _ _)

      pub host_stats_handler-Keeps : Keeps I P (host_stats_handler service r)
      host_stats_handler-Keeps =
          ask_respond-Keeps (ask-Keeps stable service host_stats (allows host_stats tt refl))
            (λ _. write_json-Keeps stable _ _)

      pub vm-Keeps : Keeps I P (vm service r)
      vm-Keeps =
          ask_respond-Keeps (ask-Keeps stable service (domain name) (allows (domain name) tt refl))
            (λ _. write_json-Keeps stable _ _)

      pub vm_stats-Keeps : Keeps I P (vm_stats service r)
      vm_stats-Keeps =
          ask_respond-Keeps
            (ask-Keeps stable service (domain_stats name) (allows (domain_stats name) tt refl))
            (λ _. write_json-Keeps stable _ _)

      pub vm_autostart-Keeps : Keeps I P (vm_autostart service r)
      vm_autostart-Keeps =
          ask_respond-Keeps
            (ask-Keeps stable service (autostart name) (allows (autostart name) tt refl))
            (λ _. write_json-Keeps stable _ _)

      pub vm_viewer-Keeps : Keeps I P (vm_viewer service r)
      vm_viewer-Keeps =
          ask_respond-Keeps (ask-Keeps stable service (viewer name) (allows (viewer name) tt refl))
            (λ _. write_json-Keeps stable _ _)

      pub list_vm_snapshots-Keeps : Keeps I P (list_vm_snapshots service r)
      list_vm_snapshots-Keeps =
          ask_respond-Keeps
            (ask-Keeps stable service (list_snapshots name) (allows (list_snapshots name) tt refl))
            (λ _. write_json-Keeps stable _ _)

      pub list_vms-Keeps : Keeps I P (list_vms service r)
      unfolding list_vms
      list_vms-Keeps = elim (Option-cases (parse_domain_filter (r.query (text "state")))) [
        | inl e ↦ rw (e, list_vms) (write_error-Keeps stable _ _ _)
        | inr (filter, e) ↦
            rw (e, list_vms)
              (ask_respond-Keeps
                (ask-Keeps stable service (list_domains filter)
                  (allows (list_domains filter) tt refl))
                (λ _. write_json-Keeps stable _ _))
      ]

      ask_interfaces-Keeps : (source : Text) → Keeps I P (ask_interfaces service r source)
      ask_interfaces-Keeps source = elim (Bool-cases (one_of interface_sources source)) [
        | inl known ↦
            let call : Call = domain_interfaces name source in
            simp known (
              ask_respond-Keeps (ask-Keeps stable service call (allows call known refl))
                (λ _. write_json-Keeps stable _ _))
        | inr unknown ↦ rw unknown (write_error-Keeps stable _ _ _)
      ]

      pub vm_interfaces-Keeps : Keeps I P (vm_interfaces service r)
      unfolding vm_interfaces
      vm_interfaces-Keeps = ask_interfaces-Keeps _

      pub vm_xml-Keeps : Keeps I P (vm_xml service r)
      vm_xml-Keeps =
          ask_respond-Keeps
            (ask-Keeps stable service (domain_xml name) (allows (domain_xml name) tt refl))
            (λ _. Keeps-bind (set_header-Keeps stable _ _ content_type-free) (λ _.
              Keeps-bind (write_header-Keeps stable _)
                (λ _. Keeps-bind (write-Keeps stable _) (λ _. Keeps-pure tt))))

      pub vm_screenshot-Keeps : Keeps I P (vm_screenshot service r)
      vm_screenshot-Keeps =
          ask_respond-Keeps
            (ask-Keeps stable service (screenshot name) (allows (screenshot name) tt refl))
            (λ _. Keeps-bind (set_header-Keeps stable _ _ content_type-free) (λ _.
              Keeps-bind (set_header-Keeps stable _ _ cache_control-free) (λ _.
                Keeps-bind (write_header-Keeps stable _) (λ _.
                  Keeps-bind (write-Keeps stable _)
                    (λ success. Keeps-if success (Keeps-pure tt) (log_line-Keeps stable _))))))

    pub set_vm_autostart-Keeps :
        (json : Json B) → Allows scope_admin → Keeps I P (set_vm_autostart service json r)
    unfolding set_vm_autostart
    set_vm_autostart-Keeps json allows = autostart_decoded-Keeps (json.decode_autostart r.body)
      where
        autostart_decoded-Keeps :
            (decoded : Option (Option Bool × B))
            → Keeps I P (elim decoded [
              | some (some enabled, _) ↦
                  ask service (set_autostart name enabled)
                  >>= respond (λ value. write_json 200 (autostart_object value))
              | _ ↦
                  write_error 400
                    (text "invalid_request")
                    (lit_of "request body must contain boolean enabled")
            ])
        autostart_decoded-Keeps none = write_error-Keeps stable _ _ _
        autostart_decoded-Keeps (some (none, _)) = write_error-Keeps stable _ _ _
        autostart_decoded-Keeps (some (some enabled, _)) =
            ask_respond-Keeps
              (ask-Keeps stable service (set_autostart name enabled)
                (allows (set_autostart name enabled) tt refl))
              (λ _. write_json-Keeps stable _ _)
