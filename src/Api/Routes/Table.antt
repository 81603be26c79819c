-- ===== src/Api/Routes/Table.antt =====
-- internal/api/server.go: `New`, with its table of routes.
use libvirt_rest_api.Base.{
  ℕ, List, [], ◌∷◌, ◌++◌, if◌then◌else◌, ◌≡◌, refl, Option, none, some, Text, text, text_eq,
}
use libvirt_rest_api.Service.{Service}
use libvirt_rest_api.Api.Http.{Handler}
use libvirt_rest_api.Api.Auth.{
  Scope, scope_public, scope_read, scope_control, scope_admin, Server, require_scope,
}
use libvirt_rest_api.Api.Middleware.{cors, security_headers, access_log, recover_panic}
use libvirt_rest_api.Api.Decode.{Json}
use libvirt_rest_api.Api.Handlers.{
  health, ready_handler, host_handler, host_stats_handler, list_vms, vm, vm_stats, vm_interfaces,
  vm_autostart, set_vm_autostart, vm_xml, vm_viewer, vm_screenshot,
}
use libvirt_rest_api.Api.Handlers.Snapshots.{
  list_vm_snapshots, create_vm_snapshot, revert_vm_snapshot, delete_vm_snapshot,
}
use libvirt_rest_api.Api.Handlers.Power.{
  vm_start, vm_stop, vm_pause, vm_resume, vm_reset, vm_shutdown, vm_reboot,
}
use libvirt_rest_api.Api.Handlers.Stream.{events}
use libvirt_rest_api.Api.Routes.{Registry, paths_of, handle, serve_mux}
use libvirt_rest_api.Api.Mux.{accepts}

-- The arguments of one call of `s.handle`.
pub record Registration (B : Type 0) : Type 0 where
  pub method : Text
  pub path : Text
  pub required : Scope
  pub handler : Handler B

module _ {B : Type 0} where
  abbrev route : Text → Text → Scope → Handler B → Registration B
  route method path required handler = record {
    method = method;
    path = path;
    required = required;
    handler = handler;
  }

  -- `s.handle`, in the order of the calls.
  unfoldable pub handle_all : Server → List (Registration B) → Registry B → Option (Registry B)
  unfolding handle
  handle_all s [] registry = some registry
  handle_all s (r ∷ rest) registry =
      elim (handle r.method r.path (require_scope s r.required r.handler) registry) [
        | none ↦ none
        | some longer ↦ handle_all s rest longer
      ]

  abbrev pub query_routes : Service → List (Registration B)
  query_routes service =
      route (text "GET") (text "/healthz") scope_public (health service)
      ∷ route (text "GET") (text "/readyz") scope_public (ready_handler service)
      ∷ route (text "GET") (text "/api/v1/host") scope_read (host_handler service)
      ∷ route (text "GET") (text "/api/v1/host/stats") scope_read (host_stats_handler service)
      ∷ route (text "GET") (text "/api/v1/vms") scope_read (list_vms service)
      ∷ route (text "GET") (text "/api/v1/events") scope_read (events service)
      ∷ route (text "GET") (text "/api/v1/vms/{identifier}") scope_read (vm service)
      ∷ route (text "GET") (text "/api/v1/vms/{identifier}/stats") scope_read (vm_stats service)
      ∷ route (text "GET") (text "/api/v1/vms/{identifier}/interfaces") scope_read
          (vm_interfaces service)
      ∷ route (text "GET") (text "/api/v1/vms/{identifier}/autostart") scope_read
          (vm_autostart service)
      ∷ []

  abbrev pub later_routes : Service → Json B → List (Registration B)
  later_routes service json =
      route (text "PATCH") (text "/api/v1/vms/{identifier}/autostart") scope_admin
        (set_vm_autostart service json)
      ∷ route (text "GET") (text "/api/v1/vms/{identifier}/snapshots") scope_read
          (list_vm_snapshots service)
      ∷ route (text "POST") (text "/api/v1/vms/{identifier}/snapshots") scope_admin
          (create_vm_snapshot service json)
      ∷ route (text "POST") (text "/api/v1/vms/{identifier}/snapshots/{snapshot}/actions/revert")
          scope_admin (revert_vm_snapshot service json)
      ∷ route (text "DELETE") (text "/api/v1/vms/{identifier}/snapshots/{snapshot}") scope_admin
          (delete_vm_snapshot service)
      ∷ route (text "GET") (text "/api/v1/vms/{identifier}/xml") scope_read (vm_xml service)
      ∷ route (text "GET") (text "/api/v1/vms/{identifier}/viewer") scope_read (vm_viewer service)
      ∷ route (text "GET") (text "/api/v1/vms/{identifier}/screenshot") scope_read
          (vm_screenshot service)
      ∷ []

  abbrev pub action_routes : Service → Json B → List (Registration B)
  action_routes service json =
      route (text "POST") (text "/api/v1/vms/{identifier}/actions/start") scope_control
        (vm_start service)
      ∷ route (text "POST") (text "/api/v1/vms/{identifier}/actions/shutdown") scope_control
          (vm_shutdown service json)
      ∷ route (text "POST") (text "/api/v1/vms/{identifier}/actions/reboot") scope_control
          (vm_reboot service json)
      ∷ route (text "POST") (text "/api/v1/vms/{identifier}/actions/pause") scope_control
          (vm_pause service)
      ∷ route (text "POST") (text "/api/v1/vms/{identifier}/actions/resume") scope_control
          (vm_resume service)
      ∷ route (text "POST") (text "/api/v1/vms/{identifier}/actions/reset") scope_admin
          (vm_reset service)
      ∷ route (text "POST") (text "/api/v1/vms/{identifier}/actions/stop") scope_admin
          (vm_stop service)
      ∷ []

  unfoldable pub routes : Service → Json B → List (Registration B)
  routes service json =
      query_routes service ++ (later_routes service json ++ action_routes service json)

  abbrev pub wrapped : (limit : ℕ → B → B) → Server → Registry B → Handler B
  wrapped limit s registry =
      recover_panic (access_log (security_headers limit (cors s (serve_mux registry))))

  -- The wrappers, and the pattern "/" that the mux is given last.
  abbrev pub with_fallback : (limit : ℕ → B → B) → Server → Option (Registry B) → Option (Handler B)
  with_fallback limit s none = none
  with_fallback limit s (some registry) =
      if accepts (paths_of registry) (text "/") then some (wrapped limit s registry) else none

  -- `New`.
  unfoldable pub new_server : Service → Json B → (limit : ℕ → B → B) → Server → Option (Handler B)
  unfolding handle_all routes
  new_server service json limit s = with_fallback limit s (handle_all s (routes service json) [])

  -- `New` registers its whole table without a panic, for every service and every configuration.
  pub new_server-total :
      (service : Service) (json : Json B) (limit : ℕ → B → B) (s : Server)
      → (h : Handler B) × (new_server service json limit s ≡ some h)
  unfolding new_server text_eq text accepts
  new_server-total service json limit s = (_, refl)
