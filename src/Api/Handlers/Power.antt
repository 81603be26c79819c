-- ===== src/Api/Handlers/Power.antt =====
-- internal/api/server.go: the handlers of power actions.
use libvirt_rest_api.Base.{ℕ, Option, none, some, Text}
use libvirt_rest_api.Errors.{Result}
use libvirt_rest_api.Service.{
  Service, start, pause, resume, reset, stop, shutdown, reboot, ActionResult,
}
use libvirt_rest_api.Api.Http.{Request, Handler, M, ◌>>=◌, pure, action_object, ask, write_json}
use libvirt_rest_api.Api.Decode.{Json, decode_power_mode}
use libvirt_rest_api.Api.Handlers.{respond, identifier}

module _ {B : Type 0} (service : Service) where
  abbrev pub run_action : ℕ → (action : Text → M (Result ActionResult)) → Handler B
  run_action status action r =
      action (identifier service r) >>= respond (λ result. write_json status (action_object result))

  abbrev pub vm_start : Handler B
  vm_start = run_action 200 (λ name. ask service (start name))

  abbrev pub vm_stop : Handler B
  vm_stop = run_action 200 (λ name. ask service (stop name))

  abbrev pub vm_pause : Handler B
  vm_pause = run_action 200 (λ name. ask service (pause name))

  abbrev pub vm_resume : Handler B
  vm_resume = run_action 200 (λ name. ask service (resume name))

  abbrev pub vm_reset : Handler B
  vm_reset = run_action 200 (λ name. ask service (reset name))

  abbrev pub ask_mode :
      (action : Text → Text → M (Result ActionResult)) → Request B → Option Text → M (Unit {0})
  ask_mode action r none = pure tt
  ask_mode action r (some mode) =
      action (identifier service r) mode
      >>= respond (λ result. write_json 202 (action_object result))

  abbrev pub vm_shutdown : Json B → Handler B
  vm_shutdown json r =
      decode_power_mode json r >>= ask_mode (λ name mode. ask service (shutdown name mode)) r

  abbrev pub vm_reboot : Json B → Handler B
  vm_reboot json r =
      decode_power_mode json r >>= ask_mode (λ name mode. ask service (reboot name mode)) r
