-- ===== src/Hypervisor/Actions.antt =====
-- internal/hypervisor/libvirt.go: all actions on a domain, and what they ask of the binding.
use libvirt_rest_api.Base.{ℕ, Bool, List, Text}
use libvirt_rest_api.Hypervisor.{Op, Binding, L}
use libvirt_rest_api.Hypervisor.Power.{
  start, stop, shutdown, reboot_action, pause_action, resume_action, reset_action,
  set_autostart_action,
}
use libvirt_rest_api.Hypervisor.Within.{Within}
use libvirt_rest_api.Hypervisor.Bracket.{Acting}

-- The methods that change a domain, with their arguments.
pub data Action : Type 0 where
  to_start to_stop to_pause to_resume to_reset : (identifier : Text) → Action
  to_shutdown to_reboot : (identifier mode : Text) → Action
  to_set_autostart : (identifier : Text) → Bool → Action

-- The operations so far, after an action.
abbrev pub operations : Binding → Action → List Op → List Op
operations binding (to_start identifier) old = (start binding identifier old).1
operations binding (to_stop identifier) old = (stop binding identifier old).1
operations binding (to_pause identifier) old = (pause_action binding identifier old).1
operations binding (to_resume identifier) old = (resume_action binding identifier old).1
operations binding (to_reset identifier) old = (reset_action binding identifier old).1
operations binding (to_shutdown identifier mode) old = (shutdown binding identifier mode old).1
operations binding (to_reboot identifier mode) old = (reboot_action binding identifier mode old).1
operations binding (to_set_autostart identifier enabled) old =
    (set_autostart_action binding identifier enabled old).1

module _ (binding : Binding) where
  abbrev Acts : {A : Type 0} → ℕ → L A → Type 0
  Acts domain m = Within (Acting domain) m
