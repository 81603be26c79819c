-- ===== src/Hypervisor/Scoped/Power.antt =====
-- internal/hypervisor/libvirt.go: the actions ask for no operation beyond their scope.
use libvirt_rest_api.Base.{arith, ℕ, ◌≤◌, Bool, true, false, not, Text, ℤ}
use libvirt_rest_api.Errors.{Result}
use libvirt_rest_api.Hypervisor.{
  Binding, L, Flags, create, suspend, resume, reset, destroy, shutdown_flags, reboot, set_autostart,
  get_state, lock, unlock,
}
use libvirt_rest_api.Hypervisor.Within.{
  Within, Within-pure, Within-request, Within-bind, Within-if, Within-or_return,
}
use libvirt_rest_api.Hypervisor.Power.{
  with_lock, locked, identified, start, stop, request_graceful_shutdown, shutdown, reboot_action,
  simple_action, pause_action, resume_action, reset_action, set_autostart_action, flags_of,
  is_paused,
}
use libvirt_rest_api.Hypervisor.Scoped.{
  At, domain_identity-Scoped, with_domain-Scoped, check_active-Scoped, check_state-Scoped,
  or_race-Scoped, on_error-Scoped,
}
use libvirt_rest_api.Hypervisor.Scoped.Reads.{request-Scoped}

module _ (binding : Binding) (n : ℕ) (control : 2 ≤ n) where
  reading : 1 ≤ n
  reading = omega arith

  with_lock-Scoped :
      {A : Type 0} (identifier : Text) {body : Text → Text → ℕ → L (Result A)}
      → ((name uuid : Text) (domain : ℕ) → Within (At n) (body name uuid domain))
      → Within (At n) (with_lock binding identifier body)
  unfolding with_lock identified locked
  with_lock-Scoped identifier h = with_domain-Scoped binding n reading identifier (λ domain.
      Within-bind (domain_identity-Scoped binding n reading domain) (λ identity.
        Within-or_return _ identity (λ (name, uuid).
          request-Scoped binding n (lock uuid) control (λ _.
            Within-bind (h name uuid domain)
              (λ result. request-Scoped binding n (unlock uuid) control (λ _. Within-pure _))))))

  pub start-Scoped : (identifier : Text) → Within (At n) (start binding identifier)
  unfolding start
  start-Scoped identifier = with_lock-Scoped identifier (λ name uuid domain.
      check_active-Scoped binding n reading name domain (λ active.
        Within-if active (Within-pure _) (
          request-Scoped binding n (create domain) control (λ created.
            on_error-Scoped created
              (λ e. or_race-Scoped binding n reading domain true _ (Within-pure _))
              (Within-pure _)))))

  graceful-Scoped :
      (name : Text) (domain : ℕ) (flags : Flags)
      → Within (At n) (request_graceful_shutdown binding name domain flags)
  unfolding request_graceful_shutdown
  graceful-Scoped name domain flags = check_active-Scoped binding n reading name domain (λ active.
      Within-if (not active) (Within-pure _) (
        check_state-Scoped binding n reading name domain (λ state.
          request-Scoped binding n (shutdown_flags domain flags) control (λ requested.
            on_error-Scoped requested
              (λ e. or_race-Scoped binding n reading domain false _ (Within-pure _))
              (request-Scoped binding n (get_state domain) reading (λ current. Within-pure _))))))

  pub shutdown-Scoped : (identifier mode : Text) → Within (At n) (shutdown binding identifier mode)
  unfolding shutdown
  shutdown-Scoped identifier mode = with_lock-Scoped identifier (λ name uuid domain.
      Within-bind (graceful-Scoped name domain (flags_of mode))
        (λ outcome. Within-or_return _ outcome (λ state. Within-pure _)))

  pub reboot-Scoped :
      (identifier mode : Text) → Within (At n) (reboot_action binding identifier mode)
  unfolding reboot_action
  reboot-Scoped identifier mode = with_lock-Scoped identifier (λ name uuid domain.
      check_active-Scoped binding n reading name domain (λ active.
        Within-if (not active) (Within-pure _) (
          check_state-Scoped binding n reading name domain (λ state.
            request-Scoped binding n (reboot domain (flags_of mode)) control
              (λ requested. on_error-Scoped requested (λ e. Within-pure _) (Within-pure _))))))

  simple_action-Scoped :
      (identifier state action : Text) (operation : ℕ → ℤ → L (Result (Unit {0})))
      → ((domain : ℕ) (current : ℤ) → Within (At n) (operation domain current))
      → Within (At n) (simple_action binding identifier state action operation)
  unfolding simple_action
  simple_action-Scoped identifier state action operation h =
      with_lock-Scoped identifier (λ name uuid domain.
        check_active-Scoped binding n reading name domain (λ active.
          Within-if (not active) (Within-pure _) (
            check_state-Scoped binding n reading name domain (λ current.
              Within-bind (h domain current)
                (λ outcome. on_error-Scoped outcome (λ e. Within-pure _) (Within-pure _))))))

  pub pause-Scoped : (identifier : Text) → Within (At n) (pause_action binding identifier)
  pause-Scoped identifier = simple_action-Scoped identifier _ _ _ (λ domain state.
      Within-if (is_paused state) (Within-pure _) (Within-request binding (suspend domain) control))

  pub resume-Scoped : (identifier : Text) → Within (At n) (resume_action binding identifier)
  resume-Scoped identifier = simple_action-Scoped identifier _ _ _ (λ domain state.
      Within-if (not (is_paused state)) (Within-pure _)
        (Within-request binding (resume domain) control))

  module _ (admin : 3 ≤ n) where
    pub reset-Scoped : (identifier : Text) → Within (At n) (reset_action binding identifier)
    reset-Scoped identifier =
        simple_action-Scoped identifier _ _ _
          (λ domain state. Within-request binding (reset domain) admin)

    pub stop-Scoped : (identifier : Text) → Within (At n) (stop binding identifier)
    unfolding stop
    stop-Scoped identifier = with_lock-Scoped identifier (λ name uuid domain.
        check_active-Scoped binding n reading name domain (λ active.
          Within-if (not active) (Within-pure _) (
            request-Scoped binding n (destroy domain) admin (λ destroyed.
              on_error-Scoped destroyed
                (λ e. or_race-Scoped binding n reading domain false _ (Within-pure _))
                (Within-pure _)))))

    pub set_autostart-Scoped :
        (identifier : Text) (enabled : Bool)
        → Within (At n) (set_autostart_action binding identifier enabled)
    unfolding set_autostart_action
    set_autostart-Scoped identifier enabled = with_lock-Scoped identifier (λ name uuid domain.
        request-Scoped binding n (set_autostart domain enabled) admin
          (λ outcome. on_error-Scoped outcome (λ e. Within-pure _) (Within-pure _)))
