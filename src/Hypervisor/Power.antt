-- ===== src/Hypervisor/Power.antt =====
-- internal/hypervisor/libvirt.go: the actions on the power of a domain, and its autostart.
mod Locked
pub use Locked.{
  action_result, domain_conflict, domain_unsupported, check_active, check_state, is_now, or_race,
  on_error, shutdown_error, latest, reboot_error, simple_error, is_paused, autostart_error,
}
unfoldable pub use Locked.{locked, identified, freed, with_domain, with_lock, flags_of}
use libvirt_rest_api.Base.{
  ℕ, Bool, true, false, not, ◌||◌, [], ◌∷◌, Text, text, text_eq, ◌==◌, if◌then◌else◌, ℤ, pos,
  negsuc,
}
use Prim.Native.String.{String}
use libvirt_rest_api.Errors.{
  Error, Result, ok, err, is, is_code, conflict, unsupported, operation_invalid, no_support,
  operation_unsupported, config_unsupported, argument_unsupported, fail, wrap, lit, quoted,
}
use libvirt_rest_api.Service.{
  ActionResult, Autostart, state_name, power_mode_acpi, power_mode_guest_agent,
}
use libvirt_rest_api.Hypervisor.{
  Binding, L, ◌>>=◌, pure, request, or_return, about, Flags, flags_default, flags_acpi,
  flags_guest_agent, is_active, get_state, create, suspend, resume, reset, destroy, shutdown_flags,
  reboot, set_autostart, lock, unlock, free,
}
use libvirt_rest_api.Hypervisor.Lookup.{lookup_domain, domain_identity}

module _ (binding : Binding) where
  unfoldable pub start : Text → L (Result ActionResult)
  start identifier = with_lock binding identifier (λ name uuid domain.
      check_active binding name domain (λ active.
        let running : Error = domain_conflict ": domain " name " is already running" in
        if active
        then pure (err running)
        else (request binding (create domain) >>= λ created.
            on_error created
              (λ e.
                or_race binding domain true running
                  (pure (err (about (text "start domain ") name (text ": ") e))))
              (pure (ok (action_result name uuid (text "running") []))))))

  unfoldable pub stop : Text → L (Result ActionResult)
  stop identifier = with_lock binding identifier (λ name uuid domain.
      check_active binding name domain (λ active.
        let stopped : Error = domain_conflict ": domain " name " is already stopped" in
        if not active
        then pure (err stopped)
        else (request binding (destroy domain) >>= λ destroyed.
            on_error destroyed
              (λ e.
                or_race binding domain false stopped
                  (pure (err (about (text "stop domain ") name (text ": ") e))))
              (pure (ok (action_result name uuid (text "shutoff") []))))))

  unfoldable pub request_graceful_shutdown : Text → ℕ → Flags → L (Result Text)
  request_graceful_shutdown name domain flags = check_active binding name domain (λ active.
      let stopped : Error = domain_conflict ": domain " name " is already stopped" in
      if not active
      then pure (err stopped)
      else check_state binding name domain (λ state.
        request binding (shutdown_flags domain flags) >>= λ requested.
        on_error requested
          (λ e. or_race binding domain false stopped (pure (err (shutdown_error name e))))
          (request binding (get_state domain) >>= λ current.
            pure (ok (state_name (latest state current))))))

  unfoldable pub shutdown : Text → Text → L (Result ActionResult)
  shutdown identifier mode = with_lock binding identifier (λ name uuid domain.
      request_graceful_shutdown name domain (flags_of mode) >>= λ outcome.
      or_return (λ e. e) outcome
        (λ state. pure (ok (action_result name uuid state (text "shutdown-requested")))))

  unfoldable pub reboot_action : Text → Text → L (Result ActionResult)
  reboot_action identifier mode = with_lock binding identifier (λ name uuid domain.
      check_active binding name domain (λ active.
        if not active
        then pure (err (domain_conflict ": domain " name " is stopped"))
        else check_state binding name domain (λ state.
          request binding (reboot domain (flags_of mode)) >>= λ requested.
          on_error requested (λ e. pure (err (reboot_error name e)))
            (pure (ok (action_result name uuid (state_name state) (text "reboot-requested")))))))

  unfoldable pub simple_action :
      Text → Text → Text → (ℕ → ℤ → L (Result (Unit {0}))) → L (Result ActionResult)
  simple_action identifier result_state action operation =
      with_lock binding identifier (λ name uuid domain. check_active binding name domain (λ active.
        if not active
        then pure (err (domain_conflict ": domain " name " is stopped"))
        else check_state binding name domain (λ state. operation domain state >>= λ outcome.
            on_error outcome (λ e. pure (err (simple_error name action e)))
              (pure (ok (action_result name uuid result_state []))))))

  abbrev pub pause_operation : ℕ → ℤ → L (Result (Unit {0}))
  pause_operation domain state =
      if is_paused state
      then pure (err (fail conflict (lit (text ": domain is already paused") ∷ [])))
      else request binding (suspend domain)

  abbrev pub resume_operation : ℕ → ℤ → L (Result (Unit {0}))
  resume_operation domain state =
      if not (is_paused state)
      then pure (err (fail conflict (lit (text ": domain is not paused") ∷ [])))
      else request binding (resume domain)

  abbrev pub pause_action : Text → L (Result ActionResult)
  pause_action identifier = simple_action identifier (text "paused") (text "pause") pause_operation

  abbrev pub resume_action : Text → L (Result ActionResult)
  resume_action identifier =
      simple_action identifier (text "running") (text "resume") resume_operation

  abbrev pub reset_action : Text → L (Result ActionResult)
  reset_action identifier =
      simple_action identifier (text "running") (text "reset")
        (λ domain _. request binding (reset domain))

  unfoldable pub set_autostart_action : Text → Bool → L (Result Autostart)
  set_autostart_action identifier enabled = with_lock binding identifier (λ name uuid domain.
      request binding (set_autostart domain enabled) >>= λ outcome.
      on_error outcome (λ e. pure (err (autostart_error name e)))
        (pure (ok (record { name = name; uuid = uuid; enabled = enabled }))))
