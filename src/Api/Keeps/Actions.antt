-- ===== src/Api/Keeps/Actions.antt =====
-- The handlers of internal/api/server.go for power actions and the event stream keep an
-- invariant that allows their valid calls.
use libvirt_rest_api.Base.{
  ◌≡◌, refl, inl, inr, true, not, List, [], ◌∷◌, Text, text, text_eq, Bool-cases, Option-cases,
}
use libvirt_rest_api.Errors.{Result}
use libvirt_rest_api.Service.{
  Service, Call, subscribe, cancel, start, pause, resume, reset, stop, shutdown, reboot, Signal,
  event_received, stream_closed, heartbeat, request_done, power_mode_default, ActionResult,
}
use libvirt_rest_api.Api.Http.{Request, M, State, ask, ◌>>=◌, path_value}
use libvirt_rest_api.Api.Auth.{scope_read, scope_control, scope_admin}
use libvirt_rest_api.Api.Validate.{one_of}
use libvirt_rest_api.Api.Decode.{
  Json, decode_power_mode, check_mode, mode_or_default, power_modes, is_zero,
}
use libvirt_rest_api.Api.Handlers.Power.{
  vm_start, vm_stop, vm_pause, vm_resume, vm_reset, vm_shutdown, vm_reboot, ask_mode,
}
use libvirt_rest_api.Api.Handlers.Stream.{events, event_loop}
use libvirt_rest_api.Api.Keeps.{
  Stable, Keeps, Keeps-bind, Keeps-if, Keeps-pure, Keeps-pure-bind, Keeps-then-bind,
  set_header-Keeps, write_header-Keeps, write-Keeps, clear_deadline-Keeps, ask-Keeps,
  write_json-Keeps, write_error-Keeps,
}
use libvirt_rest_api.Api.Keeps.Handlers.{
  Allows, ask_respond-Keeps, content_type-free, cache_control-free, connection-free,
}

default_mode-known : one_of power_modes power_mode_default ≡ true
unfolding text_eq text
default_mode-known = refl

module _ {I P : State → Type 0} {C : Call → Type 0} {Free : Text → Type 0}
    (stable : Stable I P C Free) {B : Type 0} (service : Service) (r : Request B) where
  abbrev name : Text
  name = path_value (text "identifier") r.path_values

  pub vm_start-Keeps : Allows stable scope_control → Keeps I P (vm_start service r)
  vm_start-Keeps allows =
      ask_respond-Keeps stable (ask-Keeps stable service (start name) (allows (start name) tt refl))
        (λ _. write_json-Keeps stable _ _)

  pub vm_pause-Keeps : Allows stable scope_control → Keeps I P (vm_pause service r)
  vm_pause-Keeps allows =
      ask_respond-Keeps stable (ask-Keeps stable service (pause name) (allows (pause name) tt refl))
        (λ _. write_json-Keeps stable _ _)

  pub vm_resume-Keeps : Allows stable scope_control → Keeps I P (vm_resume service r)
  vm_resume-Keeps allows =
      ask_respond-Keeps stable
        (ask-Keeps stable service (resume name) (allows (resume name) tt refl))
        (λ _. write_json-Keeps stable _ _)

  pub vm_reset-Keeps : Allows stable scope_admin → Keeps I P (vm_reset service r)
  vm_reset-Keeps allows =
      ask_respond-Keeps stable (ask-Keeps stable service (reset name) (allows (reset name) tt refl))
        (λ _. write_json-Keeps stable _ _)

  pub vm_stop-Keeps : Allows stable scope_admin → Keeps I P (vm_stop service r)
  vm_stop-Keeps allows =
      ask_respond-Keeps stable (ask-Keeps stable service (stop name) (allows (stop name) tt refl))
        (λ _. write_json-Keeps stable _ _)

  -- `decode_power_mode` keeps the invariant, and the mode that it returns is one of the three.
  ask_mode-Keeps :
      (action : Text → Text → M (Result ActionResult))
      → ((mode : Text) → one_of power_modes mode ≡ true → Keeps I P (action name mode))
      → (mode : Text) → Keeps I P (check_mode mode >>= ask_mode service action r)
  unfolding check_mode
  ask_mode-Keeps action allows mode = elim (Bool-cases (one_of power_modes mode)) [
    | inl known ↦
        rw (known, check_mode)
          (Keeps-pure-bind _
            (ask_respond-Keeps stable (allows mode known) (λ _. write_json-Keeps stable _ _)))
    | inr unknown ↦
        rw (unknown, check_mode)
          (Keeps-then-bind _ (write_error-Keeps stable _ _ _) (Keeps-pure tt))
  ]

  decoded_mode-Keeps :
      (json : Json B) (action : Text → Text → M (Result ActionResult))
      → ((mode : Text) → one_of power_modes mode ≡ true → Keeps I P (action name mode))
      → Keeps I P (decode_power_mode json r >>= ask_mode service action r)
  unfolding decode_power_mode
  decoded_mode-Keeps json action allows = elim (Bool-cases (is_zero r.content_length)) [
    | inl empty ↦
        rw (empty, decode_power_mode)
          (Keeps-pure-bind _ (
            ask_respond-Keeps stable (allows power_mode_default default_mode-known)
              (λ _. write_json-Keeps stable _ _)))
    | inr filled ↦ elim (Option-cases (json.decode_mode r.body)) [
      | inl e ↦
          rw (filled, e, decode_power_mode)
            (Keeps-then-bind _ (write_error-Keeps stable _ _ _) (Keeps-pure tt))
      | inr ((mode, rest), e) ↦
          rw (filled, e, decode_power_mode) (ask_mode-Keeps action allows (mode_or_default mode))
    ]
  ]

  pub vm_shutdown-Keeps :
      (json : Json B) → Allows stable scope_control → Keeps I P (vm_shutdown service json r)
  vm_shutdown-Keeps json allows =
      decoded_mode-Keeps json (λ vm_name mode. ask service (shutdown vm_name mode))
        (λ mode known.
          ask-Keeps stable service (shutdown name mode) (allows (shutdown name mode) known refl))

  pub vm_reboot-Keeps :
      (json : Json B) → Allows stable scope_control → Keeps I P (vm_reboot service json r)
  vm_reboot-Keeps json allows =
      decoded_mode-Keeps json (λ vm_name mode. ask service (reboot vm_name mode))
        (λ mode known.
          ask-Keeps stable service (reboot name mode) (allows (reboot name mode) known refl))

  event_loop-Keeps : (signals : List Signal) → Keeps I P (event_loop signals)
  unfolding event_loop
  event_loop-Keeps [] = Keeps-pure tt
  event_loop-Keeps (stream_closed ∷ rest) = Keeps-pure tt
  event_loop-Keeps (request_done ∷ rest) = Keeps-pure tt
  event_loop-Keeps (heartbeat ∷ rest) =
      Keeps-bind (write-Keeps stable _)
        (λ success. Keeps-if success (event_loop-Keeps rest) (Keeps-pure tt))
  event_loop-Keeps (event_received event ∷ rest) =
      Keeps-bind (write-Keeps stable _)
        (λ success. Keeps-if success (event_loop-Keeps rest) (Keeps-pure tt))

  pub events-Keeps : Allows stable scope_read → Keeps I P (events service r)
  unfolding events
  events-Keeps allows =
      let cursor : Text = r.header (text "Last-Event-ID") in
      Keeps-bind (record { kept = λ st h. h })
        (λ flushes. Keeps-if (not flushes) (write_error-Keeps stable _ _ _) (
          Keeps-bind (clear_deadline-Keeps stable) (λ _.
            Keeps-bind (set_header-Keeps stable _ _ content_type-free) (λ _.
              Keeps-bind (set_header-Keeps stable _ _ cache_control-free) (λ _.
                Keeps-bind (set_header-Keeps stable _ _ connection-free) (λ _.
                  Keeps-bind (write_header-Keeps stable _) (λ _.
                    Keeps-bind (write-Keeps stable _) (λ _.
                      Keeps-bind
                        (ask-Keeps stable service (subscribe cursor)
                          (allows (subscribe cursor) tt refl))
                        (λ signals.
                          Keeps-bind (event_loop-Keeps signals)
                            (λ _. ask-Keeps stable service cancel (allows cancel tt refl)))))))))))
