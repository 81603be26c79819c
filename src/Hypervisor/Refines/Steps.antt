-- ===== src/Hypervisor/Refines/Steps.antt =====
-- internal/hypervisor/libvirt.go: the actions take the steps of the specification.
use libvirt_rest_api.Base.{ℕ, ◌≡◌, refl, ap, ◌∙◌, true, List, [], ◌∷◌, ◌++◌, Text, text}
use libvirt_rest_api.Errors.{Result, ok}
use libvirt_rest_api.Service.{ActionResult}
use libvirt_rest_api.Hypervisor.{
  Op, Binding, L, ◌>>=◌, by_name, get_name, get_uuid_string, is_active, get_state, lock, unlock,
  free,
}
use libvirt_rest_api.Hypervisor.Lookup.{lookup_domain, domain_identity}
use libvirt_rest_api.Hypervisor.Power.{
  with_lock, with_domain, freed, identified, locked, start, stop, simple_action, pause_action,
  resume_action, reset_action,
}
use mathlib.Core.Path.{ap₂}
use libvirt_rest_api.Hypervisor.Refines.{
  Power, running, paused, shutoff, active_in, code_of, looks_up, asks_name, asks_uuid,
  asks_activity, asks_state, locks, unlocks, frees, Faithful, PowerAction, starting, stopping,
  pausing, resuming, resetting, Verdict, told, verdict, step, step_verdict, run_steps, act,
  run_actions,
}

module _ (binding : Binding) (state : List Op → Power) (identifier : Text)
    (f : Faithful binding state identifier) where
  open f use {domain, name, uuid}

  -- The operations before the body of an action.
  abbrev entered : List Op → List Op
  entered old =
      (((old ++ by_name identifier ∷ []) ++ get_name domain ∷ []) ++ get_uuid_string domain ∷ [])
      ++ lock uuid ∷ []

  with_lock-eq :
      {A : Type 0} (body : Text → Text → ℕ → L (Result A)) (old : List Op)
      → with_lock binding identifier body old ≡ (
        (body name uuid domain (entered old)).0,
        ((body name uuid domain (entered old)).1 ++ unlock uuid ∷ []) ++ free domain ∷ [],
      )
  unfolding with_lock with_domain freed identified locked lookup_domain domain_identity ◌>>=◌
  with_lock-eq body old = rw (
    f.finds old,
    f.named (old ++ by_name identifier ∷ []),
    f.identifies ((old ++ by_name identifier ∷ []) ++ get_name domain ∷ []),
  )

  entered-state : (old : List Op) → state (entered old) ≡ state old
  entered-state old =
      f.quiet _ (lock uuid) (locks uuid)
      ∙ (f.quiet _ (get_uuid_string domain) (asks_uuid domain)
          ∙ (f.quiet _ (get_name domain) (asks_name domain)
              ∙ f.quiet old (by_name identifier) (looks_up identifier)))

  -- What the specification says of an action from a state, of the answer and of the operations.
  abbrev Meets : PowerAction → Power → Result ActionResult × List Op → Type 0
  Meets action before (result, ops) =
      let (shown, next) = step_verdict name uuid before (step action before) in
      (verdict result ≡ shown) × (state ops ≡ next)

  finished : (ops : List Op) → state ((ops ++ unlock uuid ∷ []) ++ free domain ∷ []) ≡ state ops
  finished ops = f.quiet _ (free domain) (frees domain) ∙ f.quiet ops (unlock uuid) (unlocks uuid)

  module _ (old : List Op) (before : Power) (h : state old ≡ before) where
    at_entry : state (entered old) ≡ before
    at_entry = entered-state old ∙ h

    looked : state (entered old ++ is_active domain ∷ []) ≡ before
    looked = f.quiet _ (is_active domain) (asks_activity domain) ∙ at_entry

    looked_again : state ((entered old ++ is_active domain ∷ []) ++ get_state domain ∷ []) ≡ before
    looked_again = f.quiet _ (get_state domain) (asks_state domain) ∙ looked

    -- What the action sees of the activity, and of the state.
    sees : binding (entered old) (is_active domain) ≡ ok (active_in before)
    sees = f.activity (entered old) ∙ ap (λ p. ok (active_in p)) at_entry

    sees_state :
        binding (entered old ++ is_active domain ∷ []) (get_state domain) ≡ ok (code_of before)
    sees_state = f.reports _ ∙ ap (λ p. ok (code_of p)) looked

  start-Meets :
      (old : List Op) (before : Power)
      → state old ≡ before
      → Meets starting before (start binding identifier old)
  unfolding start ◌>>=◌
  start-Meets old running h =
      rw (with_lock-eq, sees old running h) (refl, finished _ ∙ looked old running h)
  start-Meets old paused h =
      rw (with_lock-eq, sees old paused h) (refl, finished _ ∙ looked old paused h)
  start-Meets old shutoff h =
      let now = looked old shutoff h in
      rw (with_lock-eq, sees old shutoff h, f.creates _ now) (refl, finished _ ∙ f.created _ now)

  stop_active-Meets :
      (old : List Op) (before : Power)
      → active_in before ≡ true
      → state old ≡ before
      → (verdict (stop binding identifier old).0 ≡ told name uuid (text "shutoff"))
        × (state (stop binding identifier old).1 ≡ shutoff)
  unfolding stop ◌>>=◌
  stop_active-Meets old before on h =
      let now = ap active_in (looked old before h) ∙ on in
      rw (with_lock-eq, sees old before h, on, f.destroys _ now)
        (refl, finished _ ∙ f.destroyed _ now)

  stop-Meets :
      (old : List Op) (before : Power)
      → state old ≡ before
      → Meets stopping before (stop binding identifier old)
  unfolding stop ◌>>=◌
  stop-Meets old running h = stop_active-Meets old running refl h
  stop-Meets old paused h = stop_active-Meets old paused refl h
  stop-Meets old shutoff h =
      rw (with_lock-eq, sees old shutoff h) (refl, finished _ ∙ looked old shutoff h)

  pause-Meets :
      (old : List Op) (before : Power)
      → state old ≡ before
      → Meets pausing before (pause_action binding identifier old)
  unfolding simple_action ◌>>=◌
  pause-Meets old running h =
      let now = looked_again old running h in
      rw (with_lock-eq, sees old running h, sees_state old running h, f.suspends _ now)
        (refl, finished _ ∙ f.suspended _ now)
  pause-Meets old paused h =
      rw (with_lock-eq, sees old paused h, sees_state old paused h)
        (refl, finished _ ∙ looked_again old paused h)
  pause-Meets old shutoff h =
      rw (with_lock-eq, sees old shutoff h) (refl, finished _ ∙ looked old shutoff h)

  resume-Meets :
      (old : List Op) (before : Power)
      → state old ≡ before
      → Meets resuming before (resume_action binding identifier old)
  unfolding simple_action ◌>>=◌
  resume-Meets old running h =
      rw (with_lock-eq, sees old running h, sees_state old running h)
        (refl, finished _ ∙ looked_again old running h)
  resume-Meets old paused h =
      let now = looked_again old paused h in
      rw (with_lock-eq, sees old paused h, sees_state old paused h, f.resumes _ now)
        (refl, finished _ ∙ f.resumed _ now)
  resume-Meets old shutoff h =
      rw (with_lock-eq, sees old shutoff h) (refl, finished _ ∙ looked old shutoff h)

  reset_active-Meets :
      (old : List Op) (before : Power)
      → active_in before ≡ true
      → state old ≡ before
      → (verdict (reset_action binding identifier old).0 ≡ told name uuid (text "running"))
        × (state (reset_action binding identifier old).1 ≡ before)
  unfolding simple_action ◌>>=◌
  reset_active-Meets old before on h =
      let now = ap active_in (looked_again old before h) ∙ on in
      rw (with_lock-eq, sees old before h, on, sees_state old before h, f.resets _ now)
        (refl, finished _ ∙ (f.reset_kept _ now ∙ looked_again old before h))

  reset-Meets :
      (old : List Op) (before : Power)
      → state old ≡ before
      → Meets resetting before (reset_action binding identifier old)
  unfolding simple_action ◌>>=◌
  reset-Meets old running h = reset_active-Meets old running refl h
  reset-Meets old paused h = reset_active-Meets old paused refl h
  reset-Meets old shutoff h =
      rw (with_lock-eq, sees old shutoff h) (refl, finished _ ∙ looked old shutoff h)

  actions-Meets :
      (action : PowerAction) (old : List Op)
      → Meets action (state old) (act binding action identifier old)
  actions-Meets starting old = start-Meets old (state old) refl
  actions-Meets stopping old = stop-Meets old (state old) refl
  actions-Meets pausing old = pause-Meets old (state old) refl
  actions-Meets resuming old = resume-Meets old (state old) refl
  actions-Meets resetting old = reset-Meets old (state old) refl

  -- Over a binding that answers as a machine with a state, the actions are a refinement of the
  -- specification: whatever was asked before, any sequence of them tells the clients what the steps
  -- of the specification tell, and leaves the machine in the state that those lead to.
  pub run_actions-run_steps :
      (actions : List PowerAction) (old : List Op)
      → ((run_actions binding actions identifier old).0
          ≡ (run_steps name uuid actions (state old)).0)
        × (state (run_actions binding actions identifier old).1
            ≡ (run_steps name uuid actions (state old)).1)
  run_actions-run_steps [] old = (refl, refl)
  run_actions-run_steps (action ∷ actions) old =
      let (shown, next) = actions-Meets action old in
      let (rest, last) = run_actions-run_steps actions (act binding action identifier old).1 in
      (
        ap₂ (λ (v : Verdict) (vs : List Verdict). v ∷ vs) shown
            (rest ∙ ap (λ p. (run_steps name uuid actions p).0) next),
        last ∙ ap (λ p. (run_steps name uuid actions p).1) next,
      )
