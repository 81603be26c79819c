-- ===== src/Hypervisor/Confirmed.antt =====
-- internal/hypervisor/libvirt.go: what the binding has confirmed when an action reports success.
use libvirt_rest_api.Base.{
  ℕ, ◌≡◌, arith, sym, subst, ap, ◌∙◌, Bool, true, false, not, List, [], ◌∷◌, ◌++◌, Text,
  if◌then◌else◌, ℤ,
}
use libvirt_rest_api.Errors.{Error, Result, ok, err}
use libvirt_rest_api.Service.{ActionResult}
use libvirt_rest_api.Hypervisor.{
  Op, Binding, L, ◌>>=◌, pure, request, is_active, get_state, create, suspend, resume, reset,
  destroy, shutdown_flags, reboot, set_autostart,
}
use libvirt_rest_api.Hypervisor.Power.{
  start, stop, shutdown, reboot_action, pause_action, resume_action, reset_action,
  set_autostart_action, simple_action, request_graceful_shutdown, flags_of, is_paused,
}
use libvirt_rest_api.Hypervisor.Actions.{
  Action, to_start, to_stop, to_pause, to_resume, to_reset, to_shutdown, to_reboot,
  to_set_autostart,
}
use libvirt_rest_api.Hypervisor.Success.{
  IsOk, or_return-IsOk, refused-IsOk, on_error-IsOk, or_race_fails, with_lock-IsOk,
  check_active-IsOk, check_state-IsOk,
}

module _ (binding : Binding) where
  -- At some time the binding answered so.
  abbrev pub Saw : ℕ → Bool → Type 0
  Saw domain active = (history : List Op) × (binding history (is_active domain) ≡ ok active)

  -- What a success of an action rests on: the activity that was seen, and the operation that was
  -- asked for and succeeded.
  abbrev pub Confirmed : Action → ℕ → Type 0
  Confirmed (to_start _) d =
      Saw d false × ((history : List Op) × (binding history (create d) ≡ ok tt))
  Confirmed (to_stop _) d =
      Saw d true × ((history : List Op) × (binding history (destroy d) ≡ ok tt))
  Confirmed (to_pause _) d =
      Saw d true × ((history : List Op) × (binding history (suspend d) ≡ ok tt))
  Confirmed (to_resume _) d =
      Saw d true × ((history : List Op) × (binding history (resume d) ≡ ok tt))
  Confirmed (to_reset _) d =
      Saw d true × ((history : List Op) × (binding history (reset d) ≡ ok tt))
  Confirmed (to_shutdown _ mode) d =
      Saw d true
      × ((history : List Op) × (binding history (shutdown_flags d (flags_of mode)) ≡ ok tt))
  Confirmed (to_reboot _ mode) d =
      Saw d true × ((history : List Op) × (binding history (reboot d (flags_of mode)) ≡ ok tt))
  Confirmed (to_set_autostart _ enabled) d =
      (history : List Op) × (binding history (set_autostart d enabled) ≡ ok tt)

  -- The action reports success.
  abbrev pub Succeeds : Action → List Op → Type 0
  Succeeds (to_start identifier) old = IsOk (start binding identifier old).0
  Succeeds (to_stop identifier) old = IsOk (stop binding identifier old).0
  Succeeds (to_pause identifier) old = IsOk (pause_action binding identifier old).0
  Succeeds (to_resume identifier) old = IsOk (resume_action binding identifier old).0
  Succeeds (to_reset identifier) old = IsOk (reset_action binding identifier old).0
  Succeeds (to_shutdown identifier mode) old = IsOk (shutdown binding identifier mode old).0
  Succeeds (to_reboot identifier mode) old = IsOk (reboot_action binding identifier mode old).0
  Succeeds (to_set_autostart identifier enabled) old =
      IsOk (set_autostart_action binding identifier enabled old).0

  start-Confirmed :
      (identifier : Text) (old : List Op)
      → IsOk (start binding identifier old).0
      → (domain : ℕ) × Confirmed (to_start identifier) domain
  unfolding start ◌>>=◌
  start-Confirmed identifier old h =
      let (name, uuid, domain, ops, h1) = with_lock-IsOk binding identifier _ old h in
      let (active, seen, h2) = check_active-IsOk binding name domain _ ops h1 in
      let (inactive, h3) = refused-IsOk active _ _ _ h2 in
      let (created, _) =
        on_error-IsOk (binding (ops ++ is_active domain ∷ []) (create domain)) _ _ _
          (λ e. or_race_fails binding ActionResult domain true _ _ _) h3 in
      (domain, ((ops, seen ∙ ap ok inactive), (ops ++ is_active domain ∷ [], created)))

  was_active : (active : Bool) → not active ≡ false → active ≡ true
  was_active active h = ground arith

  stop-Confirmed :
      (identifier : Text) (old : List Op)
      → IsOk (stop binding identifier old).0
      → (domain : ℕ) × Confirmed (to_stop identifier) domain
  unfolding stop ◌>>=◌
  stop-Confirmed identifier old h =
      let (name, uuid, domain, ops, h1) = with_lock-IsOk binding identifier _ old h in
      let (active, seen, h2) = check_active-IsOk binding name domain _ ops h1 in
      let (running, h3) = refused-IsOk (not active) _ _ _ h2 in
      let (destroyed, _) =
        on_error-IsOk (binding (ops ++ is_active domain ∷ []) (destroy domain)) _ _ _
          (λ e. or_race_fails binding ActionResult domain false _ _ _) h3 in
      (
        domain,
        (
          (ops, seen ∙ ap ok (was_active active running)),
          (ops ++ is_active domain ∷ [], destroyed),
        ),
      )

  -- A simple action that succeeds saw an active domain, and its operation succeeded.
  simple_action-IsOk :
      (identifier result_state action : Text) (operation : ℕ → ℤ → L (Result (Unit {0})))
      (old : List Op)
      → IsOk (simple_action binding identifier result_state action operation old).0
      → (domain : ℕ) × (state : ℤ) × (ops : List Op) × Saw domain true
        × ((operation domain state ops).0 ≡ ok tt)
  unfolding simple_action ◌>>=◌
  simple_action-IsOk identifier result_state action operation old h =
      let (name, uuid, domain, ops, h1) = with_lock-IsOk binding identifier _ old h in
      let (active, seen, h2) = check_active-IsOk binding name domain _ ops h1 in
      let (running, h3) = refused-IsOk (not active) _ _ _ h2 in
      let ops' : List Op = ops ++ is_active domain ∷ [] in
      let (state, _, h4) = check_state-IsOk binding name domain _ ops' h3 in
      let ops'' : List Op = ops' ++ get_state domain ∷ [] in
      let (succeeded, _) = on_error-IsOk (operation domain state ops'').0 _ _ _ (λ e f. f) h4 in
      (domain, state, ops'', (ops, seen ∙ ap ok (was_active active running)), succeeded)

  -- An operation behind a check that refuses.
  behind_check :
      (test : Bool) (e : Error) (op : L (Result (Unit {0}))) (ops : List Op)
      → ((if test then pure (err e) else op) ops).0 ≡ ok tt
      → (op ops).0 ≡ ok tt
  behind_check true e op ops h = cc
  behind_check false e op ops h = h

  shutdown-Confirmed :
      (identifier mode : Text) (old : List Op)
      → IsOk (shutdown binding identifier mode old).0
      → (domain : ℕ) × Confirmed (to_shutdown identifier mode) domain
  unfolding shutdown request_graceful_shutdown ◌>>=◌
  shutdown-Confirmed identifier mode old h =
      let (name, uuid, domain, ops, h1) = with_lock-IsOk binding identifier _ old h in
      let (_, answered, _) =
        or_return-IsOk (λ e. e)
          (request_graceful_shutdown binding name domain (flags_of mode) ops).0 _ _ h1 in
      let accepted : IsOk (request_graceful_shutdown binding name domain (flags_of mode) ops).0 =
        subst IsOk (sym answered) tt in
      let (active, seen, h2) = check_active-IsOk binding name domain _ ops accepted in
      let (running, h3) = refused-IsOk (not active) _ _ _ h2 in
      let ops' : List Op = ops ++ is_active domain ∷ [] in
      let (state, _, h4) = check_state-IsOk binding name domain _ ops' h3 in
      let ops'' : List Op = ops' ++ get_state domain ∷ [] in
      let (requested, _) =
        on_error-IsOk (binding ops'' (shutdown_flags domain (flags_of mode))) _ _ _
          (λ e. or_race_fails binding Text domain false _ _ _) h4 in
      (domain, ((ops, seen ∙ ap ok (was_active active running)), (ops'', requested)))

  reboot-Confirmed :
      (identifier mode : Text) (old : List Op)
      → IsOk (reboot_action binding identifier mode old).0
      → (domain : ℕ) × Confirmed (to_reboot identifier mode) domain
  unfolding reboot_action ◌>>=◌
  reboot-Confirmed identifier mode old h =
      let (name, uuid, domain, ops, h1) = with_lock-IsOk binding identifier _ old h in
      let (active, seen, h2) = check_active-IsOk binding name domain _ ops h1 in
      let (running, h3) = refused-IsOk (not active) _ _ _ h2 in
      let ops' : List Op = ops ++ is_active domain ∷ [] in
      let (state, _, h4) = check_state-IsOk binding name domain _ ops' h3 in
      let ops'' : List Op = ops' ++ get_state domain ∷ [] in
      let (requested, _) =
        on_error-IsOk (binding ops'' (reboot domain (flags_of mode))) _ _ _ (λ e f. f) h4 in
      (domain, ((ops, seen ∙ ap ok (was_active active running)), (ops'', requested)))

  set_autostart-Confirmed :
      (identifier : Text) (enabled : Bool) (old : List Op)
      → IsOk (set_autostart_action binding identifier enabled old).0
      → (domain : ℕ) × Confirmed (to_set_autostart identifier enabled) domain
  unfolding set_autostart_action ◌>>=◌
  set_autostart-Confirmed identifier enabled old h =
      let (name, uuid, domain, ops, h1) = with_lock-IsOk binding identifier _ old h in
      let (accepted, _) =
        on_error-IsOk (binding ops (set_autostart domain enabled)) _ _ _ (λ e f. f) h1 in
      (domain, (ops, accepted))

  -- Whatever the binding answers, an action reports success only if, for some domain, the binding
  -- has said that it was active (inactive for a start; setting the autostart does not look), and
  -- has carried out the operation of the action, with the flags of the mode that was asked for.
  pub actions-Confirmed :
      (action : Action) (old : List Op)
      → Succeeds action old
      → (domain : ℕ) × Confirmed action domain
  actions-Confirmed (to_start identifier) old h = start-Confirmed identifier old h
  actions-Confirmed (to_stop identifier) old h = stop-Confirmed identifier old h
  actions-Confirmed (to_pause identifier) old h =
      let (domain, state, ops, seen, done_) = simple_action-IsOk identifier _ _ _ old h in
      (
        domain,
        (
          seen,
          (ops, behind_check (is_paused state) _ (request binding (suspend domain)) ops done_),
        ),
      )
  actions-Confirmed (to_resume identifier) old h =
      let (domain, state, ops, seen, done_) = simple_action-IsOk identifier _ _ _ old h in
      (
        domain,
        (
          seen,
          (ops, behind_check (not (is_paused state)) _ (request binding (resume domain)) ops done_),
        ),
      )
  actions-Confirmed (to_reset identifier) old h =
      let (domain, state, ops, seen, done_) = simple_action-IsOk identifier _ _ _ old h in
      (domain, (seen, (ops, done_)))
  actions-Confirmed (to_shutdown identifier mode) old h = shutdown-Confirmed identifier mode old h
  actions-Confirmed (to_reboot identifier mode) old h = reboot-Confirmed identifier mode old h
  actions-Confirmed (to_set_autostart identifier enabled) old h =
      set_autostart-Confirmed identifier enabled old h
