-- ===== src/Hypervisor/Refines/Tests.antt =====
-- A machine with a state, and a binding that answers as it.
use libvirt_rest_api.Base.{
  ◌≡◌, refl, ap, ◌∙◌, Bool, true, false, List, [], ◌∷◌, ◌++◌, text, text_eq, if◌then◌else◌,
}
use libvirt_rest_api.Errors.{Result, ok, err}
use libvirt_rest_api.Hypervisor.{
  Op, Reply, Binding, create, suspend, resume, reset, destroy, is_active, get_state,
}
use libvirt_rest_api.Hypervisor.Fixtures.{unknown, reply}
use libvirt_rest_api.Hypervisor.Refines.{
  Power, running, paused, shutoff, active_in, code_of, Faithful, IsQuiet, looks_up, asks_name,
  asks_uuid, asks_activity, asks_state, locks, unlocks, frees, PowerAction, starting, stopping,
  pausing, resuming, run_actions, run_steps,
}
use libvirt_rest_api.Hypervisor.Refines.Steps.{run_actions-run_steps}

abbrev after_op : Power → Op → Power
after_op shutoff (create _) = running
after_op running (destroy _) = shutoff
after_op paused (destroy _) = shutoff
after_op running (suspend _) = paused
after_op paused (resume _) = running
after_op before _ = before

abbrev after_all : Power → List Op → Power
after_all before [] = before
after_all before (op ∷ ops) = after_all (after_op before op) ops

abbrev machine : List Op → Power
machine ops = after_all shutoff ops

machine-append :
    (before : Power) (ops : List Op) (op : Op)
    → after_all before (ops ++ op ∷ []) ≡ after_op (after_all before ops) op
machine-append before [] op = refl
machine-append before (first ∷ ops) op = machine-append (after_op before first) ops op

quiet_kept : (p : Power) (op : Op) → IsQuiet op → after_op p op ≡ p
quiet_kept running _ (looks_up name) = refl
quiet_kept running _ (asks_name domain) = refl
quiet_kept running _ (asks_uuid domain) = refl
quiet_kept running _ (asks_activity domain) = refl
quiet_kept running _ (asks_state domain) = refl
quiet_kept running _ (locks uuid) = refl
quiet_kept running _ (unlocks uuid) = refl
quiet_kept running _ (frees domain) = refl
quiet_kept paused _ (looks_up name) = refl
quiet_kept paused _ (asks_name domain) = refl
quiet_kept paused _ (asks_uuid domain) = refl
quiet_kept paused _ (asks_activity domain) = refl
quiet_kept paused _ (asks_state domain) = refl
quiet_kept paused _ (locks uuid) = refl
quiet_kept paused _ (unlocks uuid) = refl
quiet_kept paused _ (frees domain) = refl
quiet_kept shutoff _ (looks_up name) = refl
quiet_kept shutoff _ (asks_name domain) = refl
quiet_kept shutoff _ (asks_uuid domain) = refl
quiet_kept shutoff _ (asks_activity domain) = refl
quiet_kept shutoff _ (asks_state domain) = refl
quiet_kept shutoff _ (locks uuid) = refl
quiet_kept shutoff _ (unlocks uuid) = refl
quiet_kept shutoff _ (frees domain) = refl

destroy_stops : (p : Power) → active_in p ≡ true → after_op p (destroy 7) ≡ shutoff
destroy_stops running h = refl
destroy_stops paused h = refl
destroy_stops shutoff h = refl

reset_keeps : (p : Power) → after_op p (reset 7) ≡ p
reset_keeps running = refl
reset_keeps paused = refl
reset_keeps shutoff = refl

abbrev when : Bool → Result (Unit {0})
when b = if b then ok tt else err unknown

abbrev is_running : Power → Bool
is_running running = true
is_running _ = false

abbrev is_stopped : Power → Bool
is_stopped shutoff = true
is_stopped _ = false

abbrev is_held : Power → Bool
is_held paused = true
is_held _ = false

abbrev machine_reply : List Op → (op : Op) → Reply op
machine_reply h (is_active _) = ok (active_in (machine h))
machine_reply h (get_state _) = ok (code_of (machine h))
machine_reply h (create _) = when (is_stopped (machine h))
machine_reply h (destroy _) = when (active_in (machine h))
machine_reply h (suspend _) = when (is_running (machine h))
machine_reply h (resume _) = when (is_held (machine h))
machine_reply h (reset _) = when (active_in (machine h))
machine_reply h op = reply h op

abbrev machine_binding : Binding
machine_binding h op = machine_reply h op

machine_binding-Faithful : Faithful machine_binding machine (text "vm1")
unfolding text text_eq
machine_binding-Faithful = record {
  domain = 7;
  name = text "vm1";
  uuid = text "u1";
  finds = λ h. refl;
  named = λ h. refl;
  identifies = λ h. refl;
  activity = λ h. refl;
  reports = λ h. refl;
  quiet = λ h op q. machine-append shutoff h op ∙ quiet_kept (machine h) op q;
  creates = λ h e. ap (λ p. when (is_stopped p)) e;
  created = λ h e. machine-append shutoff h (create 7) ∙ ap (λ p. after_op p (create 7)) e;
  destroys = λ h e. ap when e;
  destroyed = λ h e. machine-append shutoff h (destroy 7) ∙ destroy_stops (machine h) e;
  suspends = λ h e. ap (λ p. when (is_running p)) e;
  suspended = λ h e. machine-append shutoff h (suspend 7) ∙ ap (λ p. after_op p (suspend 7)) e;
  resumes = λ h e. ap (λ p. when (is_held p)) e;
  resumed = λ h e. machine-append shutoff h (resume 7) ∙ ap (λ p. after_op p (resume 7)) e;
  resets = λ h e. ap when e;
  reset_kept = λ h e. machine-append shutoff h (reset 7) ∙ reset_keeps (machine h);
}

abbrev five : List PowerAction
five = starting ∷ starting ∷ pausing ∷ resuming ∷ stopping ∷ []

run_actions-run_steps_example :
    ((run_actions machine_binding five (text "vm1") []).0
      ≡ (run_steps (text "vm1") (text "u1") five shutoff).0)
    × (machine (run_actions machine_binding five (text "vm1") []).1
        ≡ (run_steps (text "vm1") (text "u1") five shutoff).1)
unfolding machine_binding-Faithful
run_actions-run_steps_example =
    run_actions-run_steps machine_binding machine (text "vm1") machine_binding-Faithful five []
