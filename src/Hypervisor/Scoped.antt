-- ===== src/Hypervisor/Scoped.antt =====
-- internal/hypervisor: the scope that an operation of the binding needs, and that a computation asks
-- for no operation beyond a scope.
pub mod Reads
pub mod Details
pub mod Power
pub mod Snapshots
use libvirt_rest_api.Base.{
  ℕ, ◌≤◌, Bool, true, false, not, ◌&&◌, ◌||◌, List, [], ◌∷◌, Text, Option, none, some, ℤ,
}
use libvirt_rest_api.Errors.{Error, Result, ok, err, is_code, no_domain}
use libvirt_rest_api.Api.Auth.{Scope, scope_public, scope_read, scope_control, scope_admin, rank}
use libvirt_rest_api.Hypervisor.{
  Op, Binding, L, ◌>>=◌, pure, request, or_return, by_name, by_uuid, get_name, get_uuid_string,
  is_active, get_state, create, suspend, resume, reset, destroy, shutdown_flags, reboot,
  set_autostart, lock, unlock, free, is_alive, create_snapshot_xml, revert_to_snapshot,
  delete_snapshot, lock_context,
}
use libvirt_rest_api.Hypervisor.Lookup.{
  lookup_domain, domain_identity, after_name, is_canonical_uuid,
}
use libvirt_rest_api.Hypervisor.Power.{
  with_domain, freed, check_active, check_state, or_race, on_error, is_now,
}
use libvirt_rest_api.Hypervisor.Within.{
  Within, Within-pure, Within-request, Within-bind, Within-if, Within-or_return,
}

-- The least scope behind which the operation may be asked for.
abbrev pub op_scope : Op → Scope
op_scope is_alive = scope_public
op_scope (create _) = scope_control
op_scope (suspend _) = scope_control
op_scope (resume _) = scope_control
op_scope (shutdown_flags _ _) = scope_control
op_scope (reboot _ _) = scope_control
op_scope (lock _) = scope_control
op_scope (lock_context _) = scope_control
op_scope (unlock _) = scope_control
op_scope (reset _) = scope_admin
op_scope (destroy _) = scope_admin
op_scope (set_autostart _ _) = scope_admin
op_scope (create_snapshot_xml _ _ _) = scope_admin
op_scope (revert_to_snapshot _ _) = scope_admin
op_scope (delete_snapshot _ _) = scope_admin
op_scope _ = scope_read

abbrev pub At : ℕ → Op → Type 0
At n op = rank (op_scope op) ≤ n

module _ (binding : Binding) (n : ℕ) (read : 1 ≤ n) where
  abbrev pub Scoped : {A : Type 0} → L A → Type 0
  Scoped m = Within (At n) m

  pub lookup_domain-Scoped : (identifier : Text) → Scoped (lookup_domain binding identifier)
  unfolding lookup_domain
  lookup_domain-Scoped identifier =
      Within-bind (Within-request binding (by_name identifier) read) after
    where
      after : (found : Result ℕ) → Scoped (after_name binding identifier found)
      after (ok domain) = Within-pure _
      after (err e) = Within-if (not (is_code e no_domain)) (Within-pure _) (
          Within-if (is_canonical_uuid identifier)
            (Within-bind (Within-request binding (by_uuid identifier) read)
              (λ found. Within-pure _))
            (Within-pure _))

  pub domain_identity-Scoped : (domain : ℕ) → Scoped (domain_identity binding domain)
  unfolding domain_identity
  domain_identity-Scoped domain =
      Within-bind (Within-request binding (get_name domain) read) (λ named.
        Within-or_return _ named (λ name.
          Within-bind (Within-request binding (get_uuid_string domain) read)
            (λ identified. Within-or_return _ identified (λ uuid. Within-pure _))))

  pub with_domain-Scoped :
      {A : Type 0} (identifier : Text) {body : ℕ → L (Result A)}
      → ((domain : ℕ) → Scoped (body domain))
      → Scoped (with_domain binding identifier body)
  unfolding with_domain freed
  with_domain-Scoped identifier h = Within-bind (lookup_domain-Scoped identifier) (λ found.
      Within-or_return _ found (λ domain.
        Within-bind (h domain)
          (λ result. Within-bind (Within-request binding (free domain) read) (λ _. Within-pure _))))

  pub check_active-Scoped :
      {A : Type 0} (name : Text) (domain : ℕ) {next : Bool → L (Result A)}
      → ((active : Bool) → Scoped (next active))
      → Scoped (check_active binding name domain next)
  check_active-Scoped name domain h =
      Within-bind (Within-request binding (is_active domain) read)
        (λ active. Within-or_return _ active h)

  pub check_state-Scoped :
      {A : Type 0} (name : Text) (domain : ℕ) {next : ℤ → L (Result A)}
      → ((state : ℤ) → Scoped (next state))
      → Scoped (check_state binding name domain next)
  check_state-Scoped name domain h =
      Within-bind (Within-request binding (get_state domain) read)
        (λ state. Within-or_return _ state h)

  pub or_race-Scoped :
      {A : Type 0} (domain : ℕ) (expected : Bool) (raced : Error) {otherwise : L (Result A)}
      → Scoped otherwise
      → Scoped (or_race binding domain expected raced otherwise)
  or_race-Scoped domain expected raced h =
      Within-bind (Within-request binding (is_active domain) read)
        (λ active. Within-if (is_now expected active) (Within-pure _) h)

pub on_error-Scoped :
    {n : ℕ} {A : Type 0} (outcome : Result (Unit {0})) {handler : Error → L (Result A)}
    {next : L (Result A)}
    → ((e : Error) → Within (At n) (handler e))
    → Within (At n) next
    → Within (At n) (on_error outcome handler next)
on_error-Scoped (ok _) h k = k
on_error-Scoped (err e) h k = h e
