-- ===== src/Hypervisor/Power/Locked.antt =====
-- internal/hypervisor/libvirt.go: the lookup and the lock around an action, its tests of the
-- domain and its errors.
use libvirt_rest_api.Base.{
  ℕ, Bool, false, not, ◌||◌, [], ◌∷◌, Text, text, text_eq, ◌==◌, if◌then◌else◌, ℤ, pos, negsuc,
}
use Prim.Native.String.{String}
use libvirt_rest_api.Errors.{
  Error, Result, ok, err, is, is_code, conflict, unsupported, operation_invalid, no_support,
  operation_unsupported, config_unsupported, argument_unsupported, fail, wrap, lit, quoted,
}
use libvirt_rest_api.Service.{ActionResult, power_mode_acpi, power_mode_guest_agent}
use libvirt_rest_api.Hypervisor.{
  Binding, L, ◌>>=◌, pure, request, or_return, about, Flags, flags_default, flags_acpi,
  flags_guest_agent, is_active, get_state, lock, unlock, free,
}
use libvirt_rest_api.Hypervisor.Lookup.{lookup_domain, domain_identity}

abbrev pub action_result : Text → Text → Text → Text → ActionResult
action_result name uuid state status = record {
  name = name;
  uuid = uuid;
  state = state;
  status = status;
}

-- Between the lock of the domain's UUID and its release, which is deferred.
unfoldable pub locked :
    {A : Type 0} → Binding → (Text → Text → ℕ → L (Result A)) → ℕ → Text × Text → L (Result A)
locked binding body domain (name, uuid) = request binding (lock uuid) >>= λ _.
    body name uuid domain >>= λ result. request binding (unlock uuid) >>= λ _. pure result

unfoldable pub identified :
    {A : Type 0} → Binding → (Text → Text → ℕ → L (Result A)) → ℕ → L (Result A)
unfolding locked
identified binding body domain = domain_identity binding domain >>= λ identity.
    or_return (λ e. e) identity (locked binding body domain)

-- The deferred `domain.Free()`.
unfoldable pub freed : {A : Type 0} → Binding → ℕ → L A → L A
freed binding domain m = m >>= λ result. request binding (free domain) >>= λ _. pure result

-- The beginning of the methods for one domain, and what it defers.
unfoldable pub with_domain : {A : Type 0} → Binding → Text → (ℕ → L (Result A)) → L (Result A)
unfolding freed
with_domain binding identifier body = lookup_domain binding identifier >>= λ found.
    or_return (λ e. e) found (λ domain. freed binding domain (body domain))

-- The beginning of every action, and what it defers.
unfoldable pub with_lock :
    {A : Type 0} → Binding → Text → (Text → Text → ℕ → L (Result A)) → L (Result A)
unfolding identified with_domain
with_lock binding identifier body = with_domain binding identifier (identified binding body)

abbrev pub domain_conflict : String → Text → String → Error
domain_conflict before name after =
    fail conflict (lit (text before) ∷ quoted name ∷ lit (text after) ∷ [])

abbrev pub domain_unsupported : String → Text → String → Error
domain_unsupported before name after =
    fail unsupported (lit (text before) ∷ quoted name ∷ lit (text after) ∷ [])

-- `domain.IsActive()`, and its error.
abbrev pub check_active : {A : Type 0} → Binding → Text → ℕ → (Bool → L (Result A)) → L (Result A)
check_active binding name domain next = request binding (is_active domain) >>= λ active.
    or_return (about (text "get domain ") name (text " activity: ")) active next

abbrev pub check_state : {A : Type 0} → Binding → Text → ℕ → (ℤ → L (Result A)) → L (Result A)
check_state binding name domain next = request binding (get_state domain) >>= λ state.
    or_return (about (text "get domain ") name (text " state: ")) state next

abbrev pub is_now : Bool → Result Bool → Bool
is_now expected (ok active) = if expected then active else not active
is_now expected (err _) = false

-- After a failed operation: the second look at the activity, which may turn the error into a
-- conflict.
abbrev pub or_race : {A : Type 0} → Binding → ℕ → Bool → Error → L (Result A) → L (Result A)
or_race binding domain expected raced otherwise = request binding (is_active domain) >>= λ active.
    if is_now expected active then pure (err raced) else otherwise

-- `if err := …; err != nil { … }`, and what follows.
abbrev pub on_error :
    {A : Type 0} → Result (Unit {0}) → (Error → L (Result A)) → L (Result A) → L (Result A)
on_error (ok _) handler next = next
on_error (err e) handler next = handler e

-- The switch on the error of a shutdown.
abbrev pub shutdown_error : Text → Error → Error
shutdown_error name e =
    if is_code e operation_invalid
    then domain_conflict ": graceful shutdown cannot be requested for domain " name
        " in its current state"
    else if is_code e no_support
        || is_code e config_unsupported
        || is_code e argument_unsupported
        || is_code e operation_unsupported
    then domain_unsupported ": domain " name " does not support graceful shutdown"
    else about (text "request graceful shutdown for domain ") name (text ": ") e

abbrev pub latest : ℤ → Result ℤ → ℤ
latest state (ok current) = current
latest state (err _) = state

unfoldable pub flags_of : Text → Flags
flags_of mode =
    if text_eq mode power_mode_acpi
    then flags_acpi
    else if text_eq mode power_mode_guest_agent
    then flags_guest_agent
    else flags_default

abbrev pub reboot_error : Text → Error → Error
reboot_error name e =
    if is_code e operation_invalid
    then domain_conflict ": domain " name " cannot reboot in its current state"
    else if is_code e no_support || is_code e operation_unsupported
    then domain_unsupported ": domain " name " does not support requested reboot mode"
    else about (text "request reboot for domain ") name (text ": ") e

-- `%w: cannot … domain`: an error that wraps the operation's.
abbrev pub simple_error : Text → Text → Error → Error
simple_error name action e =
    if is e conflict
    then wrap [] e (lit (text ": cannot ") ∷ lit action ∷ lit (text " domain ") ∷ quoted name ∷ [])
    else if is_code e operation_invalid
    then fail conflict (
        lit (text ": cannot ")
        ∷ lit action
        ∷ lit (text " domain ")
        ∷ quoted name
        ∷ lit (text " in its current state")
        ∷ [])
    else if is_code e no_support || is_code e operation_unsupported
    then fail unsupported
        (lit (text ": domain ") ∷ quoted name ∷ lit (text " does not support ") ∷ lit action ∷ [])
    else wrap (lit action ∷ lit (text " domain ") ∷ quoted name ∷ lit (text ": ") ∷ []) e []

-- `libvirt.DOMAIN_PAUSED`.
abbrev pub is_paused : ℤ → Bool
is_paused (pos code) = code == 3
is_paused (negsuc _) = false

abbrev pub autostart_error : Text → Error → Error
autostart_error name e =
    if is_code e no_support || is_code e operation_unsupported
    then domain_unsupported ": domain " name " does not support autostart"
    else about (text "set domain ") name (text " autostart: ") e
