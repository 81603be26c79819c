-- ===== src/Hypervisor/Success.antt =====
-- internal/hypervisor/libvirt.go: each step of an action that succeeds has succeeded.
use libvirt_rest_api.Base.{
  ℕ, ◌≡◌, inl, inr, refl, Bool, true, false, List, [], ◌∷◌, ◌++◌, Text, if◌then◌else◌, ℤ,
  Bool-cases,
}
use libvirt_rest_api.Errors.{Error, Result, ok, err}
use libvirt_rest_api.Hypervisor.{Op, Binding, L, ◌>>=◌, pure, or_return, is_active, get_state, lock}
use libvirt_rest_api.Hypervisor.Lookup.{lookup_domain, domain_identity}
use libvirt_rest_api.Hypervisor.Power.{
  with_lock, freed, identified, locked, check_active, check_state, or_race, on_error, is_now,
}

abbrev pub IsOk : {A : Type 0} → Result A → Type 0
IsOk (ok _) = Unit
IsOk (err _) = ⊥

-- Each step of an action that succeeds has succeeded.
pub or_return-IsOk :
    {A B : Type 0} (context : Error → Error) (reply : Result A) (next : A → L (Result B))
    (ops : List Op)
    → IsOk (or_return context reply next ops).0
    → (a : A) × (reply ≡ ok a) × IsOk (next a ops).0
or_return-IsOk context (ok a) next ops h = (a, refl, h)
or_return-IsOk context (err e) next ops h = absurd h

pub refused-IsOk :
    {A : Type 0} (test : Bool) (e : Error) (next : L (Result A)) (ops : List Op)
    → IsOk ((if test then pure (err e) else next) ops).0
    → (test ≡ false) × IsOk (next ops).0
refused-IsOk true e next ops h = absurd h
refused-IsOk false e next ops h = (refl, h)

pub on_error-IsOk :
    {A : Type 0} (outcome : Result (Unit {0})) (handler : Error → L (Result A))
    (next : L (Result A)) (ops : List Op)
    → ((e : Error) → ¬ IsOk (handler e ops).0)
    → IsOk (on_error outcome handler next ops).0
    → (outcome ≡ ok tt) × IsOk (next ops).0
on_error-IsOk (ok tt) handler next ops never h = (refl, h)
on_error-IsOk (err e) handler next ops never h = absurd (never e h)

module _ (binding : Binding) where
  pub or_race_fails :
      (A : Type 0) (domain : ℕ) (expected : Bool) (raced e : Error) (ops : List Op)
      → ¬ IsOk (or_race {A = A} binding domain expected raced (pure (err e)) ops).0
  unfolding ◌>>=◌
  or_race_fails A domain expected raced e ops =
      elim (Bool-cases (is_now expected (binding ops (is_active domain)))) [
        | inl yes_ ↦ rw yes_ (λ h. h)
        | inr no_ ↦ rw no_ (λ h. h)
      ]

  -- A body that ran under the lock, for the domain that was found.
  pub with_lock-IsOk :
      {A : Type 0} (identifier : Text) (body : Text → Text → ℕ → L (Result A)) (old : List Op)
      → IsOk (with_lock binding identifier body old).0
      → (name uuid : Text) × (domain : ℕ) × (ops : List Op) × IsOk (body name uuid domain ops).0
  unfolding with_lock freed identified locked ◌>>=◌
  with_lock-IsOk identifier body old h =
      let (domain, _, h') =
        or_return-IsOk (λ e. e) (lookup_domain binding identifier old).0
          (λ domain. freed binding domain (identified binding body domain))
          (lookup_domain binding identifier old).1 h in
      let ops : List Op = (lookup_domain binding identifier old).1 in
      let ((name, uuid), _, h'') =
        or_return-IsOk (λ e. e) (domain_identity binding domain ops).0 (locked binding body domain)
          (domain_identity binding domain ops).1 h' in
      (name, uuid, domain, (domain_identity binding domain ops).1 ++ lock uuid ∷ [], h'')

  pub check_active-IsOk :
      {A : Type 0} (name : Text) (domain : ℕ) (next : Bool → L (Result A)) (ops : List Op)
      → IsOk (check_active binding name domain next ops).0
      → (active : Bool) × (binding ops (is_active domain) ≡ ok active)
        × IsOk (next active (ops ++ is_active domain ∷ [])).0
  unfolding ◌>>=◌
  check_active-IsOk name domain next ops h =
      or_return-IsOk _ (binding ops (is_active domain)) next _ h

  pub check_state-IsOk :
      {A : Type 0} (name : Text) (domain : ℕ) (next : ℤ → L (Result A)) (ops : List Op)
      → IsOk (check_state binding name domain next ops).0
      → (state : ℤ) × (binding ops (get_state domain) ≡ ok state)
        × IsOk (next state (ops ++ get_state domain ∷ [])).0
  unfolding ◌>>=◌
  check_state-IsOk name domain next ops h =
      or_return-IsOk _ (binding ops (get_state domain)) next _ h
