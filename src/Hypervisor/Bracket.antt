-- ===== src/Hypervisor/Bracket.antt =====
-- internal/hypervisor/libvirt.go: every action asks for changes of a domain only between the lock of
-- the domain's UUID and its release, and frees the domain.
use libvirt_rest_api.Base.{
  ℕ, ◌≡◌, refl, sym, subst, ap, ◌∙◌, List, [], ◌∷◌, ◌++◌, All, append_assoc, Text,
}
use libvirt_rest_api.Errors.{Result, ok, err}
use libvirt_rest_api.Hypervisor.{
  Op, Binding, L, ◌>>=◌, or_return, get_name, get_uuid_string, is_active, get_state, get_autostart,
  create, suspend, resume, reset, destroy, shutdown_flags, reboot, set_autostart, lock, unlock,
  free,
}
use libvirt_rest_api.Hypervisor.Lookup.{domain_identity, with_name, with_uuid}
use libvirt_rest_api.Hypervisor.Power.{with_lock, identified, locked}
use libvirt_rest_api.Hypervisor.Freed.{Lookup, Freed, with_domain-Freed}
use libvirt_rest_api.Hypervisor.Within.{
  Asked, Within, Within-pure, Within-request, Within-bind, Within-or_return,
}

abbrev pub Identity : ℕ → Op → Type 0
Identity domain (get_name d) = d ≡ domain
Identity domain (get_uuid_string d) = d ≡ domain
Identity domain _ = ⊥

-- The operations that look at the domain or change it.
abbrev pub Acting : ℕ → Op → Type 0
Acting domain (is_active d) = d ≡ domain
Acting domain (get_state d) = d ≡ domain
Acting domain (get_autostart d) = d ≡ domain
Acting domain (create d) = d ≡ domain
Acting domain (suspend d) = d ≡ domain
Acting domain (resume d) = d ≡ domain
Acting domain (reset d) = d ≡ domain
Acting domain (destroy d) = d ≡ domain
Acting domain (shutdown_flags d _) = d ≡ domain
Acting domain (reboot d _) = d ≡ domain
Acting domain (set_autostart d _) = d ≡ domain
Acting domain _ = ⊥

-- What an action asks, in order: nothing but lookups where no domain is found; and else the
-- domain's identity, then the lock of the UUID that the binding gave, what acts on the domain, and
-- the release; and in the end the domain is freed.
pub data Bracketed (binding : Binding) : List Op → Type 0 where
  missing : (lookups : List Op) → All Lookup lookups → Bracketed binding lookups
  unidentified :
      (domain : ℕ) (lookups identity : List Op)
      → All Lookup lookups
      → All (Identity domain) identity
      → Bracketed binding (lookups ++ (identity ++ free domain ∷ []))
  in_lock :
      (domain : ℕ) (uuid : Text) (lookups identity acts earlier : List Op)
      → All Lookup lookups
      → All (Identity domain) identity
      → binding earlier (get_uuid_string domain) ≡ ok uuid
      → All (Acting domain) acts
      → Bracketed binding
          (lookups ++ (identity ++ lock uuid ∷ (acts ++ unlock uuid ∷ free domain ∷ [])))

module _ (binding : Binding) where
  pub domain_identity-Within :
      (domain : ℕ) → Within (Identity domain) (domain_identity binding domain)
  unfolding domain_identity
  domain_identity-Within domain =
      Within-bind (Within-request binding (get_name domain) refl) (λ named.
        Within-or_return _ named (λ name.
          Within-bind (Within-request binding (get_uuid_string domain) refl)
            (λ identified. Within-or_return _ identified (λ uuid. Within-pure _))))

  last_given :
      (n : Text) (ops : List Op) (reply : Result Text) {name uuid : Text}
      → (with_uuid n reply ops).0 ≡ ok (name, uuid)
      → reply ≡ ok uuid
  last_given n ops (ok u) h = cc
  last_given n ops (err e) h = cc

  first_given :
      (domain : ℕ) (ops : List Op) (reply : Result Text) {name uuid : Text}
      → (with_name binding domain reply ops).0 ≡ ok (name, uuid)
      → (earlier : List Op) × (binding earlier (get_uuid_string domain) ≡ ok uuid)
  unfolding ◌>>=◌
  first_given domain ops (ok n) h = (ops, last_given n _ (binding ops (get_uuid_string domain)) h)
  first_given domain ops (err e) h = cc

  pub uuid_given :
      (domain : ℕ) (old : List Op) {name uuid : Text}
      → (domain_identity binding domain old).0 ≡ ok (name, uuid)
      → (earlier : List Op) × (binding earlier (get_uuid_string domain) ≡ ok uuid)
  unfolding domain_identity ◌>>=◌
  uuid_given domain old h =
      first_given domain (old ++ get_name domain ∷ []) (binding old (get_name domain)) h

  -- What the middle of an action asks for.
  data Guarded (domain : ℕ) : List Op → Type 0 where
    bare : (identity : List Op) → All (Identity domain) identity → Guarded domain identity
    full :
        (uuid : Text) (identity acts earlier : List Op)
        → All (Identity domain) identity
        → binding earlier (get_uuid_string domain) ≡ ok uuid
        → All (Acting domain) acts
        → Guarded domain (identity ++ lock uuid ∷ (acts ++ unlock uuid ∷ []))

  module _ {A : Type 0} (body : Text → Text → ℕ → L (Result A))
      (acting : (name uuid : Text) (domain : ℕ)
        → Within (Acting domain) (body name uuid domain)) where
    locked-acts :
        (domain : ℕ) (name uuid : Text) (old : List Op)
        → (acts : List Op) × ((locked binding body domain (name, uuid) old).1
            ≡ old ++ lock uuid ∷ (acts ++ unlock uuid ∷ []))
          × All (Acting domain) acts
    unfolding locked ◌>>=◌
    locked-acts domain name uuid old =
        let asked = (acting name uuid domain).within (old ++ lock uuid ∷ []) in
        (
          asked.made,
          ap (λ ops. ops ++ unlock uuid ∷ []) asked.history
              ∙ (append_assoc (old ++ lock uuid ∷ []) asked.made (unlock uuid ∷ [])
                  ∙ append_assoc old (lock uuid ∷ []) (asked.made ++ unlock uuid ∷ [])),
          asked.allowed,
        )

    identified-Guarded :
        (domain : ℕ) (old : List Op)
        → (made : List Op) × ((identified binding body domain old).1 ≡ old ++ made)
          × Guarded domain made
    unfolding identified ◌>>=◌
    identified-Guarded domain old = go (domain_identity binding domain old).0 refl
      where
        known : Asked (Identity domain) old (domain_identity binding domain old).1
        known = (domain_identity-Within domain).within old

        go :
            (result : Result (Text × Text))
            → (domain_identity binding domain old).0 ≡ result
            → (made : List Op) × ((or_return
                  (λ e. e)
                  result
                  (locked binding body domain)
                  (domain_identity binding domain old).1).1
                ≡ old ++ made)
              × Guarded domain made
        go (err e) same = (known.made, known.history, bare known.made known.allowed)
        go (ok (name, uuid)) same =
            let (acts, history, allowed) =
              locked-acts domain name uuid (domain_identity binding domain old).1 in
            let (earlier, given) = uuid_given domain old same in
            (
              known.made ++ lock uuid ∷ (acts ++ unlock uuid ∷ []),
              history
                  ∙ (ap (λ ops. ops ++ lock uuid ∷ (acts ++ unlock uuid ∷ [])) known.history
                      ∙ append_assoc old known.made (lock uuid ∷ (acts ++ unlock uuid ∷ []))),
              full uuid known.made acts earlier known.allowed given allowed,
            )

    Guarded-Bracketed :
        (domain : ℕ) (lookups made : List Op)
        → All Lookup lookups
        → Guarded domain made
        → Bracketed binding (lookups ++ (made ++ free domain ∷ []))
    Guarded-Bracketed domain lookups made found (bare identity known) =
        unidentified domain lookups identity found known
    Guarded-Bracketed domain lookups made found
          (full uuid identity acts earlier known given acting_) =
        subst (λ ops. Bracketed binding (lookups ++ ops))
          (sym (
            append_assoc identity (lock uuid ∷ (acts ++ unlock uuid ∷ [])) (free domain ∷ [])
            ∙ ap (λ ops. identity ++ lock uuid ∷ ops)
                (append_assoc acts (unlock uuid ∷ []) (free domain ∷ []))))
          (in_lock domain uuid lookups identity acts earlier found known given acting_)

    Freed-Bracketed : {made : List Op} → Freed Guarded made → Bracketed binding made
    Freed-Bracketed (Freed.missing lookups found) = missing lookups found
    Freed-Bracketed (Freed.found domain lookups made looked guarded) =
        Guarded-Bracketed domain lookups made looked guarded

    -- Every action that goes through the common beginning is bracketed.
    pub with_lock-Bracketed :
        (identifier : Text) (old : List Op)
        → (made : List Op) × ((with_lock binding identifier body old).1 ≡ old ++ made)
          × Bracketed binding made
    unfolding with_lock
    with_lock-Bracketed identifier old =
        let (made, history, freed_) =
          with_domain-Freed binding Guarded (identified binding body) identified-Guarded identifier
            old in
        (made, history, Freed-Bracketed freed_)
