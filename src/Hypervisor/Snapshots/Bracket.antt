-- ===== src/Hypervisor/Snapshots/Bracket.antt =====
-- internal/hypervisor/snapshots.go: what the methods that change snapshots ask, in order.
use libvirt_rest_api.Base.{
  ℕ, ◌≡◌, refl, ap, ◌∙◌, List, [], ◌∷◌, ◌++◌, All, append_assoc, Text, none,
}
use Prim.Native.String.{String}
use libvirt_rest_api.Errors.{Error, Result, ok, err}
use libvirt_rest_api.Values.{SnapshotFlag}
use libvirt_rest_api.Hypervisor.{
  Op, Binding, L, ◌>>=◌, or_return, get_uuid_string, unlock, lock_context, context_error,
  snapshot_lookup_by_name, create_snapshot_xml, snapshot_xml, revert_to_snapshot, delete_snapshot,
  free_snapshot,
}
use libvirt_rest_api.Hypervisor.Lookup.{domain_identity}
use libvirt_rest_api.Hypervisor.Within.{Asked}
use libvirt_rest_api.Hypervisor.Freed.{Freed, with_domain-Freed}
use libvirt_rest_api.Hypervisor.Bracket.{Identity, domain_identity-Within, uuid_given}
use libvirt_rest_api.Hypervisor.Snapshots.{
  after_lock, context_locked, context_identified, with_context_lock,
}

-- The operations that change a snapshot that was looked up.
pub data Changes (handle : ℕ) : Op → Type 0 where
  reverts : (flags : List SnapshotFlag) → Changes handle (revert_to_snapshot handle flags)
  deletes : (flags : List SnapshotFlag) → Changes handle (delete_snapshot handle flags)

-- What may be asked under the lock: no change without the context having said that it has not
-- ended, none of a snapshot but the one that the binding found, and each handle is freed.
pub data Acts (binding : Binding) (domain : ℕ) : List Op → Type 0 where
  nothing : Acts binding domain []
  ended_before : Acts binding domain (context_error ∷ [])
  not_created :
      (earlier : List Op) (definition : Text) (flags : List SnapshotFlag)
      → binding earlier context_error ≡ none
      → Acts binding domain (context_error ∷ create_snapshot_xml domain definition flags ∷ [])
  created :
      (earlier later : List Op) (definition : Text) (flags : List SnapshotFlag) (handle : ℕ)
      → binding earlier context_error ≡ none
      → binding later (create_snapshot_xml domain definition flags) ≡ ok handle
      → Acts binding domain (
          context_error
          ∷ create_snapshot_xml domain definition flags
          ∷ snapshot_xml handle
          ∷ free_snapshot handle
          ∷ [])
  not_found : (name : Text) → Acts binding domain (snapshot_lookup_by_name domain name ∷ [])
  ended :
      (earlier : List Op) (name : Text) (handle : ℕ)
      → binding earlier (snapshot_lookup_by_name domain name) ≡ ok handle
      → Acts binding domain
          (snapshot_lookup_by_name domain name ∷ context_error ∷ free_snapshot handle ∷ [])
  changed :
      (earlier later : List Op) (name : Text) (handle : ℕ) (change : Op)
      → binding earlier (snapshot_lookup_by_name domain name) ≡ ok handle
      → binding later context_error ≡ none
      → Changes handle change
      → Acts binding domain
          (snapshot_lookup_by_name domain name ∷ context_error ∷ change ∷ free_snapshot handle ∷ [])

-- What is asked of a domain that was found: its identity, the lock of the UUID that the binding
-- gave, and if the lock is had, what may be asked under it and the release.
pub data Held (binding : Binding) (domain : ℕ) : List Op → Type 0 where
  unidentified :
      (identity : List Op) → All (Identity domain) identity → Held binding domain identity
  not_locked :
      (uuid : Text) (identity earlier later : List Op) (e : Error)
      → All (Identity domain) identity
      → binding earlier (get_uuid_string domain) ≡ ok uuid
      → binding later (lock_context uuid) ≡ err e
      → Held binding domain (identity ++ lock_context uuid ∷ [])
  held :
      (uuid : Text) (identity acts earlier : List Op)
      → All (Identity domain) identity
      → binding earlier (get_uuid_string domain) ≡ ok uuid
      → Acts binding domain acts
      → Held binding domain (identity ++ lock_context uuid ∷ (acts ++ unlock uuid ∷ []))

-- `ops` are `old` and then some of which `P` holds.
abbrev pub Traced : (List Op → Type 0) → (old ops : List Op) → Type 0
Traced P old ops = (made : List Op) × (ops ≡ old ++ made) × P made

module _ (binding : Binding) {A : Type 0} (operation : String)
    (body : Text → Text → ℕ → L (Result A))
    (acting : (name uuid : Text) (domain : ℕ) (old : List Op)
      → Traced (Acts binding domain) old (body name uuid domain old).1) where
  -- What follows the identity.
  data Locked (domain : ℕ) (uuid : Text) : List Op → Type 0 where
    without :
        (later : List Op) (e : Error)
        → binding later (lock_context uuid) ≡ err e
        → Locked domain uuid (lock_context uuid ∷ [])
    within :
        (acts : List Op)
        → Acts binding domain acts
        → Locked domain uuid (lock_context uuid ∷ (acts ++ unlock uuid ∷ []))

  after_lock-Locked :
      (domain : ℕ) (name uuid : Text) (old earlier : List Op) (answer : Result (Unit {0}))
      → binding earlier (lock_context uuid) ≡ answer
      → Traced
          (Locked domain uuid)
          old
          (after_lock binding operation body domain name uuid answer
            (old ++ lock_context uuid ∷ [])).1
  unfolding ◌>>=◌
  after_lock-Locked domain name uuid old earlier (err e) h =
      (lock_context uuid ∷ [], refl, without earlier e h)
  after_lock-Locked domain name uuid old earlier (ok _) h =
      let (acts, history, kind) = acting name uuid domain (old ++ lock_context uuid ∷ []) in
      (
        lock_context uuid ∷ (acts ++ unlock uuid ∷ []),
        ap (λ ops. ops ++ unlock uuid ∷ []) history
            ∙ (append_assoc (old ++ lock_context uuid ∷ []) acts (unlock uuid ∷ [])
                ∙ append_assoc old (lock_context uuid ∷ []) (acts ++ unlock uuid ∷ [])),
        within acts kind,
      )

  -- After the answer to the question for the identity.
  abbrev after_identity : ℕ → Result (Text × Text) → L (Result A)
  after_identity domain identity =
      or_return (λ e. e) identity (context_locked binding operation body domain)

  locked-Held :
      (domain : ℕ) (uuid : Text) (identity made earlier : List Op)
      → All (Identity domain) identity
      → binding earlier (get_uuid_string domain) ≡ ok uuid
      → Locked domain uuid made
      → Held binding domain (identity ++ made)
  locked-Held domain uuid identity made earlier known given (without later e h) =
      not_locked uuid identity earlier later e known given h
  locked-Held domain uuid identity made earlier known given (within acts kind) =
      held uuid identity acts earlier known given kind

  context_identified-Held :
      (domain : ℕ) (old : List Op)
      → Traced (Held binding domain) old (context_identified binding operation body domain old).1
  unfolding context_identified context_locked ◌>>=◌
  context_identified-Held domain old = go (domain_identity binding domain old).0 refl
    where
      known : Asked (Identity domain) old (domain_identity binding domain old).1
      known = (domain_identity-Within binding domain).within old

      go :
          (answer : Result (Text × Text))
          → (domain_identity binding domain old).0 ≡ answer
          → Traced
              (Held binding domain)
              old
              (after_identity domain answer (domain_identity binding domain old).1).1
      go (err e) same = (known.made, known.history, unidentified known.made known.allowed)
      go (ok (name, uuid)) same =
          let ops = (domain_identity binding domain old).1 in
          let (earlier, given) = uuid_given binding domain old same in
          let (made, history, kind) =
            after_lock-Locked domain name uuid ops ops (binding ops (lock_context uuid)) refl in
          (
            known.made ++ made,
            history ∙ (ap (λ ops. ops ++ made) known.history ∙ append_assoc old known.made made),
            locked-Held domain uuid known.made made earlier known.allowed given kind,
          )

  pub with_context_lock-Held :
      (identifier : Text) (old : List Op)
      → Traced
          (Freed (Held binding))
          old
          (with_context_lock binding operation identifier body old).1
  unfolding with_context_lock
  with_context_lock-Held identifier old =
      with_domain-Freed binding (Held binding) (context_identified binding operation body)
        context_identified-Held identifier old
