-- ===== src/Hypervisor/Missing.antt =====
-- internal/hypervisor/libvirt.go: what a lookup answers.
use libvirt_rest_api.Base.{
  ℕ, ◌≡◌, refl, sym, ◌⊎◌, inl, inr, ◌↔◌, arith, true, false, List, [], ◌∷◌, ◌++◌, Text, Bool-cases,
}
use libvirt_rest_api.Errors.{Result, ok, err, is, is_code, not_found, no_domain}
use libvirt_rest_api.Hypervisor.{Op, Binding, ◌>>=◌, by_name, by_uuid}
use libvirt_rest_api.Hypervisor.Lookup.{lookup_domain, after_name, after_uuid, is_canonical_uuid}

-- The binding says that there is no such domain.
abbrev pub IsNoDomain : Result ℕ → Type 0
IsNoDomain (ok _) = ⊥
IsNoDomain (err e) = is_code e no_domain ≡ true

-- The error is the program's own for a domain that is not found.
abbrev pub IsMissing : Result ℕ → Type 0
IsMissing (ok _) = ⊥
IsMissing (err e) = is e not_found ≡ true

-- An error of the binding is none of the program's own.
abbrev pub IsForeign : Result ℕ → Type 0
IsForeign (ok _) = Unit
IsForeign (err e) = is e not_found ≡ false

after_uuid-IsMissing :
    (identifier : Text) (found : Result ℕ)
    → IsForeign found
    → IsMissing (after_uuid identifier found) ↔ IsNoDomain found
after_uuid-IsMissing identifier (ok d) foreign = ground arith
after_uuid-IsMissing identifier (err e) foreign = elim (Bool-cases (is_code e no_domain)) [
  | inl gone ↦ rw gone ((λ h. refl), (λ h. refl))
  | inr other ↦ rw (other, foreign) ((λ h. h), (λ h. h))
]

wrong : ¬ (false ≡ true)
wrong h = cc

module _ (binding : Binding) (identifier : Text) where
  -- The name is unknown, and if the identifier is a UUID, so is the UUID.
  abbrev pub NowhereFound : Result ℕ → Result ℕ → Type 0
  NowhereFound named identified =
      IsNoDomain named × ((is_canonical_uuid identifier ≡ false) ⊎ IsNoDomain identified)

  after_name-IsMissing :
      (named : Result ℕ) (ops : List Op)
      → IsForeign named
      → IsForeign (binding ops (by_uuid identifier))
      → IsMissing (after_name binding identifier named ops).0
        ↔ NowhereFound named (binding ops (by_uuid identifier))
  unfolding ◌>>=◌
  after_name-IsMissing (ok d) ops f g = ground arith
  after_name-IsMissing (err e) ops f g = elim (Bool-cases (is_code e no_domain)) [
    | inr other ↦ rw (other, f) ((λ h. absurd (wrong h)), (λ (h, _). absurd (wrong h)))
    | inl gone ↦ elim (Bool-cases (is_canonical_uuid identifier)) [
      | inr not_one ↦ rw (gone, not_one) ((λ h. (refl, inl refl)), (λ h. refl))
      | inl uuid ↦
          let (there, back) =
            after_uuid-IsMissing identifier (binding ops (by_uuid identifier)) g in
          rw (gone, uuid)
            (
              (λ h. (refl, inr (there h))),
              λ (_, which). back (elim which [ inl e' ↦ absurd (wrong (sym e')) | inr h ↦ h ]),
            )
    ]
  ]

  -- Provided that the binding's errors are none of the program's own, a lookup ends with the error
  -- for a domain that is not found exactly if the binding knows no domain of that name, and none of
  -- that UUID if the identifier is a canonical UUID.
  pub lookup_domain-IsMissing :
      (old : List Op)
      → ((history : List Op)
          → IsForeign (binding history (by_name identifier))
            × IsForeign (binding history (by_uuid identifier)))
      → IsMissing (lookup_domain binding identifier old).0
        ↔ NowhereFound
            (binding old (by_name identifier))
            (binding (old ++ by_name identifier ∷ []) (by_uuid identifier))
  unfolding lookup_domain ◌>>=◌
  lookup_domain-IsMissing old foreign =
      after_name-IsMissing (binding old (by_name identifier)) (old ++ by_name identifier ∷ [])
        (foreign old).0 (foreign (old ++ by_name identifier ∷ [])).1
