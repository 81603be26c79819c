-- ===== src/Hypervisor/Freed.antt =====
-- internal/hypervisor/libvirt.go: a method for one domain looks it up first and frees it in the end.
use libvirt_rest_api.Base.{ℕ, ◌≡◌, ap, ◌∙◌, not, List, [], ◌∷◌, ◌++◌, All, append_assoc, Text}
use libvirt_rest_api.Errors.{Result, ok, err, is_code, no_domain}
use libvirt_rest_api.Hypervisor.{Op, Binding, L, ◌>>=◌, or_return, by_name, by_uuid, free}
use libvirt_rest_api.Hypervisor.Lookup.{lookup_domain, after_name, is_canonical_uuid}
use libvirt_rest_api.Hypervisor.Power.{with_domain, freed}
use libvirt_rest_api.Hypervisor.Within.{
  Asked, Within, Within-pure, Within-request, Within-bind, Within-if,
}

abbrev pub Lookup : Op → Type 0
Lookup (by_name _) = Unit
Lookup (by_uuid _) = Unit
Lookup _ = ⊥

-- What is asked around a part that asks for operations of a kind: nothing but lookups where no domain
-- is found, and else the lookups, the part, and the domain is freed.
pub data Freed (G : ℕ → List Op → Type 0) : List Op → Type 0 where
  missing : (lookups : List Op) → All Lookup lookups → Freed G lookups
  found :
      (domain : ℕ) (lookups made : List Op)
      → All Lookup lookups
      → G domain made
      → Freed G (lookups ++ (made ++ free domain ∷ []))

module _ (binding : Binding) where
  pub lookup_domain-Within : (identifier : Text) → Within Lookup (lookup_domain binding identifier)
  unfolding lookup_domain
  lookup_domain-Within identifier =
      Within-bind (Within-request binding (by_name identifier) tt) after
    where
      after : (found : Result ℕ) → Within Lookup (after_name binding identifier found)
      after (ok domain) = Within-pure _
      after (err e) = Within-if (not (is_code e no_domain)) (Within-pure _) (
          Within-if (is_canonical_uuid identifier)
            (Within-bind (Within-request binding (by_uuid identifier) tt) (λ found. Within-pure _))
            (Within-pure _))

  module _ (G : ℕ → List Op → Type 0) {A : Type 0} (body : ℕ → L (Result A))
      (traced : (domain : ℕ) (old : List Op)
        → (made : List Op) × ((body domain old).1 ≡ old ++ made) × G domain made) where
    pub with_domain-Freed :
        (identifier : Text) (old : List Op)
        → (made : List Op) × ((with_domain binding identifier body old).1 ≡ old ++ made)
          × Freed G made
    unfolding with_domain freed ◌>>=◌
    with_domain-Freed identifier old = go (lookup_domain binding identifier old).0
      where
        looked : Asked Lookup old (lookup_domain binding identifier old).1
        looked = (lookup_domain-Within identifier).within old

        go :
            (answer : Result ℕ)
            → (made : List Op) × ((or_return
                  (λ e. e)
                  answer
                  (λ domain. freed binding domain (body domain))
                  (lookup_domain binding identifier old).1).1
                ≡ old ++ made)
              × Freed G made
        go (err e) = (looked.made, looked.history, missing looked.made looked.allowed)
        go (ok domain) =
            let (made, history, kind) = traced domain (lookup_domain binding identifier old).1 in
            (
              looked.made ++ (made ++ free domain ∷ []),
              ap (λ ops. ops ++ free domain ∷ []) history
                  ∙ (ap (λ ops. (ops ++ made) ++ free domain ∷ []) looked.history
                      ∙ (ap (λ ops. ops ++ free domain ∷ []) (append_assoc old looked.made made)
                          ∙ (append_assoc old (looked.made ++ made) (free domain ∷ [])
                              ∙ ap (λ ops. old ++ ops)
                                  (append_assoc looked.made made (free domain ∷ []))))),
              found domain looked.made made looked.allowed kind,
            )
