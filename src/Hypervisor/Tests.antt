-- ===== src/Hypervisor/Tests.antt =====
-- What is asked of a binding with one domain, and what it answers.
use libvirt_rest_api.Base.{ℕ, ◌≡◌, refl, ◌↔◌, List, [], ◌∷◌, ◌++◌, Text, text, text_eq}
use libvirt_rest_api.Hypervisor.Fixtures.{binding}
use libvirt_rest_api.Hypervisor.{
  Op, ◌>>=◌, by_name, by_uuid, get_name, get_uuid_string, is_active, create, lock, unlock, free,
}
use libvirt_rest_api.Hypervisor.Lookup.{lookup_domain, domain_identity}
use libvirt_rest_api.Hypervisor.Power.{start, with_lock, locked, identified, freed}
use libvirt_rest_api.Hypervisor.Actions.{to_start, operations}
use libvirt_rest_api.Hypervisor.Missing.{
  IsMissing, IsForeign, NowhereFound, lookup_domain-IsMissing,
}
use libvirt_rest_api.Hypervisor.Confirmed.{Confirmed, Succeeds, actions-Confirmed}

abbrev vm1 : Text
vm1 = text "vm1"

start_order :
    operations binding (to_start vm1) []
    ≡ by_name vm1
      ∷ get_name 7
      ∷ get_uuid_string 7
      ∷ lock (text "u1")
      ∷ is_active 7
      ∷ create 7
      ∷ unlock (text "u1")
      ∷ free 7
      ∷ []
unfolding start with_lock freed identified locked lookup_domain domain_identity ◌>>=◌ text text_eq
start_order = refl

start-Succeeds : Succeeds binding (to_start vm1) []
unfolding start with_lock freed identified locked lookup_domain domain_identity ◌>>=◌ text text_eq
start-Succeeds = tt

actions-Confirmed_example : (domain : ℕ) × Confirmed binding (to_start vm1) domain
actions-Confirmed_example = actions-Confirmed binding (to_start vm1) [] start-Succeeds

foreign :
    (history : List Op)
    → IsForeign (binding history (by_name (text "vm2")))
      × IsForeign (binding history (by_uuid (text "vm2")))
unfolding text text_eq
foreign history = (refl, refl)

lookup_domain-IsMissing_example :
    IsMissing (lookup_domain binding (text "vm2") []).0
    ↔ NowhereFound binding
        (text "vm2")
        (binding [] (by_name (text "vm2")))
        (binding ([] ++ by_name (text "vm2") ∷ []) (by_uuid (text "vm2")))
lookup_domain-IsMissing_example = lookup_domain-IsMissing binding (text "vm2") [] foreign
