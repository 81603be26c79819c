-- ===== src/Api/Routes/Complete.antt =====
-- internal/api/server.go: the routes that `New` registers.
use libvirt_rest_api.Base.{
  ℕ, ◌≡◌, refl, ◌∙◌, subst, result_unique, inl, inr, arith, ◌&&◌, some, List, [], ◌∷◌, Text, text,
  text_eq, text_eq_iff, text_eq_refl, Bool-cases, Option-cases, All,
}
use libvirt_rest_api.Service.{Service}
use libvirt_rest_api.Api.Http.{Handler}
use libvirt_rest_api.Api.Auth.{Server, require_scope}
use libvirt_rest_api.Api.Decode.{Json}
use libvirt_rest_api.Api.Mux.{accepts}
use libvirt_rest_api.Api.Routes.{Registry, handle}
use libvirt_rest_api.Api.Routes.Registration.{route_of, Registers, handle_lem}
use libvirt_rest_api.Api.Routes.Table.{Registration, handle_all, routes, wrapped, new_server}

module _ {B : Type 0} where
  -- A registration leaves the routes that were there.
  handle_keeps :
      (method path : Text) (handler : Handler B) (registry longer : Registry B)
      → handle method path handler registry ≡ some longer
      → (method' path' : Text) (g : Handler B) → route_of method' path' registry ≡ some g
      → route_of method' path' longer ≡ some g
  handle_keeps method path handler registry longer done method' path' g old =
      let (free, _, routes') =
        subst (Registers method path handler registry) done
          (handle_lem method path handler registry) in
      elim (Bool-cases (text_eq path path' && text_eq method method')) [
        | inl same ↦
            let here : path ≡ path' = (text_eq_iff path path').0 (ground (arith, same)) in
            let there : method ≡ method' = (text_eq_iff method method').0 (ground (arith, same)) in
            let taken : route_of method path registry ≡ some g = rw (here, there) old in
            absurd (ground (arith, free, taken))
        | inr other ↦ routes' method' path' ∙ rw other old
      ]

  handle_adds :
      (method path : Text) (handler : Handler B) (registry longer : Registry B)
      → handle method path handler registry ≡ some longer
      → route_of method path longer ≡ some handler
  handle_adds method path handler registry longer done =
      let (_, _, routes') =
        subst (Registers method path handler registry) done
          (handle_lem method path handler registry) in
      routes' method path ∙ rw (text_eq_refl path, text_eq_refl method) refl

  module _ (s : Server) where
    handle_all_keeps :
        (entries : List (Registration B)) (registry last : Registry B)
        → handle_all s entries registry ≡ some last
        → (method path : Text) (g : Handler B) → route_of method path registry ≡ some g
        → route_of method path last ≡ some g
    unfolding handle_all
    handle_all_keeps [] registry last done method path g old =
        subst (λ r. route_of method path r ≡ some g) (result_unique refl done) old
    handle_all_keeps (entry ∷ rest) registry last done method path g old =
        let guarded : Handler B = require_scope s entry.required entry.handler in
        elim (Option-cases (handle entry.method entry.path guarded registry)) [
          | inl e ↦ absurd (ground (arith, rw (e, handle_all) at done))
          | inr (longer, e) ↦
              handle_all_keeps rest longer last (rw (e, handle_all) at done) method path g
                (handle_keeps entry.method entry.path guarded registry longer e method path g old)
        ]

    -- Where a registration is done, its route has its handler behind its scope.
    abbrev pub Routed : Registry B → Registration B → Type 0
    Routed registry entry =
        route_of entry.method entry.path registry
        ≡ some (require_scope s entry.required entry.handler)

    handle_all-Routed :
        (entries : List (Registration B)) (registry last : Registry B)
        → handle_all s entries registry ≡ some last
        → All (Routed last) entries
    unfolding handle_all
    handle_all-Routed [] registry last done = tt
    handle_all-Routed (entry ∷ rest) registry last done =
        let guarded : Handler B = require_scope s entry.required entry.handler in
        elim (Option-cases (handle entry.method entry.path guarded registry)) [
          | inl e ↦ absurd (ground (arith, rw (e, handle_all) at done))
          | inr (longer, e) ↦
              let later : handle_all s rest longer ≡ some last = rw (e, handle_all) at done in
              (
                handle_all_keeps rest longer last later entry.method entry.path guarded
                    (handle_adds entry.method entry.path guarded registry longer e),
                handle_all-Routed rest longer last later,
              )
        ]

  -- `New` registers its whole table without a panic of its own or of the mux, for every service and
  -- every configuration: what it returns is, behind the wrappers, the mux of a registry in which each
  -- route of the table has its handler behind its scope.
  pub new_server-Routed :
      (service : Service) (json : Json B) (limit : ℕ → B → B) (s : Server)
      → (registry : Registry B) × (new_server service json limit s
          ≡ some (wrapped limit s registry))
        × All (Routed s registry) (routes service json)
  unfolding new_server text_eq text accepts
  new_server-Routed service json limit s =
      (_, refl, handle_all-Routed s (routes service json) [] _ refl)
