-- ===== src/Api/Keeps/Served.antt =====
-- internal/api/server.go: the server that `New` builds keeps what its handlers keep, for the table
-- of routes as it stands.
use libvirt_rest_api.Base.{
  is_set, ℕ, ◌≡◌, refl, sym, subst, true, not, Option, none, some, List, [], ◌∷◌, ◌++◌, Text, text,
  text_eq, All, All-append,
}
use libvirt_rest_api.Service.{Service, Call}
use libvirt_rest_api.Api.Http.{
  Request, Handler, State, Flow, done, panicked, final, ◌>>=◌, set_header,
}
use libvirt_rest_api.Api.Auth.{Scope, Server, require_scope}
use libvirt_rest_api.Api.Auth.Guard.{Open, authorization}
use libvirt_rest_api.Api.Validate.{one_of}
use libvirt_rest_api.Api.Middleware.{cors, security_headers, access_log, recover_panic, recover}
use libvirt_rest_api.Api.Routes.{Registry, paths_of, serve_mux}
use libvirt_rest_api.Api.Mux.{accepts}
use libvirt_rest_api.Api.Routes.Table.{
  Registration, handle_all, routes, query_routes, later_routes, action_routes, with_fallback,
  new_server,
}
use libvirt_rest_api.Api.Keeps.{
  Stable, Holds, Keeps, Keeps-bind, Keeps-if, set_header-Keeps, write_header-Keeps,
  write_error-Keeps, log_line-Keeps, is_free,
}
use libvirt_rest_api.Api.Decode.{Json}
use libvirt_rest_api.Api.Routes.Laws.{OptionAll, OptionAll-if, RegistryAll, handle_all-All}
use libvirt_rest_api.Api.Keeps.Handlers.{
  Allows, health-Keeps, ready_handler-Keeps, host_handler-Keeps, host_stats_handler-Keeps,
  list_vms-Keeps, vm-Keeps, vm_stats-Keeps, vm_interfaces-Keeps, vm_autostart-Keeps,
  set_vm_autostart-Keeps, vm_xml-Keeps, vm_viewer-Keeps, vm_screenshot-Keeps,
  list_vm_snapshots-Keeps,
}
use libvirt_rest_api.Api.Keeps.Changes.{
  create_vm_snapshot-Keeps, revert_vm_snapshot-Keeps, delete_vm_snapshot-Keeps,
}
use libvirt_rest_api.Api.Keeps.Actions.{
  vm_start-Keeps, vm_stop-Keeps, vm_pause-Keeps, vm_resume-Keeps, vm_reset-Keeps, vm_shutdown-Keeps,
  vm_reboot-Keeps, events-Keeps,
}
use libvirt_rest_api.Api.Keeps.Guarded.{Behind, require_scope-Keeps, serve_mux-Behind}

origin-free : is_free (text "Access-Control-Allow-Origin") ≡ true
unfolding text_eq text
origin-free = refl

vary-free : is_free (text "Vary") ≡ true
unfolding text_eq text
vary-free = refl

allow_headers-free : is_free (text "Access-Control-Allow-Headers") ≡ true
unfolding text_eq text
allow_headers-free = refl

allow_methods-free : is_free (text "Access-Control-Allow-Methods") ≡ true
unfolding text_eq text
allow_methods-free = refl

-- The state in which `securityHeaders` calls the next handler.
abbrev pub armed_state : State → State
armed_state st = final (
    set_header (text "Referrer-Policy") (text "no-referrer") (
      final (
        set_header (text "X-Frame-Options") (text "DENY")
          (final (set_header (text "X-Content-Type-Options") (text "nosniff") st)))))

module _ {I P : State → Type 0} {C : Call → Type 0} {Free : Text → Type 0}
    (stable : Stable I P C Free) (s : Server) (a : Text)
    (opened : (required : Scope) → Open s required a → Allows stable required) {B : Type 0} where
  abbrev Fits : Handler B → Type 0
  Fits next = Behind stable s a opened next

  -- What the handler of a registration keeps, behind its scope.
  abbrev Registered : Registration B → Type 0
  Registered entry = (r : Request B) → Allows stable entry.required → Keeps I P (entry.handler r)

  Registered-Fits :
      (entries : List (Registration B))
      → All Registered entries
      → All (λ entry. Fits (require_scope s entry.required entry.handler)) entries
  Registered-Fits [] h = tt
  Registered-Fits (entry ∷ rest) (first, others) = (
    λ r here. require_scope-Keeps stable s a opened entry.required entry.handler r here (first r),
    Registered-Fits rest others,
  )

  module _ (service : Service) (json : Json B) where
    query_routes-Registered : All Registered (query_routes service)
    query_routes-Registered = (
      λ r _. health-Keeps stable service r,
      (
        λ r. ready_handler-Keeps stable service r,
        (
          λ r. host_handler-Keeps stable service r,
          (
            λ r. host_stats_handler-Keeps stable service r,
            (
              λ r. list_vms-Keeps stable service r,
              (
                λ r. events-Keeps stable service r,
                (
                  λ r. vm-Keeps stable service r,
                  (
                    λ r. vm_stats-Keeps stable service r,
                    (
                      λ r. vm_interfaces-Keeps stable service r,
                      (λ r. vm_autostart-Keeps stable service r, tt),
                    ),
                  ),
                ),
              ),
            ),
          ),
        ),
      ),
    )

    later_routes-Registered : All Registered (later_routes service json)
    later_routes-Registered = (
      λ r. set_vm_autostart-Keeps stable service r json,
      (
        λ r. list_vm_snapshots-Keeps stable service r,
        (
          λ r. create_vm_snapshot-Keeps stable service r json,
          (
            λ r. revert_vm_snapshot-Keeps stable service r json,
            (
              λ r. delete_vm_snapshot-Keeps stable service r,
              (
                λ r. vm_xml-Keeps stable service r,
                (
                  λ r. vm_viewer-Keeps stable service r,
                  (λ r. vm_screenshot-Keeps stable service r, tt),
                ),
              ),
            ),
          ),
        ),
      ),
    )

    action_routes-Registered : All Registered (action_routes service json)
    action_routes-Registered = (
      λ r. vm_start-Keeps stable service r,
      (
        λ r. vm_shutdown-Keeps stable service r json,
        (
          λ r. vm_reboot-Keeps stable service r json,
          (
            λ r. vm_pause-Keeps stable service r,
            (
              λ r. vm_resume-Keeps stable service r,
              (λ r. vm_reset-Keeps stable service r, (λ r. vm_stop-Keeps stable service r, tt)),
            ),
          ),
        ),
      ),
    )

    routes-Registered : All Registered (routes service json)
    unfolding routes
    routes-Registered =
        All-append Registered (query_routes service)
          (later_routes service json ++ action_routes service json) query_routes-Registered
          (All-append Registered (later_routes service json) (action_routes service json)
            later_routes-Registered action_routes-Registered)

  cors-Behind : (next : Handler B) → Fits next → Fits (cors s next)
  unfolding cors
  cors-Behind next fits r here = Keeps-if (not (is_set (r.header (text "Origin")))) (fits r here) (
      Keeps-if (not (one_of s.allowed_origins (r.header (text "Origin"))))
        (write_error-Keeps stable _ _ _)
        (Keeps-bind (set_header-Keeps stable _ _ origin-free) (λ _.
          Keeps-bind (set_header-Keeps stable _ _ vary-free) (λ _.
            Keeps-bind (set_header-Keeps stable _ _ allow_headers-free) (λ _.
              Keeps-bind (set_header-Keeps stable _ _ allow_methods-free) (λ _.
                Keeps-if (text_eq r.method (text "OPTIONS")) (write_header-Keeps stable _)
                  (fits r here)))))))

  module _ {J : State → Type 0} (armed : (st : State) → J st → I (armed_state st))
      (limit : ℕ → B → B) where
    -- The invariant holds when a handler is done with a request, given what `J` asks before.
    abbrev pub Served : Handler B → Type 0
    Served serve =
        (r : Request B) → authorization r ≡ a → (st : State) → J st → Holds I P (serve r st)

    logged-Served :
        (next : Handler B) → Fits next → Served (access_log (security_headers limit next))
    unfolding access_log security_headers ◌>>=◌
    logged-Served next fits r here st h =
        let r' : Request B = record r { body = limit 1048576 r.body } in
        (Keeps-bind (fits r' here) (λ _. log_line-Keeps stable _)).kept (armed_state st)
          (armed st h)

    -- The server that `New` builds recovers from the panics of a handler that keeps the invariant.
    abbrev pub Recovering : Handler B → Type 0
    Recovering serve = (next : Handler B) × (serve ≡ recover_panic next) × Served next

    pub new_server-Recovering :
        (service : Service) (json : Json B) (serve : Handler B)
        → new_server service json limit s ≡ some serve
        → Recovering serve
    unfolding new_server
    new_server-Recovering service json serve e = subst (OptionAll Recovering) e (
        built (handle_all s (routes service json) []) (
          handle_all-All Fits s (routes service json) []
            (Registered-Fits (routes service json) (routes-Registered service json)) tt))
      where
        built :
            (registry : Option (Registry B))
            → OptionAll (RegistryAll Fits) registry
            → OptionAll Recovering (with_fallback limit s registry)
        built none h = tt
        built (some registry) h =
            OptionAll-if Recovering (accepts (paths_of registry) (text "/")) _ _
              (
                access_log (security_headers limit (cors s (serve_mux registry))),
                refl,
                logged-Served (cors s (serve_mux registry)) (
                    cors-Behind (serve_mux registry)
                      (serve_mux-Behind stable s a opened registry h)),
              )
              tt

    module _ (back : (st : State) → P st → I st) where
      recovered : (flow : Flow (Unit {0})) → Holds I P flow → Holds I P (recover flow)
      recovered (done _ st) h = h
      recovered (panicked st) h =
          (Keeps-bind (log_line-Keeps stable _) (λ _. write_error-Keeps stable _ _ _)).kept st
            (back st h)

      pub new_server-Served :
          (service : Service) (json : Json B) (serve : Handler B)
          → new_server service json limit s ≡ some serve
          → Served serve
      unfolding recover_panic
      new_server-Served service json serve e r here st h =
          let (next, same, served) = new_server-Recovering service json serve e in
          subst (λ f. Holds I P (f r st)) (sym same) (recovered (next r st) (served r here st h))
