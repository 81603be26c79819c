-- ===== src/Api/Answered/Served.antt =====
-- internal/api/server.go: the server that `New` builds answers every request.
use libvirt_rest_api.Base.{
  is_set, ℕ, ◌≡◌, subst, inl, inr, Bool, not, ◌||◌, Option, none, some, List, [], ◌∷◌, Text, text,
  text_eq, cut, equal_fold, ltb, Option-cases, All,
}
use libvirt_rest_api.Service.{Service}
use libvirt_rest_api.Api.Http.{Request, Handler, State, Flow, done, panicked, final}
use libvirt_rest_api.Api.Auth.{
  Scope, rank, is_public, Server, has_credentials, scope_for_token, require_scope, check_token,
  check_header,
}
use libvirt_rest_api.Api.Validate.{one_of}
use libvirt_rest_api.Api.Middleware.{
  cors, security_headers, access_log, recover_panic, recover, max_request_body,
}
use libvirt_rest_api.Api.Decode.{Json}
use libvirt_rest_api.Api.Mux.{accepts, match_path, pattern_of}
use libvirt_rest_api.Api.Routes.{
  paths_of, Methods, Registry, find_method, dispatch, serve_mux, effective_method,
}
use libvirt_rest_api.Api.Routes.Laws.{
  OptionAll, OptionAll-if, MethodsAll, RegistryAll, find_method-All, handle_all-All,
}
use libvirt_rest_api.Api.Routes.Table.{with_fallback, Registration, handle_all, routes, new_server}
use libvirt_rest_api.Api.Answered.{
  IsAnswered, Answers, Quiet-Answers, Answers-Lasting, Answers-if, set_header-Quiet, log_line-Quiet,
  log_line-Lasting, write_header-Answers, write_error-Answers,
}
use libvirt_rest_api.Api.Answered.Table.{AlwaysAnswers, Answering, routes-Answering}

recovered : (flow : Flow (Unit {0})) → IsAnswered (final flow) → IsAnswered (final (recover flow))
recovered (done _ st) h = h
recovered (panicked st) h =
    (Quiet-Answers (log_line-Quiet _) (λ _. write_error-Answers _ _ _)).answered st

module _ {B : Type 0} where
  dispatch-Answers :
      (methods : Methods B) → MethodsAll AlwaysAnswers methods → AlwaysAnswers (dispatch methods)
  unfolding dispatch
  dispatch-Answers methods h r =
      elim (Option-cases (find_method (effective_method r.method) methods)) [
        | inl e ↦
            rw (e, dispatch) (Quiet-Answers (set_header-Quiet _ _) (λ _. write_error-Answers _ _ _))
        | inr (handler, e) ↦
            rw (e, dispatch)
              (subst (OptionAll AlwaysAnswers) e
                (find_method-All AlwaysAnswers (effective_method r.method) methods h) r)
      ]

  serve_mux-Answers :
      (registry : Registry B)
      → RegistryAll AlwaysAnswers registry
      → AlwaysAnswers (serve_mux registry)
  unfolding serve_mux
  serve_mux-Answers [] h r = write_error-Answers _ _ _
  serve_mux-Answers ((path, methods) ∷ rest) (first, others) r =
      elim (Option-cases (match_path (pattern_of path) r.path)) [
        | inl e ↦ rw (e, serve_mux) (serve_mux-Answers rest others r)
        | inr (values, e) ↦
            rw (e, serve_mux) (dispatch-Answers methods first (record r { path_values = values }))
      ]

  module _ (s : Server) where
    check_token-Answers :
        (required : Scope) (next : Handler B)
        → AlwaysAnswers next
        → (r : Request B) (outcome : Scope × Bool) → Answers (check_token required next r outcome)
    check_token-Answers required next h r (provided, valid) =
        Answers-if (not valid)
          (Quiet-Answers (set_header-Quiet _ _) (λ _. write_error-Answers _ _ _))
          (Answers-if (ltb (rank provided) (rank required)) (write_error-Answers _ _ _) (h r))

    check_header-Answers :
        (required : Scope) (next : Handler B)
        → AlwaysAnswers next
        → (r : Request B) (parts : Text × Text × Bool)
        → Answers (check_header s required next r parts)
    check_header-Answers required next h r (scheme, token, found) =
        Answers-if (not found || not (equal_fold scheme (text "Bearer")) || not (is_set token))
          (Quiet-Answers (set_header-Quiet _ _) (λ _. write_error-Answers _ _ _))
          (check_token-Answers required next h r (scope_for_token s token))

    require_scope-Answers :
        (required : Scope) (next : Handler B)
        → AlwaysAnswers next
        → AlwaysAnswers (require_scope s required next)
    unfolding require_scope
    require_scope-Answers required next h r =
        Answers-if (is_public required || not (has_credentials s)) (h r)
          (check_header-Answers required next h r (cut b' ' (r.header (text "Authorization"))))

    cors-Answers : (next : Handler B) → AlwaysAnswers next → AlwaysAnswers (cors s next)
    unfolding cors
    cors-Answers next h r = Answers-if (not (is_set (r.header (text "Origin")))) (h r) (
        Answers-if (not (one_of s.allowed_origins (r.header (text "Origin"))))
          (write_error-Answers _ _ _)
          (Quiet-Answers (set_header-Quiet _ _) (λ _. Quiet-Answers (set_header-Quiet _ _) (λ _.
            Quiet-Answers (set_header-Quiet _ _) (λ _. Quiet-Answers (set_header-Quiet _ _) (λ _.
              Answers-if (text_eq r.method (text "OPTIONS")) (write_header-Answers _) (h r)))))))

    Answering-guarded :
        (entries : List (Registration B))
        → All Answering entries
        → All (λ entry. AlwaysAnswers (require_scope s entry.required entry.handler)) entries
    Answering-guarded [] h = tt
    Answering-guarded (entry ∷ rest) (first, others) =
        (require_scope-Answers entry.required entry.handler first, Answering-guarded rest others)

  security_headers-Answers :
      (limit : ℕ → B → B) (next : Handler B)
      → AlwaysAnswers next
      → AlwaysAnswers (security_headers limit next)
  unfolding security_headers
  security_headers-Answers limit next h r = Quiet-Answers (set_header-Quiet _ _) (λ _.
      Quiet-Answers (set_header-Quiet _ _) (λ _.
        Quiet-Answers (set_header-Quiet _ _)
          (λ _. h (record r { body = limit max_request_body r.body }))))

  access_log-Answers : (next : Handler B) → AlwaysAnswers next → AlwaysAnswers (access_log next)
  unfolding access_log
  access_log-Answers next h r = Answers-Lasting (h r) (λ _. log_line-Lasting _)

  recover_panic-Answers :
      (next : Handler B) → AlwaysAnswers next → AlwaysAnswers (recover_panic next)
  unfolding recover_panic
  recover_panic-Answers next h r = record {
    answered = λ st. recovered (next r st) ((h r).answered st);
  }

  wrapped-Answers :
      (limit : ℕ → B → B) (next : Handler B)
      → AlwaysAnswers next
      → AlwaysAnswers (recover_panic (access_log (security_headers limit next)))
  wrapped-Answers limit next h =
      recover_panic-Answers (access_log (security_headers limit next))
        (access_log-Answers (security_headers limit next) (security_headers-Answers limit next h))

  module _ (service : Service) (json : Json B) (limit : ℕ → B → B) (s : Server)
      (serve : Handler B) where
    built :
        (registry : Option (Registry B))
        → OptionAll (RegistryAll AlwaysAnswers) registry
        → OptionAll AlwaysAnswers (with_fallback limit s registry)
    built none h = tt
    built (some registry) h =
        OptionAll-if AlwaysAnswers (accepts (paths_of registry) (text "/")) _ _
          (wrapped-Answers limit (cors s (serve_mux registry))
            (cors-Answers s (serve_mux registry) (serve_mux-Answers registry h)))
          tt

    -- Every request is answered: when the server is done with it, by a return or by a panic, a
    -- status line is out.
    pub new_server_answers :
        new_server service json limit s ≡ some serve
        → (r : Request B) (st : State) → IsAnswered (final (serve r st))
    unfolding new_server
    new_server_answers e r st =
        (subst (OptionAll AlwaysAnswers) e
            (built (handle_all s (routes service json) []) (
              handle_all-All AlwaysAnswers s (routes service json) []
                (Answering-guarded s (routes service json) (routes-Answering service json)) tt))
            r).answered
          st
