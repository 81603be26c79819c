-- ===== src/Api/Keeps/Guarded.antt =====
-- internal/api/server.go: the checks, the routes and the wrappers keep what the handlers keep. A
-- handler that is behind a scope is run only where the request may make the scope's calls.
use libvirt_rest_api.Base.{
  is_set, ◌≤◌, ◌≡◌, refl, subst, inl, inr, true, not, ◌||◌, [], ◌∷◌, Text, text, text_eq, cut,
  cut-eq, equal_fold, ltb, arith, Bool-cases, Option-cases,
}
use libvirt_rest_api.Service.{Call}
use libvirt_rest_api.Api.Http.{Request, Handler, State}
use libvirt_rest_api.Api.Auth.{
  Scope, rank, is_public, Server, has_credentials, scope_for_token, unauthorized, insufficient,
  require_scope, check_token, check_header,
}
use libvirt_rest_api.Api.Auth.Guard.{Authorized, Open, passes-Authorized, authorization}
use libvirt_rest_api.Api.Mux.{match_path, pattern_of}
use libvirt_rest_api.Api.Routes.{
  Methods, Registry, find_method, dispatch, serve_mux, effective_method,
}
use libvirt_rest_api.Api.Routes.Laws.{OptionAll, MethodsAll, RegistryAll, find_method-All}
use libvirt_rest_api.Api.Keeps.{
  Stable, Keeps, Keeps-bind, set_header-Keeps, write_error-Keeps, is_free,
}
use libvirt_rest_api.Api.Keeps.Handlers.{Allows}

www_authenticate-free : is_free (text "WWW-Authenticate") ≡ true
unfolding text_eq text
www_authenticate-free = refl

allow-free : is_free (text "Allow") ≡ true
unfolding text_eq text
allow-free = refl

module _ {I P : State → Type 0} {C : Call → Type 0} {Free : Text → Type 0}
    (stable : Stable I P C Free) where
  unauthorized-Keeps : Keeps I P unauthorized
  unauthorized-Keeps =
      Keeps-bind (set_header-Keeps stable _ _ www_authenticate-free)
        (λ _. write_error-Keeps stable _ _ _)

  insufficient-Keeps : Keeps I P insufficient
  insufficient-Keeps = write_error-Keeps stable _ _ _

module _ {I P : State → Type 0} {C : Call → Type 0} {Free : Text → Type 0}
    (stable : Stable I P C Free) (s : Server) (a : Text)
    (opened : (required : Scope) → Open s required a → Allows stable required) {B : Type 0} where
  -- The handler keeps the invariant on requests with the header.
  abbrev pub Behind : Handler B → Type 0
  Behind next = (r : Request B) → authorization r ≡ a → Keeps I P (next r)

  module _ (required : Scope) (next : Handler B) (r : Request B) (here : authorization r ≡ a)
      (inner : Allows stable required → Keeps I P (next r)) where
    enters : Open s required (authorization r) → Keeps I P (next r)
    enters open_ = inner (opened required (subst (Open s required) here open_))

    check_token-Keeps :
        (scheme token : Text)
        → (Allowed : (scope_for_token s token).1 ≡ true
            → rank required ≤ rank (scope_for_token s token).0
            → Authorized s required (authorization r))
        → Keeps I P (check_token required next r (scope_for_token s token))
    check_token-Keeps scheme token passes = elim (Bool-cases (scope_for_token s token).1) [
      | inl valid ↦ elim (Bool-cases (ltb (rank (scope_for_token s token).0) (rank required))) [
        | inl low ↦ rw (valid, low) (insufficient-Keeps stable)
        | inr high ↦ rw (valid, high) (enters (inr (passes valid (ground arith))))
      ]
      | inr invalid ↦ rw invalid (unauthorized-Keeps stable)
    ]

    check_header-Keeps : Keeps I P (check_header s required next r (cut b' ' (authorization r)))
    check_header-Keeps =
        let parts = cut b' ' (authorization r) in
        elim (Bool-cases
          (not parts.2 || not (equal_fold parts.0 (text "Bearer")) || not (is_set parts.1))) [
            | inl bad ↦ rw bad (unauthorized-Keeps stable)
            | inr good ↦
                let (carried, one_word) = cut-eq b' ' (authorization r) (ground arith) in
                rw good (
                  check_token-Keeps parts.0 parts.1 (
                    passes-Authorized s required r parts.0 parts.1 carried one_word (ground arith)))
          ]

    pub require_scope-Keeps : Keeps I P (require_scope s required next r)
    unfolding require_scope
    require_scope-Keeps = elim (Bool-cases (is_public required)) [
      | inl free ↦ rw (free, require_scope) (enters (inl (inl free)))
      | inr held ↦ elim (Bool-cases (has_credentials s)) [
        | inr bare ↦ rw (held, bare, require_scope) (enters (inl (inr bare)))
        | inl secured ↦ rw (held, secured, require_scope) check_header-Keeps
      ]
    ]

  dispatch-Behind : (methods : Methods B) → MethodsAll Behind methods → Behind (dispatch methods)
  unfolding dispatch
  dispatch-Behind methods h r here =
      elim (Option-cases (find_method (effective_method r.method) methods)) [
        | inl e ↦
            rw (e, dispatch)
              (Keeps-bind (set_header-Keeps stable _ _ allow-free)
                (λ _. write_error-Keeps stable _ _ _))
        | inr (handler, e) ↦
            rw (e, dispatch)
              (subst (OptionAll Behind) e
                (find_method-All Behind (effective_method r.method) methods h) r here)
      ]

  pub serve_mux-Behind :
      (registry : Registry B) → RegistryAll Behind registry → Behind (serve_mux registry)
  unfolding serve_mux
  serve_mux-Behind [] h r here = write_error-Keeps stable _ _ _
  serve_mux-Behind ((path, methods) ∷ rest) (first, others) r here =
      elim (Option-cases (match_path (pattern_of path) r.path)) [
        | inl e ↦ rw (e, serve_mux) (serve_mux-Behind rest others r here)
        | inr (values, e) ↦
            rw (e, serve_mux)
              (dispatch-Behind methods first (record r { path_values = values }) here)
      ]
