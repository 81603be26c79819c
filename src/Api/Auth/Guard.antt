-- ===== src/Api/Auth/Guard.antt =====
-- Which requests reach a handler behind `requireScope`.
use libvirt_rest_api.Base.{
  is_set, ◌≤◌, ◌≡◌, refl, ◌≢◌, ◌⊎◌, inl, inr, true, false, not, ◌||◌, [], ◌∷◌, ◌++◌, none, some,
  arith, Text, text, cut, cut-eq, cut-append, has_byte, equal_fold, ltb, Bool-cases, ap, ◌∙◌,
}
use libvirt_rest_api.Api.Http.{Request, Handler, ◌>>=◌, State, Flow, final, status_of, write_error}
use libvirt_rest_api.Api.Auth.{
  Scope, rank, is_public, Server, has_credentials, scope_for_token, unauthorized, insufficient,
  require_scope, check_token, check_header,
}
use libvirt_rest_api.Api.Auth.Laws.{Grants, scope_for_token-least, scope_for_token-known}

module _ (s : Server) (required : Scope) (authorization : Text) where
  -- The header carries a bearer token that was configured, and every scope that it was configured
  -- for suffices.
  pub record Authorized : Type 0 where
    pub scheme : Text
    pub token : Text
    pub carried : authorization ≡ scheme ++ b' ' ∷ token
    pub one_word : has_byte b' ' scheme ≡ false
    pub bearer : equal_fold scheme (text "Bearer") ≡ true
    pub given : token ≢ []
    pub scope : Scope
    pub known : Grants s token scope
    pub enough : (other : Scope) → Grants s token other → rank required ≤ rank other

  -- What lets a handler run: a public route, a server without credentials, or a token.
  abbrev pub Open : Type 0
  Open = ((is_public required ≡ true) ⊎ (has_credentials s ≡ false)) ⊎ Authorized

is_set-ne : (token : Text) → is_set token ≡ true → token ≢ []
is_set-ne [] h = cc
is_set-ne (c ∷ rest) h = ground arith

is_set-given : (token : Text) → token ≢ [] → is_set token ≡ true
is_set-given [] h = absurd (h refl)
is_set-given (c ∷ rest) h = refl

-- The answers that `requireScope` gives itself: nothing is asked of the service.
abbrev pub Denies : State → Flow (Unit {0}) → Type 0
Denies st result =
    ((final result).calls ≡ st.calls)
    × ((status_of (final result) ≡ some 401) ⊎ (status_of (final result) ≡ some 403))

unauthorized-Denies : (st : State) → st.writer.sent ≡ none → Denies st (unauthorized st)
unfolding write_error ◌>>=◌
unauthorized-Denies st fresh = ground arith

insufficient-Denies : (st : State) → st.writer.sent ≡ none → Denies st (insufficient st)
unfolding write_error ◌>>=◌
insufficient-Denies st fresh = ground arith

abbrev pub authorization : {B : Type 0} → Request B → Text
authorization r = r.header (text "Authorization")

module _ {B : Type 0} (s : Server) (required : Scope) (r : Request B) where
  -- What the header and the token must satisfy for the handler to run.
  pub passes-Authorized :
      (scheme token : Text)
      → (authorization r) ≡ scheme ++ b' ' ∷ token
      → has_byte b' ' scheme ≡ false
      → equal_fold scheme (text "Bearer") ≡ true
      → (scope_for_token s token).1 ≡ true
      → rank required ≤ rank (scope_for_token s token).0
      → Authorized s required (authorization r)
  passes-Authorized scheme token carried one_word bearer valid high =
      let (given, known, least) = scope_for_token-least s token valid in
      record {
        scheme = scheme;
        token = token;
        carried = carried;
        one_word = one_word;
        bearer = bearer;
        given = given;
        scope = (scope_for_token s token).0;
        known = known;
        enough = λ other g. omega (arith, least other g);
      }

  module _ (next : Handler B) (st : State) (fresh : st.writer.sent ≡ none)
      (no_token : ¬ Authorized s required (authorization r)) where
    check_token-Denies :
        (scheme token : Text)
        → (authorization r) ≡ scheme ++ b' ' ∷ token
        → has_byte b' ' scheme ≡ false
        → equal_fold scheme (text "Bearer") ≡ true
        → Denies st (check_token required next r (scope_for_token s token) st)
    check_token-Denies scheme token carried one_word bearer =
        elim (Bool-cases (scope_for_token s token).1) [
          | inl valid ↦ elim (Bool-cases (ltb (rank (scope_for_token s token).0) (rank required))) [
            | inl low ↦ rw (valid, low) (insufficient-Denies st fresh)
            | inr high ↦ absurd (
                no_token
                  (passes-Authorized scheme token carried one_word bearer valid (ground arith)))
          ]
          | inr invalid ↦ rw invalid (unauthorized-Denies st fresh)
        ]

    check_header-Denies : Denies st (check_header s required next r (cut b' ' (authorization r)) st)
    check_header-Denies =
        let parts = cut b' ' (authorization r) in
        elim (Bool-cases
          (not parts.2 || not (equal_fold parts.0 (text "Bearer")) || not (is_set parts.1))) [
            | inl bad ↦ rw bad (unauthorized-Denies st fresh)
            | inr good ↦
                let (carried, one_word) = cut-eq b' ' (authorization r) (ground arith) in
                rw good (check_token-Denies parts.0 parts.1 carried one_word (ground arith))
          ]

    -- Behind a scope no handler runs without a token that grants it: the answer is 401 or 403, and
    -- the service is not asked for anything.
    pub require_scope-Denies :
        is_public required ≡ false
        → has_credentials s ≡ true
        → Denies st (require_scope s required next r st)
    unfolding require_scope
    require_scope-Denies protected secured = rw (protected, secured) check_header-Denies

  check_token-next :
      (next : Handler B) (token : Text)
      → token ≢ []
      → (scope : Scope) → Grants s token scope
      → ((other : Scope) → Grants s token other → rank required ≤ rank other)
      → check_token required next r (scope_for_token s token) ≡ next r
  check_token-next next token given scope known enough =
      let valid = scope_for_token-known s token given known in
      let (_, least, _) = scope_for_token-least s token valid in
      let high : ltb (rank (scope_for_token s token).0) (rank required) ≡ false =
        ground (arith, enough (scope_for_token s token).0 least) in
      rw (valid, high)

  check_header-next :
      (next : Handler B)
      → Authorized s required (authorization r)
      → check_header s required next r (cut b' ' (authorization r)) ≡ next r
  check_header-next next a =
      let here : cut b' ' (authorization r) ≡ (a.scheme, a.token, true) =
        ap (cut b' ') a.carried ∙ cut-append b' ' a.scheme a.token a.one_word in
      let set : is_set a.token ≡ true = is_set-given a.token a.given in
      rw (here, a.bearer, set) (check_token-next next a.token a.given a.scope a.known a.enough)

  -- A token that grants the scope lets the handler run, and so do public routes and a server
  -- without credentials.
  pub require_scope_admits :
      (next : Handler B)
      → Open s required (authorization r)
      → require_scope s required next r ≡ next r
  unfolding require_scope
  require_scope_admits next (inl (inl open_)) = rw open_
  require_scope_admits next (inl (inr bare)) = elim (Bool-cases (is_public required)) [
    | inl free ↦ rw free
    | inr held ↦ rw (held, bare)
  ]
  require_scope_admits next (inr a) =
      elim (Bool-cases (is_public required || not (has_credentials s))) [
        | inl free ↦ rw free
        | inr held ↦ rw held (check_header-next next a)
      ]
