-- ===== src/Api/Auth.antt =====
-- internal/api/server.go: the bearer tokens, their scopes, and the check before a handler.
pub mod Guard
pub mod Laws
use libvirt_rest_api.Base.{
  ℕ, Bool, true, false, not, ◌&&◌, ◌||◌, List, [], ◌∷◌, Text, text, text_eq, cut, equal_fold, ltb,
  if◌then◌else◌, is_set,
}
use libvirt_rest_api.Errors.{lit_of}
use libvirt_rest_api.Api.Http.{Request, Handler, M, ◌>>◌, ◌>>=◌, set_header, write_error}

pub data Scope : Type 0 where
  scope_public scope_read scope_control scope_admin : Scope

-- The values of the constants, which `<` compares.
abbrev pub rank : Scope → ℕ
rank scope_public = 0
rank scope_read = 1
rank scope_control = 2
rank scope_admin = 3

abbrev pub is_public : Scope → Bool
is_public scope_public = true
is_public _ = false

pub record Server : Type 0 where
  pub bearer_token : Text
  pub read_token : Text
  pub control_token : Text
  pub admin_token : Text
  pub allowed_origins : List Text

unfoldable pub has_credentials : Server → Bool
has_credentials s =
    is_set s.bearer_token || is_set s.read_token || is_set s.control_token || is_set s.admin_token

-- The loop over the candidates. `ConstantTimeCompare` is 1 exactly on equal texts.
unfoldable pub first_match : Text → List (Text × Scope) → Scope × Bool
first_match token [] = (scope_public, false)
first_match token ((candidate, scope) ∷ rest) =
    if is_set candidate && text_eq token candidate then (scope, true) else first_match token rest

unfoldable pub scope_for_token : Server → Text → Scope × Bool
unfolding first_match
scope_for_token s token = first_match token (
    (s.read_token, scope_read)
    ∷ (s.control_token, scope_control)
    ∷ (s.bearer_token, scope_admin)
    ∷ (s.admin_token, scope_admin)
    ∷ [])

abbrev pub unauthorized : M (Unit {0})
unauthorized = do
  set_header (text "WWW-Authenticate") (text "Bearer realm=\"libvirt-rest-api\"")
  write_error 401 (text "unauthorized") (lit_of "a valid bearer token is required")

abbrev pub insufficient : M (Unit {0})
insufficient =
    write_error 403 (text "insufficient_scope")
      (lit_of "the bearer token does not grant the required scope")

-- The end of `requireScope`, with the answer of `scopeForToken`.
abbrev pub check_token : {B : Type 0} → Scope → Handler B → Request B → Scope × Bool → M (Unit {0})
check_token required next r (provided_scope, valid) =
    if not valid
    then unauthorized
    else (if ltb (rank provided_scope) (rank required) then insufficient else next r)

-- Its middle, with the parts of the Authorization header.
abbrev pub check_header :
    {B : Type 0} → Server → Scope → Handler B → Request B → Text × Text × Bool → M (Unit {0})
check_header s required next r (scheme, provided, found) =
    if not found || not (equal_fold scheme (text "Bearer")) || not (is_set provided)
    then unauthorized
    else check_token required next r (scope_for_token s provided)

unfoldable pub require_scope : {B : Type 0} → Server → Scope → Handler B → Handler B
require_scope s required next r =
    if is_public required || not (has_credentials s)
    then next r
    else check_header s required next r (cut b' ' (r.header (text "Authorization")))
