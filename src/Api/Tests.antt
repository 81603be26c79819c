-- ===== src/Api/Tests.antt =====
-- A server with three tokens, a service with one machine, and requests to it.
use libvirt_rest_api.Base.{
  All, ◌≡◌, ◌≤◌, ◌≢◌, arith, refl, inr, true, some, none, [], ◌∷◌, ◌++◌, Text, text, text_eq,
  text_eq_iff, has_byte, equal_fold, if◌then◌else◌, cut,
}
use libvirt_rest_api.Api.Fixtures.{service, json, limit, start_request, fresh}
use libvirt_rest_api.Service.{start}
use libvirt_rest_api.Api.Http.{
  Request, Handler, panicked, final, status_of, ◌>>=◌, write_error, write_json, path_value,
}
use libvirt_rest_api.Api.Middleware.{recover_panic, access_log, security_headers, cors}
use libvirt_rest_api.Api.Middleware.Origins.{CorsOutcome, cors-CorsOutcome}
use libvirt_rest_api.Api.Validate.{valid_snapshot_name, valid_snapshot_lookup_name, name_bytes}
use libvirt_rest_api.Api.Validate.Names.{valid_snapshot_name-lookup}
use libvirt_rest_api.Api.Routes.Registration.{IsPlainPath, Registers, handle-Registers}
use libvirt_rest_api.Api.Mux.{accepts, match_path, pattern_of}
use libvirt_rest_api.Api.Routes.{Registry, handle, serve_mux}
use libvirt_rest_api.Api.Auth.{
  Server, Scope, scope_control, has_credentials, rank, scope_for_token, require_scope,
}
use libvirt_rest_api.Api.Auth.Laws.{Grants, as_read, as_control, as_bearer, as_admin}
use libvirt_rest_api.Api.Auth.Guard.{Authorized, Denies, require_scope-Denies, require_scope_admits}
use libvirt_rest_api.Api.Handlers.Power.{vm_start}
use libvirt_rest_api.Api.Routes.Table.{new_server, wrapped, routes}
use libvirt_rest_api.Api.Routes.Complete.{Routed, new_server-Routed}
use libvirt_rest_api.Api.Keeps.Valid.{Valid}
use libvirt_rest_api.Api.Safety.{Since, Granted, server_calls_authorized, server_calls-Valid}
use libvirt_rest_api.Api.Safety.Headers.{SentSecured, responses_secured}
use libvirt_rest_api.Api.Answered.{IsAnswered}
use libvirt_rest_api.Api.Answered.Served.{new_server_answers}

abbrev tokens : Server
tokens = record {
  bearer_token = [];
  read_token = text "r1";
  control_token = text "c1";
  admin_token = text "a1";
  allowed_origins = [];
}

abbrev serve : Handler Text
serve = elim (new_server service json limit tokens) [ none ↦ λ r st. panicked st | some h ↦ h ]

serve_built : new_server service json limit tokens ≡ some serve
unfolding new_server text text_eq accepts
serve_built = refl

abbrev control_request : Request Text
control_request = start_request (text "bearer c1")

-- The token for reading does not start a machine, the token for control does.
read_token_refused : status_of (final (serve (start_request (text "Bearer r1")) fresh)) ≡ some 403
unfolding new_server ◌>>=◌ text text_eq recover_panic access_log security_headers cors serve_mux
    match_path pattern_of require_scope has_credentials cut equal_fold scope_for_token write_error
    accepts
read_token_refused = refl

control_token_starts : (final (serve control_request fresh)).calls ≡ start (text "vm1") ∷ []
unfolding new_server ◌>>=◌ text text_eq recover_panic access_log security_headers cors serve_mux
    match_path pattern_of require_scope has_credentials cut equal_fold scope_for_token write_json
    path_value accepts
control_token_starts = refl

control_least : (other : Scope) → Grants tokens (text "c1") other → 2 ≤ rank other
unfolding text text_eq
control_least other (as_read e) =
    let wrong : text_eq (text "r1") (text "c1") ≡ true =
      (text_eq_iff (text "r1") (text "c1")).1 e in
    ground arith
control_least other (as_control e) = omega arith
control_least other (as_bearer e) = omega arith
control_least other (as_admin e) = omega arith

authorized_start : Authorized tokens scope_control (text "bearer c1")
unfolding text has_byte equal_fold
authorized_start = record {
  scheme = text "bearer";
  token = text "c1";
  carried = refl;
  one_word = refl;
  bearer = refl;
  given = λ e. cc;
  scope = scope_control;
  known = as_control refl;
  enough = control_least;
}

not_empty : (s t : Text) → [] ≢ s ++ b' ' ∷ t
not_empty [] t e = cc
not_empty (c ∷ s) t e = cc

no_token : ¬ Authorized tokens scope_control []
no_token a = not_empty a.scheme a.token a.carried

require_scope-Denies_example :
    Denies fresh (require_scope tokens scope_control (vm_start service) (start_request []) fresh)
unfolding has_credentials text text_eq
require_scope-Denies_example =
    require_scope-Denies tokens scope_control (start_request []) (vm_start service) fresh refl
      no_token refl refl

require_scope_admits_example :
    require_scope tokens scope_control (vm_start service) control_request
    ≡ vm_start service control_request
unfolding text_eq text
require_scope_admits_example =
    require_scope_admits tokens scope_control control_request (vm_start service)
      (inr authorized_start)

server_calls_authorized_example :
    Since (Granted tokens control_request) [] (final (serve control_request fresh)).calls
server_calls_authorized_example =
    server_calls_authorized service json limit tokens serve serve_built control_request fresh

server_calls-Valid_example : Since Valid [] (final (serve control_request fresh)).calls
server_calls-Valid_example =
    server_calls-Valid service json limit tokens serve serve_built control_request fresh

responses_secured_example : SentSecured (final (serve control_request fresh)).writer.sent
responses_secured_example =
    responses_secured service json limit tokens serve serve_built control_request fresh refl

new_server_answers_example : IsAnswered (final (serve control_request fresh))
new_server_answers_example =
    new_server_answers service json limit tokens serve serve_built control_request fresh

-- A preflight from an origin that is configured.
abbrev web_server : Server
web_server = record tokens { allowed_origins = text "https://vm.example" ∷ [] }

abbrev preflight_request : Request Text
preflight_request = record (start_request []) {
  method = text "OPTIONS";
  header = λ key. if text_eq key (text "Origin") then text "https://vm.example" else [];
}

cors-CorsOutcome_example :
    CorsOutcome web_server
      (vm_start service)
      preflight_request
      fresh
      (cors web_server (vm_start service) preflight_request fresh)
cors-CorsOutcome_example =
    cors-CorsOutcome web_server (vm_start service) preflight_request fresh refl

preflight_answered :
    status_of (final (cors web_server (vm_start service) preflight_request fresh)) ≡ some 204
unfolding cors ◌>>=◌ text text_eq
preflight_answered = refl

nightly_valid : valid_snapshot_name (text "nightly-1") ≡ true
unfolding valid_snapshot_name name_bytes text
nightly_valid = refl

valid_snapshot_name-lookup_example : valid_snapshot_lookup_name (text "nightly-1") ≡ true
valid_snapshot_name-lookup_example = valid_snapshot_name-lookup (text "nightly-1") nightly_valid

abbrev one_route : Registry Text
one_route = (text "/a", (text "GET", vm_start service) ∷ []) ∷ []

plain_path : IsPlainPath (text "/a")
unfolding text
plain_path = (refl, (omega arith, tt))

handle-Registers_example :
    Registers
      (text "POST")
      (text "/a")
      (vm_start service)
      one_route
      (handle (text "POST") (text "/a") (vm_start service) one_route)
handle-Registers_example =
    handle-Registers (text "POST") (text "/a") (vm_start service) one_route plain_path

new_server-Routed_example :
    (registry : Registry Text) × (new_server service json limit tokens
      ≡ some (wrapped limit tokens registry))
    × All (Routed tokens registry) (routes service json)
new_server-Routed_example = new_server-Routed service json limit tokens
