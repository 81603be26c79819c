-- ===== src/Api/Safety/Tests.antt =====
-- A service with a snapshot that cannot be encoded.
use libvirt_rest_api.Base.{
  ◌≡◌, ◌*◌, ◌^◌, refl, false, some, none, [], ◌∷◌, Text, text, text_eq, equal_fold, cut,
}
use libvirt_rest_api.Errors.{ok}
use libvirt_rest_api.Api.Fixtures.{answer, json, limit, start_request, fresh}
use libvirt_rest_api.Service.{Snapshot, Call, Answer, Service, list_snapshots}
use libvirt_rest_api.Api.Http.{
  Request, Handler, panicked, final, status_of, ◌>>=◌, write_error, write_json, path_value,
  panic_recovered,
}
use libvirt_rest_api.Api.Middleware.{recover_panic, access_log, security_headers, cors}
use libvirt_rest_api.Api.Mux.{accepts, match_path, pattern_of}
use libvirt_rest_api.Api.Routes.{serve_mux}
use libvirt_rest_api.Api.Auth.{Server, has_credentials, scope_for_token, require_scope}
use libvirt_rest_api.Api.Routes.Table.{new_server}

abbrev tokens : Server
tokens = record {
  bearer_token = [];
  read_token = text "r1";
  control_token = [];
  admin_token = [];
  allowed_origins = [];
}

-- A snapshot of the year 10000.
abbrev late : Snapshot
late = record {
  name = text "s1";
  description = [];
  parent = [];
  state = text "running";
  created_at = some (253402300800 * 10 ^ 9);
  current = false;
}

abbrev late_answer : (call : Call) → Answer call
late_answer (list_snapshots _) = ok (late ∷ [])
late_answer call = answer call

abbrev late_service : Service
late_service history call = late_answer call

abbrev late_serve : Handler Text
late_serve = elim (new_server late_service json limit tokens) [
  | none ↦ λ r st. panicked st
  | some h ↦ h
]

abbrev list_request : Request Text
list_request = record (start_request (text "Bearer r1")) {
  method = text "GET";
  path = text "api" ∷ text "v1" ∷ text "vms" ∷ text "vm1" ∷ text "snapshots" ∷ [];
}

-- The panic is recovered, but the status line was out: the error goes out under 200.
late_answered : status_of (final (late_serve list_request fresh)) ≡ some 200
unfolding new_server ◌>>=◌ text text_eq recover_panic access_log security_headers cors serve_mux
    match_path pattern_of require_scope has_credentials cut equal_fold scope_for_token write_json
    write_error path_value accepts
late_answered = refl

late_logged : (final (late_serve list_request fresh)).log ≡ panic_recovered ∷ []
unfolding new_server ◌>>=◌ text text_eq recover_panic access_log security_headers cors serve_mux
    match_path pattern_of require_scope has_credentials cut equal_fold scope_for_token write_json
    write_error path_value accepts
late_logged = refl
