-- ===== src/Process/Tests.antt =====
-- A process that is started with two tokens, and one that serves a loopback address without any.
use mathlib.Core.List.{Perm}
use mathlib.Core.List.Perm
use libvirt_rest_api.Base.{
  arith, ◌≡◌, ◌↔◌, inl, inr, refl, Bool, true, false, List, [], ◌∷◌, none, some, Text, text,
  text_eq, if◌then◌else◌, has_byte, parse_uint, cut,
}
use libvirt_rest_api.Errors.{Result, ok, err}
use libvirt_rest_api.Api.Http.{Handler, final}
use libvirt_rest_api.Api.Auth.{scope_read, scope_for_token}
use libvirt_rest_api.Api.Routes.Table.{new_server-total}
use libvirt_rest_api.Api.Safety.{Since}
use libvirt_rest_api.Api.Fixtures.{service, json, limit, start_request, fresh}
use libvirt_rest_api.Config.{Config, Environment, Net, Visits}
use libvirt_rest_api.Config.Tokens.{validate_tokens, token_entries}
use libvirt_rest_api.Config.Tokens.Laws.{Acceptable, validate_tokens_iff}
use libvirt_rest_api.Config.Origins.{parse_origins}
use libvirt_rest_api.Config.Origins.Laws.{accepted, listed_origins, parse_origins-eq}
use libvirt_rest_api.Config.Load.{load, read_config, bool_env}
use libvirt_rest_api.Config.Sound.{Loaded, load-Loaded}
use libvirt_rest_api.Process.{World, signalled, HttpServer, http_server, server_of, run}
use libvirt_rest_api.Process.Tokens.{reader, configured_scope}
use libvirt_rest_api.Process.Safety.{
  Orderly, run-Orderly, Configured, Waived, Entitled, served_calls-Entitled,
}

abbrev is_ok {ℓ} : {A : Type ℓ} → Result A → Bool
is_ok (ok _) = true
is_ok (err _) = false

-- The environment of the tests: a list of variables.
abbrev variable : List (Text × Text) → Environment
variable [] key = []
variable ((name, value) ∷ rest) key = if text_eq name key then value else variable rest key

abbrev two_tokens : Environment
two_tokens = variable (
    (text "API_READ_TOKEN", text "r")
    ∷ (text "API_ADMIN_TOKEN", text "a")
    ∷ (text "LISTEN_ADDR", text " 0.0.0.0:80")
    ∷ (text "CORS_ORIGINS", text "http://a, http://a")
    ∷ [])

abbrev no_net : Net
no_net = record {
  parse_url = λ s. some (record {
    scheme = text "http";
    user = false;
    host = text "a";
    path = [];
    raw_query = [];
    fragment = [];
  });
  parse_ip = λ s. none;
}

abbrev in_order : Visits
in_order l = l

abbrev two_origins : List Text
two_origins = text "http://a" ∷ []

abbrev loaded_config : Config
loaded_config = read_config two_tokens two_origins

two_tokens-load : load two_tokens no_net in_order ≡ ok loaded_config
unfolding load text text_eq cut has_byte parse_uint
two_tokens-load = refl

-- The same without tokens is refused, and for an address that is no loopback one the waiver for
-- loopback addresses changes nothing.
no_tokens_refused :
    is_ok (
      load
        (variable (
          (text "LISTEN_ADDR", text "0.0.0.0:80")
          ∷ (text "ALLOW_INSECURE_LOOPBACK_LISTEN", text "true")
          ∷ []))
        no_net
        in_order)
    ≡ false
unfolding load text text_eq cut has_byte parse_uint
no_tokens_refused = refl

in_order-perm : (l : List (Text × Text)) → Perm (in_order l) l
in_order-perm l = Perm.refl l

validate_tokens_iff_example :
    (validate_tokens in_order loaded_config ≡ ok tt) ↔ Acceptable (token_entries loaded_config)
validate_tokens_iff_example = validate_tokens_iff in_order in_order-perm loaded_config

parse_origins-eq_example :
    accepted (parse_origins no_net (text "http://a, http://a"))
    ≡ listed_origins no_net (text "http://a, http://a")
parse_origins-eq_example = parse_origins-eq no_net (text "http://a, http://a")

load-Loaded_example : Loaded two_tokens no_net loaded_config
load-Loaded_example =
    load-Loaded two_tokens no_net in_order in_order-perm loaded_config two_tokens-load

configured_scope_example : scope_for_token (server_of loaded_config) (text "r") ≡ (scope_read, true)
unfolding read_config text text_eq
configured_scope_example =
    configured_scope two_tokens no_net loaded_config load-Loaded_example reader refl

abbrev world : World Text
world = record {
  getenv = two_tokens;
  net = no_net;
  visits = in_order;
  connect = λ uri. ok service;
  json = json;
  limit = limit;
  wakeup = signalled;
  shutdown = none;
}

run-Orderly_example : Orderly world (run world)
run-Orderly_example = run-Orderly world

abbrev handler : Handler Text
handler = (new_server-total service json limit (server_of loaded_config)).0

abbrev server : HttpServer Text
server = http_server loaded_config handler

world_configured : Configured world server
unfolding http_server
world_configured = record {
  cfg = loaded_config;
  loaded = two_tokens-load;
  service = service;
  connected = refl;
  handled = (new_server-total service json limit (server_of loaded_config)).1;
  address = refl;
}

world_unwaived : ¬ Waived world loaded_config
unfolding bool_env text text_eq
world_unwaived (inl h) = ground arith
world_unwaived (inr h) = ground arith

served_calls-Entitled_example :
    Since
      (Entitled loaded_config (start_request (text "Bearer r")))
      []
      (final (handler (start_request (text "Bearer r")) fresh)).calls
unfolding http_server world_configured read_config
served_calls-Entitled_example =
    served_calls-Entitled world in_order-perm server world_configured
      (start_request (text "Bearer r")) fresh world_unwaived
