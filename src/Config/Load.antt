-- ===== src/Config/Load.antt =====
-- internal/config/config.go: `Load`, from the environment to the configuration.
use libvirt_rest_api.Base.{
  is_set, ◌*◌, Bool, false, not, ◌||◌, List, [], ◌∷◌, Option, none, some, Text, text, if◌then◌else◌,
}
use Prim.Native.String.{String}
use libvirt_rest_api.Errors.{Error, Result, ok, err, ◌>>=◌, ◌>>◌, lit, lit_of, quoted, plain_error}
use libvirt_rest_api.Api.Validate.{parse_bool}
use libvirt_rest_api.Config.{Config, HttpTimeouts, second, Environment, Net, Visits, complaint}
use libvirt_rest_api.Config.Spaces.{trim_space}
use libvirt_rest_api.Config.Tokens.{has_credentials, validate_tokens}
use libvirt_rest_api.Config.Listen.{validate_listen_addr, is_loopback_listen_addr}
use libvirt_rest_api.Config.Origins.{parse_origins}

abbrev or_else : Text → Text → Text
or_else value fallback = if is_set value then value else fallback

unfoldable pub value_or_default : Environment → String → Text → Text
unfolding trim_space
value_or_default getenv key fallback = or_else (trim_space (getenv (text key))) fallback

-- With the error of `strconv.ParseBool`.
abbrev not_boolean : String → Text → Error
not_boolean key value = plain_error (
    lit (text key)
    ∷ lit (text " must be a boolean: strconv.ParseBool: parsing ")
    ∷ quoted value
    ∷ lit (text ": invalid syntax")
    ∷ [])

abbrev parsed_bool : String → Text → Option Bool → Result Bool
parsed_bool key value none = err (not_boolean key value)
parsed_bool key value (some b) = ok b

unfoldable pub bool_env : Environment → String → Result Bool
unfolding trim_space parse_bool
bool_env getenv key =
    let value = trim_space (getenv (text key)) in
    if not (is_set value) then ok false else parsed_bool key value (parse_bool value)

unfoldable pub http_timeouts : HttpTimeouts
http_timeouts = record {
  read_header = 5 * second;
  read = 15 * second;
  write = 30 * second;
  idle = 60 * second;
}

-- The literal of `Config`, and the assignment of its origins.
unfoldable pub read_config : Environment → List Text → Config
unfolding value_or_default http_timeouts
read_config getenv origins = record {
  libvirt_uri =
      value_or_default getenv "LIBVIRT_URI"
        (value_or_default getenv "QEMU_URI" (text "qemu:///system"));
  listen_addr = value_or_default getenv "LISTEN_ADDR" (text "127.0.0.1:8080");
  api_token = getenv (text "API_BEARER_TOKEN");
  read_token = getenv (text "API_READ_TOKEN");
  control_token = getenv (text "API_CONTROL_TOKEN");
  admin_token = getenv (text "API_ADMIN_TOKEN");
  cors_origins = origins;
  timeouts = http_timeouts;
}

abbrev pub without_credentials : Net → Config → Bool → Result Config
without_credentials net cfg allow_insecure_loopback =
    if is_loopback_listen_addr net cfg.listen_addr
    then (if allow_insecure_loopback
        then ok cfg
        else err (
            plain_error (
              lit_of
                "API_BEARER_TOKEN is required; for an unauthenticated loopback listener explicitly set ALLOW_INSECURE_LOOPBACK_LISTEN=true or ALLOW_INSECURE_LISTEN=true")))
    else err (
        complaint "API_BEARER_TOKEN is required for non-loopback LISTEN_ADDR " cfg.listen_addr
          "; ALLOW_INSECURE_LOOPBACK_LISTEN does not permit external listeners, so explicitly set ALLOW_INSECURE_LISTEN=true to disable authentication")

-- The end of `Load`: whether the configuration may go without credentials.
unfoldable pub admit : Net → Config → Bool → Bool → Result Config
unfolding has_credentials is_loopback_listen_addr
admit net cfg allow_insecure allow_insecure_loopback =
    if has_credentials cfg || allow_insecure
    then ok cfg
    else without_credentials net cfg allow_insecure_loopback

-- The part of `Load` that reads the two waivers.
unfoldable pub admitted : Environment → Net → Config → Result Config
unfolding bool_env admit
admitted getenv net cfg = do
  allow_insecure ← bool_env getenv "ALLOW_INSECURE_LISTEN"
  allow_insecure_loopback ← bool_env getenv "ALLOW_INSECURE_LOOPBACK_LISTEN"
  admit net cfg allow_insecure allow_insecure_loopback

-- The part of `Load` from the checks on.
unfoldable pub validated : Environment → Net → Visits → Config → Result Config
unfolding validate_tokens validate_listen_addr admitted
validated getenv net visits cfg = do
  validate_tokens visits cfg
  validate_listen_addr cfg.listen_addr
  admitted getenv net cfg

unfoldable pub load : Environment → Net → Visits → Result Config
unfolding parse_origins read_config validated
load getenv net visits = do
  origins ← parse_origins net (getenv (text "CORS_ORIGINS"))
  validated getenv net visits (read_config getenv origins)
