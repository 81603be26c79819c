-- ===== src/Config.antt =====
-- internal/config/config.go: the configuration as it is read from the environment. `url.Parse` and
-- `net.ParseIP` are parameters (`Net`), and so is the order in which Go visits a map.
pub mod Spaces
pub mod Listen
pub mod Tokens
pub mod Origins
pub mod Load
pub mod Sound
use libvirt_rest_api.Base.{
  ℕ, ◌*◌, Bool, true, false, ◌||◌, List, [], ◌∷◌, Option, none, some, Text, text,
}
use Prim.Native.String.{String}
use libvirt_rest_api.Errors.{Error, lit, quoted, plain_error}

-- Durations are in nanoseconds.
abbrev pub second : ℕ
second = 1000000000

pub record HttpTimeouts : Type 0 where
  pub read_header : ℕ
  pub read : ℕ
  pub write : ℕ
  pub idle : ℕ

pub record Config : Type 0 where
  pub libvirt_uri : Text
  pub listen_addr : Text
  pub api_token : Text
  pub read_token : Text
  pub control_token : Text
  pub admin_token : Text
  pub cors_origins : List Text
  pub timeouts : HttpTimeouts

-- `os.Getenv`: an unset variable is the empty text.
abbrev pub Environment : Type 0
Environment = Text → Text

-- The fields of `url.URL` that are read; `user` says whether it is not nil.
pub record Url : Type 0 where
  pub scheme : Text
  pub user : Bool
  pub host : Text
  pub path : Text
  pub raw_query : Text
  pub fragment : Text

-- `net.ParseIP` gives the four or sixteen bytes of an address.
pub record Net : Type 0 where
  pub parse_url : Text → Option Url
  pub parse_ip : Text → Option (List ℕ)

-- The order in which `range` visits the entries of a map.
abbrev pub Visits : Type 0
Visits = List (Text × Text) → List (Text × Text)

-- `fmt.Errorf` with no `%w`.
abbrev pub complaint : String → Text → String → Error
complaint before value after =
    plain_error (lit (text before) ∷ quoted value ∷ lit (text after) ∷ [])
