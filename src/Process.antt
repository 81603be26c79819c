-- ===== src/Process.antt =====
-- cmd/libvirt-rest-api/main.go: the process, from its configuration to its exit. What the outside
-- does is a `World`: the environment, whether libvirt can be connected to, and what wakes `run`.
pub mod Safety
pub mod Tokens
mod Tests
use libvirt_rest_api.Base.{
  ℕ, Bool, true, false, List, [], ◌∷◌, ◌++◌, Option, none, some, Text, if◌then◌else◌,
}
use libvirt_rest_api.Errors.{Error, Result, ok, err}
use libvirt_rest_api.Service.{Service}
use libvirt_rest_api.Api.Http.{Handler}
use libvirt_rest_api.Api.Auth.{Server}
use libvirt_rest_api.Api.Decode.{Json}
use libvirt_rest_api.Api.Routes.Table.{new_server}
use libvirt_rest_api.Config.{Config, Environment, Net, Visits}
use libvirt_rest_api.Config.Load.{load}

-- The first thing that `select` sees: the end of `ListenAndServe` with its error, and whether
-- `errors.Is` finds `http.ErrServerClosed` in it, or a signal.
pub data Wakeup : Type 0 where
  serve_ended : (closed : Bool) → Error → Wakeup
  signalled : Wakeup

pub record World (B : Type 0) : Type 0 where
  pub getenv : Environment
  pub net : Net
  pub visits : Visits
  pub connect : Text → Result Service
  pub json : Json B
  pub limit : ℕ → B → B
  pub wakeup : Wakeup
  -- The error of `server.Shutdown`.
  pub shutdown : Option Error

-- `http.Server`.
pub record HttpServer (B : Type 0) : Type 0 where
  pub addr : Text
  pub handler : Handler B
  pub read_header_timeout : ℕ
  pub read_timeout : ℕ
  pub write_timeout : ℕ
  pub idle_timeout : ℕ
  pub max_header_bytes : ℕ

pub data Effect (B : Type 0) : Type 0 where
  connects : (uri : Text) → Effect B
  watches_signals stops_watching shuts_down closes_service : Effect B
  listens : HttpServer B → Effect B

-- What a call returns, or that it panics.
pub data Exit : Type 0 where
  returned : Option Error → Exit
  panicked : Exit

-- The options that `run` gives to `New`, in the server that `New` makes of them.
unfoldable pub server_of : Config → Server
server_of cfg = record {
  bearer_token = cfg.api_token;
  read_token = cfg.read_token;
  control_token = cfg.control_token;
  admin_token = cfg.admin_token;
  allowed_origins = cfg.cors_origins;
}

module _ {B : Type 0} where
  unfoldable pub http_server : Config → Handler B → HttpServer B
  http_server cfg handler = record {
    addr = cfg.listen_addr;
    handler = handler;
    read_header_timeout = cfg.timeouts.read_header;
    read_timeout = cfg.timeouts.read;
    write_timeout = cfg.timeouts.write;
    idle_timeout = cfg.timeouts.idle;
    max_header_bytes = 1048576;
  }

  -- The `select` and its two cases.
  unfoldable pub await : Wakeup → Option Error → Exit × List (Effect B)
  await (serve_ended closed e) shutdown =
      if closed then (returned none, []) else (returned (some e), [])
  await signalled shutdown = (returned shutdown, shuts_down ∷ [])

  -- The server that `New` gave, until the process is woken; then the deferred calls.
  unfoldable pub serve : World B → Config → Option (Handler B) → Exit × List (Effect B)
  unfolding http_server await
  serve world cfg none = (panicked, closes_service ∷ [])
  serve world cfg (some handler) =
      let (exit, effects) = await world.wakeup world.shutdown in
      (
        exit,
        watches_signals
            ∷ listens (http_server cfg handler)
            ∷ (effects ++ stops_watching ∷ closes_service ∷ []),
      )

  abbrev pub with_service : World B → Config → Result Service → Exit × List (Effect B)
  with_service world cfg (err e) = (returned (some e), connects cfg.libvirt_uri ∷ [])
  with_service world cfg (ok service) =
      let (exit, effects) =
        serve world cfg (new_server service world.json world.limit (server_of cfg)) in
      (exit, connects cfg.libvirt_uri ∷ effects)

  abbrev pub with_config : World B → Result Config → Exit × List (Effect B)
  with_config world (err e) = (returned (some e), [])
  with_config world (ok cfg) = with_service world cfg (world.connect cfg.libvirt_uri)

  unfoldable pub run : World B → Exit × List (Effect B)
  unfolding server_of serve
  run world = with_config world (load world.getenv world.net world.visits)

-- The status that the process ends with.
unfoldable pub exit_status : Exit → ℕ
exit_status (returned none) = 0
exit_status (returned (some _)) = 1
exit_status panicked = 2
