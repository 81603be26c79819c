-- ===== src/Process/Safety.antt =====
-- cmd/libvirt-rest-api/main.go with internal/config and internal/api: what a process serves, and
-- that it ends what it began.
use mathlib.Core.List.{Perm}
use libvirt_rest_api.Base.{
  ◌≡◌, refl, ◌∙◌, ◌⊎◌, inl, inr, true, false, List, [], ◌∷◌, ◌++◌, Option, none, some, Text,
  All-map, arith,
}
use libvirt_rest_api.Errors.{Error, Result, ok, err}
use libvirt_rest_api.Service.{Service, Call}
use libvirt_rest_api.Api.Http.{Request, Handler, State, final}
use libvirt_rest_api.Api.Auth.{is_public, has_credentials}
use libvirt_rest_api.Config.Tokens
use libvirt_rest_api.Api.Auth.Guard.{Authorized, authorization}
use libvirt_rest_api.Api.Keeps.Valid.{call_scope}
use libvirt_rest_api.Api.Routes.Table.{new_server, new_server-total}
use libvirt_rest_api.Api.Safety.{Since, Granted, server_calls_authorized}
use libvirt_rest_api.Config.{Config}
use libvirt_rest_api.Config.Listen.{is_loopback_listen_addr}
use libvirt_rest_api.Config.Load.{load, bool_env}
use libvirt_rest_api.Config.Sound.{
  load-Loaded, Allowed, by_credentials, by_waiver, by_loopback_waiver,
}
use libvirt_rest_api.Process.{
  World, HttpServer, Effect, connects, watches_signals, stops_watching, shuts_down, closes_service,
  listens, Exit, returned, server_of, http_server, await, serve, with_service, with_config, run,
  Wakeup, serve_ended, signalled,
}

-- The server that a process listens with was made of a configuration that Load let through.
pub record Configured {B : Type 0} (world : World B) (server : HttpServer B) : Type 0 where
  pub cfg : Config
  pub loaded : load world.getenv world.net world.visits ≡ ok cfg
  pub service : Service
  pub connected : world.connect cfg.libvirt_uri ≡ ok service
  pub handled : new_server service world.json world.limit (server_of cfg) ≡ some server.handler
  pub address : server.addr ≡ cfg.listen_addr

-- The runs of a process: nothing, a connection that fails, or a connection that is closed at the
-- end, after a server that listens while signals are watched.
pub data Orderly {B : Type 0} (world : World B) : Exit × List (Effect B) → Type 0 where
  not_begun : (e : Error) → Orderly world (returned (some e), [])
  not_connected :
      (e : Error) (uri : Text)
      → world.connect uri ≡ err e
      → Orderly world (returned (some e), connects uri ∷ [])
  served :
      (uri : Text) (server : HttpServer B) (o : Option Error) (middle : List (Effect B))
      → Configured world server
      → (middle ≡ []) ⊎ (middle ≡ shuts_down ∷ [])
      → Orderly world (
        returned o,
        connects uri
            ∷ watches_signals
            ∷ listens server
            ∷ (middle ++ stops_watching ∷ closes_service ∷ []),
      )

module _ {B : Type 0} (world : World B) where
  abbrev around : (uri : Text) → HttpServer B → Exit × List (Effect B) → Exit × List (Effect B)
  around uri server (exit, effects) = (
    exit,
    connects uri
        ∷ watches_signals
        ∷ listens server
        ∷ (effects ++ stops_watching ∷ closes_service ∷ []),
  )

  await-Orderly :
      (uri : Text) (server : HttpServer B) (w : Wakeup) (shutdown : Option Error)
      → Configured world server
      → Orderly world (around uri server (await w shutdown))
  unfolding await
  await-Orderly uri server (serve_ended true e) shutdown c = served uri server none [] c (inl refl)
  await-Orderly uri server (serve_ended false e) shutdown c =
      served uri server (some e) [] c (inl refl)
  await-Orderly uri server signalled shutdown c =
      served uri server shutdown (shuts_down ∷ []) c (inr refl)

  module _ (cfg : Config) (loaded : load world.getenv world.net world.visits ≡ ok cfg) where
    configured :
        (service : Service) (handler : Handler B)
        → world.connect cfg.libvirt_uri ≡ ok service
        → new_server service world.json world.limit (server_of cfg) ≡ some handler
        → Configured world (http_server cfg handler)
    unfolding http_server
    configured service handler connected handled = record {
      cfg = cfg;
      loaded = loaded;
      service = service;
      connected = connected;
      handled = handled;
      address = refl;
    }

    with_service-Orderly :
        (answer : Result Service)
        → world.connect cfg.libvirt_uri ≡ answer
        → Orderly world (with_service world cfg answer)
    unfolding serve
    with_service-Orderly (err e) connected = not_connected e cfg.libvirt_uri connected
    with_service-Orderly (ok service) connected =
        let (handler, handled) = new_server-total service world.json world.limit (server_of cfg) in
        rw handled (
          await-Orderly cfg.libvirt_uri (http_server cfg handler) world.wakeup world.shutdown
            (configured service handler connected handled))

  with_config-Orderly :
      (answer : Result Config)
      → load world.getenv world.net world.visits ≡ answer
      → Orderly world (with_config world answer)
  with_config-Orderly (err e) loaded = not_begun e
  with_config-Orderly (ok cfg) loaded = with_service-Orderly cfg loaded _ refl

  -- However the process is woken, it does not panic: it stops before it connects, or the
  -- connection fails, or it serves a configuration that Load let through with the handler that New
  -- makes of it, and stops watching signals and closes the connection at the end.
  pub run-Orderly : Orderly world (run world)
  unfolding run
  run-Orderly = with_config-Orderly _ refl

-- The environment waives the tokens, for every address or for a loopback address that it is.
abbrev pub Waived : {B : Type 0} → World B → Config → Type 0
Waived world cfg =
    (bool_env world.getenv "ALLOW_INSECURE_LISTEN" ≡ ok true)
    ⊎ ((is_loopback_listen_addr world.net cfg.listen_addr ≡ true)
        × (bool_env world.getenv "ALLOW_INSECURE_LOOPBACK_LISTEN" ≡ ok true))

-- The call needs no token, or the request has one that grants it.
abbrev pub Entitled : {B : Type 0} → Config → Request B → Call → Type 0
Entitled cfg r call =
    (is_public (call_scope call) ≡ true)
    ⊎ Authorized (server_of cfg) (call_scope call) (authorization r)

has_credentials-server_of :
    (cfg : Config) → has_credentials (server_of cfg) ≡ Tokens.has_credentials cfg
unfolding has_credentials Tokens.has_credentials server_of
has_credentials-server_of cfg = refl

Allowed-has_credentials :
    {B : Type 0} (world : World B) (cfg : Config)
    → Allowed world.getenv world.net cfg
    → ¬ Waived world cfg
    → has_credentials (server_of cfg) ≡ true
Allowed-has_credentials world cfg (by_credentials h) w = has_credentials-server_of cfg ∙ h
Allowed-has_credentials world cfg (by_waiver h) w = absurd (w (inl h))
Allowed-has_credentials world cfg (by_loopback_waiver l h) w = absurd (w (inr (l, h)))

Open-Entitled :
    {B : Type 0} (cfg : Config) (r : Request B) (call : Call)
    → has_credentials (server_of cfg) ≡ true
    → Granted (server_of cfg) r call
    → Entitled cfg r call
Open-Entitled cfg r call h (inl (inl open_)) = inl open_
Open-Entitled cfg r call h (inl (inr bare)) = absurd (ground arith)
Open-Entitled cfg r call h (inr a) = inr a

Since-map :
    {P Q : Call → Type 0}
    → ((call : Call) → P call → Q call)
    → (old calls : List Call) → Since P old calls
    → Since Q old calls
Since-map f old calls since = record {
  made = since.made;
  history = since.history;
  allowed = All-map f since.made since.allowed;
}

module _ {B : Type 0} (world : World B) (perm : (l : List (Text × Text)) → Perm (world.visits l) l)
    (server : HttpServer B) (configured : Configured world server) (r : Request B)
    (st : State) where
  -- Unless the environment waives the tokens for its address, a server that the process listens
  -- with makes for a request only calls that need no token or that the request's token grants.
  pub served_calls-Entitled :
      ¬ Waived world configured.cfg
      → Since (Entitled configured.cfg r) st.calls (final (server.handler r st)).calls
  served_calls-Entitled unwaived =
      let cfg = configured.cfg in
      let loaded = load-Loaded world.getenv world.net world.visits perm cfg configured.loaded in
      let secured = Allowed-has_credentials world cfg loaded.allowed unwaived in
      Since-map (λ call. Open-Entitled cfg r call secured) _ _
        (server_calls_authorized configured.service world.json world.limit (server_of cfg)
          server.handler configured.handled r st)
