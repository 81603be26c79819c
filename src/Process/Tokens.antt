-- ===== src/Process/Tokens.antt =====
-- internal/config/config.go with internal/api/server.go: what the configured tokens grant.
use libvirt_rest_api.Base.{
  ◌≡◌, ◌≢◌, refl, sym, ◌&&◌, Bool, true, false, [], ◌∷◌, Text, text_eq, text_eq_iff, text_eq_refl,
  is_set, arith,
}
use libvirt_rest_api.Api.Auth.{
  Scope, scope_read, scope_control, scope_admin, first_match, scope_for_token,
}
use libvirt_rest_api.Config.{Config, Environment, Net}
use libvirt_rest_api.Config.Tokens.{token_entries}
use libvirt_rest_api.Config.Tokens.Laws.{Acceptable}
use libvirt_rest_api.Config.Sound.{Loaded}
use libvirt_rest_api.Process.{server_of}

-- The four variables that hold a token.
pub data Role : Type 0 where
  bearer reader controller admin : Role

abbrev pub token_of : Config → Role → Text
token_of cfg bearer = cfg.api_token
token_of cfg reader = cfg.read_token
token_of cfg controller = cfg.control_token
token_of cfg admin = cfg.admin_token

abbrev pub scope_of : Role → Scope
scope_of bearer = scope_admin
scope_of reader = scope_read
scope_of controller = scope_control
scope_of admin = scope_admin

differ-text_eq : (s t : Text) → is_set s ≡ true → (is_set t ≡ true → t ≢ s) → text_eq s t ≡ false
differ-text_eq s [] h d = ground (arith, text_eq_iff s [])
differ-text_eq s (c ∷ t) h d = ground (arith, d refl, text_eq_iff s (c ∷ t))

and_false : (b : Bool) → (b && false) ≡ false
and_false b = ground arith

distinct_scope :
    (cfg : Config)
    → Acceptable (token_entries cfg)
    → (role : Role) → is_set (token_of cfg role) ≡ true
    → scope_for_token (server_of cfg) (token_of cfg role) ≡ (scope_of role, true)
unfolding scope_for_token first_match server_of
distinct_scope cfg (clean, apart) reader h = rw (h, text_eq_refl cfg.read_token)
distinct_scope cfg (clean, apart) controller h =
    let read = differ-text_eq cfg.control_token cfg.read_token h apart.1.0.0 in
    simp (read, and_false, h, text_eq_refl cfg.control_token)
distinct_scope cfg (clean, apart) bearer h =
    let read = differ-text_eq cfg.api_token cfg.read_token h (λ _ e. apart.0.0 h (sym e)) in
    let control = differ-text_eq cfg.api_token cfg.control_token h (λ _ e. apart.0.1.0 h (sym e)) in
    simp (read, control, and_false, h, text_eq_refl cfg.api_token)
distinct_scope cfg (clean, apart) admin h =
    let read = differ-text_eq cfg.admin_token cfg.read_token h apart.1.0.1.0 in
    let control = differ-text_eq cfg.admin_token cfg.control_token h apart.1.1.0.0 in
    let bearer = differ-text_eq cfg.admin_token cfg.api_token h apart.0.1.1.0 in
    simp (read, control, bearer, and_false, h, text_eq_refl cfg.admin_token)

-- Each token that is set in a configuration that Load let through grants the scope that it was
-- configured for, and no other: the bearer token and the admin token that of an administrator.
pub configured_scope :
    (getenv : Environment) (net : Net) (cfg : Config)
    → Loaded getenv net cfg
    → (role : Role) → is_set (token_of cfg role) ≡ true
    → scope_for_token (server_of cfg) (token_of cfg role) ≡ (scope_of role, true)
configured_scope getenv net cfg loaded role h = distinct_scope cfg loaded.tokens role h
