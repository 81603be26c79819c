-- ===== src/Config/Sound.antt =====
-- internal/config/config.go: what `Load` lets through.
use mathlib.Core.List.{Perm}
use libvirt_rest_api.Base.{
  ℕ, ◌≡◌, refl, sym, ap, subst, ◌∙◌, inl, inr, Bool, true, false, List, [], ◌∷◌, Option, none, some,
  Text, text, parse_uint, arith, Bool-cases,
}
use libvirt_rest_api.Errors.{Result, ok, err, ◌>>=◌}
use libvirt_rest_api.Config.{Config, Environment, Net, Visits}
use libvirt_rest_api.Config.Tokens.{has_credentials, validate_tokens, token_entries}
use libvirt_rest_api.Config.Tokens.Laws.{Acceptable, validate_tokens_iff}
use libvirt_rest_api.Config.Listen.{
  split_host_port, checked_addr, checked_port, validate_listen_addr, is_loopback_listen_addr,
}
use libvirt_rest_api.Config.Origins.{parse_origins}
use libvirt_rest_api.Config.Origins.Laws.{accepted, listed_origins, parse_origins-eq}
use libvirt_rest_api.Config.Load.{
  without_credentials, bool_env, read_config, admit, admitted, validated, load,
}

-- A host and a port of 16 bits.
pub record IsListenAddr (addr : Text) : Type 0 where
  pub host : Text
  pub port : Text
  pub number : ℕ
  pub parts : split_host_port addr ≡ some (host, port)
  pub numeric : parse_uint 16 port ≡ some number

-- Why a configuration may be served: it has a token, or the environment waives it, for any address
-- or for this one.
pub data Allowed (getenv : Environment) (net : Net) (cfg : Config) : Type 0 where
  by_credentials : has_credentials cfg ≡ true → Allowed getenv net cfg
  by_waiver : bool_env getenv "ALLOW_INSECURE_LISTEN" ≡ ok true → Allowed getenv net cfg
  by_loopback_waiver :
      is_loopback_listen_addr net cfg.listen_addr ≡ true
      → bool_env getenv "ALLOW_INSECURE_LOOPBACK_LISTEN" ≡ ok true
      → Allowed getenv net cfg

pub record Loaded (getenv : Environment) (net : Net) (cfg : Config) : Type 0 where
  pub as_read : cfg ≡ read_config getenv cfg.cors_origins
  pub origins : listed_origins net (getenv (text "CORS_ORIGINS")) ≡ some cfg.cors_origins
  pub tokens : Acceptable (token_entries cfg)
  pub address : IsListenAddr cfg.listen_addr
  pub allowed : Allowed getenv net cfg

bind-ok :
    {A B : Type 0} (m : Result A) (f : A → Result B) (b : B)
    → (m >>= f) ≡ ok b
    → (a : A) × (m ≡ ok a) × (f a ≡ ok b)
bind-ok (ok a) f b h = (a, refl, h)
bind-ok (err e) f b h = absurd (ground arith)

checked_port-some :
    (addr : Text) (number : Option ℕ)
    → checked_port addr number ≡ ok tt
    → (n : ℕ) × (number ≡ some n)
checked_port-some addr none h = absurd (ground arith)
checked_port-some addr (some n) h = (n, refl)

checked_addr-IsListenAddr :
    (addr : Text) (parts : Option (Text × Text))
    → split_host_port addr ≡ parts
    → checked_addr addr parts ≡ ok tt
    → IsListenAddr addr
checked_addr-IsListenAddr addr none e h = absurd (ground arith)
checked_addr-IsListenAddr addr (some (host, [])) e h = absurd (ground arith)
checked_addr-IsListenAddr addr (some (host, d ∷ port)) e h =
    let (number, numeric) = checked_port-some addr (parse_uint 16 (d ∷ port)) h in
    record { host = host; port = d ∷ port; number = number; parts = e; numeric = numeric }

validate_listen_addr-IsListenAddr :
    (addr : Text) → validate_listen_addr addr ≡ ok tt → IsListenAddr addr
unfolding validate_listen_addr
validate_listen_addr-IsListenAddr addr h = checked_addr-IsListenAddr addr _ refl h

as_read_lem :
    (getenv : Environment) (origins : List Text)
    → read_config getenv origins ≡ read_config getenv (read_config getenv origins).cors_origins
unfolding read_config
as_read_lem getenv origins = refl

ok-eq : {A : Type 0} {a b : A} → Path (Result A) (ok a) (ok b) → a ≡ b
ok-eq h = cc

module _ (getenv : Environment) (net : Net) where
  admit-loopback :
      (cfg cfg' : Config) (b : Bool)
      → bool_env getenv "ALLOW_INSECURE_LOOPBACK_LISTEN" ≡ ok b
      → without_credentials net cfg b ≡ ok cfg'
      → (cfg ≡ cfg') × Allowed getenv net cfg
  admit-loopback cfg cfg' b eb h = elim (Bool-cases (is_loopback_listen_addr net cfg.listen_addr)) [
    | inr l ↦ absurd (ground arith)
    | inl l ↦ elim (Bool-cases b) [
      | inl e ↦ (ok-eq (rw (l, e) at h), by_loopback_waiver l (eb ∙ ap ok e))
      | inr e ↦ absurd (ground arith)
    ]
  ]

  admit-Allowed :
      (cfg cfg' : Config) (a b : Bool)
      → bool_env getenv "ALLOW_INSECURE_LISTEN" ≡ ok a
      → bool_env getenv "ALLOW_INSECURE_LOOPBACK_LISTEN" ≡ ok b
      → admit net cfg a b ≡ ok cfg'
      → (cfg ≡ cfg') × Allowed getenv net cfg
  unfolding admit
  admit-Allowed cfg cfg' true b ea eb h = elim (Bool-cases (has_credentials cfg)) [
    | inl c ↦ (ok-eq (rw c at h), by_credentials c)
    | inr c ↦ (ok-eq (rw c at h), by_waiver ea)
  ]
  admit-Allowed cfg cfg' false b ea eb h = elim (Bool-cases (has_credentials cfg)) [
    | inl c ↦ (ok-eq (rw c at h), by_credentials c)
    | inr c ↦ admit-loopback cfg cfg' b eb (rw c at h)
  ]

  admitted-Allowed :
      (cfg cfg' : Config)
      → admitted getenv net cfg ≡ ok cfg'
      → (cfg ≡ cfg') × Allowed getenv net cfg
  unfolding admitted
  admitted-Allowed cfg cfg' h =
      let (a, ea, h₁) = bind-ok (bool_env getenv "ALLOW_INSECURE_LISTEN") _ cfg' h in
      let (b, eb, h₂) = bind-ok (bool_env getenv "ALLOW_INSECURE_LOOPBACK_LISTEN") _ cfg' h₁ in
      admit-Allowed cfg cfg' a b ea eb h₂

  module _ (visits : Visits) (perm : (l : List (Text × Text)) → Perm (visits l) l) where
    validated-Allowed :
        (cfg cfg' : Config)
        → validated getenv net visits cfg ≡ ok cfg'
        → (cfg ≡ cfg')
          × Acceptable (token_entries cfg)
          × IsListenAddr cfg.listen_addr
          × Allowed getenv net cfg
    unfolding validated
    validated-Allowed cfg cfg' h =
        let (_, tokens, h₁) = bind-ok (validate_tokens visits cfg) _ cfg' h in
        let (_, address, h₂) = bind-ok (validate_listen_addr cfg.listen_addr) _ cfg' h₁ in
        let (same, allowed) = admitted-Allowed cfg cfg' h₂ in
        (
          same,
          (validate_tokens_iff visits perm cfg).0 tokens,
          validate_listen_addr-IsListenAddr cfg.listen_addr address,
          allowed,
        )

    -- What Load returns is what it has read: the origins are those that the variable lists, no
    -- token has a space in it and no two that are set are the same, the address is a host and a
    -- port of 16 bits, and a configuration without a token is let through only if
    -- ALLOW_INSECURE_LISTEN is true, or the host is a loopback address and
    -- ALLOW_INSECURE_LOOPBACK_LISTEN is true.
    pub load-Loaded : (cfg : Config) → load getenv net visits ≡ ok cfg → Loaded getenv net cfg
    unfolding load
    load-Loaded cfg h =
        let raw = getenv (text "CORS_ORIGINS") in
        let (origins, listed, h₁) = bind-ok (parse_origins net raw) _ cfg h in
        let (same, tokens, address, allowed) =
          validated-Allowed (read_config getenv origins) cfg h₁ in
        subst (Loaded getenv net) same (record {
          as_read = as_read_lem getenv origins;
          origins = sym (parse_origins-eq net raw) ∙ ap accepted listed;
          tokens = tokens;
          address = address;
          allowed = allowed;
        })
