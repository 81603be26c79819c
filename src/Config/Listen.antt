-- ===== src/Config/Listen.antt =====
-- internal/config/config.go: the listen address, with `net.SplitHostPort` and `IP.IsLoopback`.
use libvirt_rest_api.Base.{
  ℕ, Bool, false, not, ◌&&◌, ◌||◌, List, [], ◌∷◌, Option, none, some, Text, cut, has_byte,
  parse_uint, ◌==◌, if◌then◌else◌,
}
use libvirt_rest_api.Errors.{Result, ok, err}
use libvirt_rest_api.Config.{Net, complaint}

-- After the closing bracket of a host in brackets.
abbrev bracketed : Text × Text × Bool → Option (Text × Text)
bracketed (host, [], found) = none
bracketed (host, c ∷ port, found) =
    if not found
      || not (c == b':')
      || has_byte b':' port
      || has_byte b'[' host
      || has_byte b'[' port
      || has_byte b']' port
    then none
    else some (host, port)

-- Around the only colon.
abbrev unbracketed : Text × Text × Bool → Option (Text × Text)
unbracketed (host, port, found) =
    if not found
      || has_byte b':' port
      || has_byte b'[' host
      || has_byte b'[' port
      || has_byte b']' host
      || has_byte b']' port
    then none
    else some (host, port)

unfoldable pub split_host_port : Text → Option (Text × Text)
split_host_port [] = none
split_host_port (c ∷ rest) =
    if c == b'[' then bracketed (cut b']' rest) else unbracketed (cut b':' (c ∷ rest))

-- An IPv4 address in sixteen bytes is recognised by its first twelve.
unfoldable pub is_loopback : List ℕ → Bool
is_loopback (a ∷ _ ∷ _ ∷ _ ∷ []) = a == 127
is_loopback (a ∷ b ∷ c ∷ d ∷ e ∷ f ∷ g ∷ h ∷ i ∷ j ∷ k ∷ l ∷ m ∷ n ∷ o ∷ p ∷ []) =
    let zeros =
      a == 0
      && b == 0
      && c == 0
      && d == 0
      && e == 0
      && f == 0
      && g == 0
      && h == 0
      && i == 0
      && j == 0 in
    zeros
    && (k == 255 && l == 255 && m == 127
        || k == 0 && l == 0 && m == 0 && n == 0 && o == 0 && p == 1)
is_loopback _ = false

abbrev pub checked_port : Text → Option ℕ → Result (Unit {0})
checked_port addr none = err (complaint "LISTEN_ADDR has an invalid port: " addr "")
checked_port addr (some _) = ok tt

abbrev pub checked_addr : Text → Option (Text × Text) → Result (Unit {0})
checked_addr addr none = err (complaint "LISTEN_ADDR must be a host:port address: " addr "")
checked_addr addr (some (host, [])) =
    err (complaint "LISTEN_ADDR must be a host:port address: " addr "")
checked_addr addr (some (host, d ∷ port)) = checked_port addr (parse_uint 16 (d ∷ port))

unfoldable pub validate_listen_addr : Text → Result (Unit {0})
unfolding split_host_port
validate_listen_addr addr = checked_addr addr (split_host_port addr)

abbrev loopback_ip : Option (List ℕ) → Bool
loopback_ip none = false
loopback_ip (some ip) = is_loopback ip

abbrev loopback_host : Net → Option (Text × Text) → Bool
loopback_host net none = false
loopback_host net (some (host, _)) = loopback_ip (net.parse_ip host)

unfoldable pub is_loopback_listen_addr : Net → Text → Bool
unfolding split_host_port is_loopback
is_loopback_listen_addr net addr = loopback_host net (split_host_port addr)
