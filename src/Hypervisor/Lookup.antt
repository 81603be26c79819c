-- ===== src/Hypervisor/Lookup.antt =====
-- internal/hypervisor/libvirt.go: finding a domain by its name or its UUID, and its identity.
use libvirt_rest_api.Base.{
  ℕ, suc, ◌-◌, ◌^◌, Bool, true, false, not, ◌&&◌, ◌||◌, [], ◌∷◌, Text, text, leb, ◌==◌,
  if◌then◌else◌, length, ℤ, pos, negsuc,
}
use libvirt_rest_api.Errors.{
  Error, Result, ok, err, is_code, no_domain, not_found, fail, wrap, lit, quoted,
}
use libvirt_rest_api.Hypervisor.{
  Binding, L, ◌>>=◌, pure, request, or_return, about, by_name, by_uuid, get_name, get_uuid_string,
}

abbrev is_hex_digit : ℕ → Bool
is_hex_digit c = leb b'0' c && leb c b'9' || leb b'a' c && leb c b'f' || leb b'A' c && leb c b'F'

-- The test on the byte at an index. A character outside ASCII fails it, as its bytes do.
abbrev uuid_byte : ℕ → ℕ → Bool
uuid_byte index c =
    if index == 8 || index == 13 || index == 18 || index == 23 then c == b'-' else is_hex_digit c

unfoldable pub uuid_from : ℕ → Text → Bool
uuid_from index [] = true
uuid_from index (c ∷ rest) = if not (uuid_byte index c) then false else uuid_from (suc index) rest

unfoldable pub is_canonical_uuid : Text → Bool
unfolding uuid_from
is_canonical_uuid value = if not (length value == 36) then false else uuid_from 0 value

-- The end of `lookupDomain`, with the last error.
abbrev pub not_looked_up : Text → Error → Result ℕ
not_looked_up identifier e =
    if is_code e no_domain
    then err (fail not_found (lit (text ": ") ∷ quoted identifier ∷ []))
    else err (about (text "look up domain ") identifier (text ": ") e)

abbrev pub after_uuid : Text → Result ℕ → Result ℕ
after_uuid identifier (ok domain) = ok domain
after_uuid identifier (err e) =
    if not (is_code e no_domain)
    then err (about (text "look up domain UUID ") identifier (text ": ") e)
    else not_looked_up identifier e

abbrev pub after_name : Binding → Text → Result ℕ → L (Result ℕ)
after_name binding identifier (ok domain) = pure (ok domain)
after_name binding identifier (err e) =
    if not (is_code e no_domain)
    then pure (err (about (text "look up domain name ") identifier (text ": ") e))
    else if is_canonical_uuid identifier
    then (request binding (by_uuid identifier) >>= λ found. pure (after_uuid identifier found))
    else pure (not_looked_up identifier e)

unfoldable pub lookup_domain : Binding → Text → L (Result ℕ)
lookup_domain binding identifier =
    request binding (by_name identifier) >>= after_name binding identifier

-- The two parts of `domainIdentity`, after each answer.
abbrev pub with_uuid : Text → Result Text → L (Result (Text × Text))
with_uuid name identified =
    or_return (about (text "get domain ") name (text " UUID: ")) identified
      (λ uuid. pure (ok (name, uuid)))

abbrev pub with_name : Binding → ℕ → Result Text → L (Result (Text × Text))
with_name binding domain named =
    or_return (λ e. wrap (lit (text "get domain name: ") ∷ []) e []) named
      (λ name. request binding (get_uuid_string domain) >>= with_uuid name)

unfoldable pub domain_identity : Binding → ℕ → L (Result (Text × Text))
domain_identity binding domain = request binding (get_name domain) >>= with_name binding domain

-- `uint` to `int`, for ids of 32 bits.
unfoldable pub normalize_domain_id : ℕ → ℤ
normalize_domain_id id = if id == 2 ^ 32 - 1 then negsuc 0 else pos id
