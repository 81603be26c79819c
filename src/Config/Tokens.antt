-- ===== src/Config/Tokens.antt =====
-- internal/config/config.go: the check of the tokens.
pub mod Laws
use libvirt_rest_api.Base.{
  is_set, ℕ, Bool, true, false, not, ◌||◌, List, [], ◌∷◌, Option, none, some, Text, text, text_eq,
  if◌then◌else◌,
}
use libvirt_rest_api.Errors.{Error, Result, ok, err, lit, plain_error}
use libvirt_rest_api.Config.{Config, Visits}
use libvirt_rest_api.Config.Spaces.{has_space}

unfoldable pub has_credentials : Config → Bool
has_credentials c =
    is_set c.api_token || is_set c.read_token || is_set c.control_token || is_set c.admin_token

-- The entries of the map, a name and a token each.
abbrev pub token_entries : Config → List (Text × Text)
token_entries c =
    (text "API_BEARER_TOKEN", c.api_token)
    ∷ (text "API_READ_TOKEN", c.read_token)
    ∷ (text "API_CONTROL_TOKEN", c.control_token)
    ∷ (text "API_ADMIN_TOKEN", c.admin_token)
    ∷ []

-- `seen[token]`, in a map from tokens to names.
unfoldable pub seen_under : Text → List (Text × Text) → Option Text
seen_under token [] = none
seen_under token ((other, name) ∷ seen) =
    if text_eq other token then some name else seen_under token seen

abbrev pub same_token : Text → Text → Error
same_token previous name =
    plain_error (
      lit previous ∷ lit (text " and ") ∷ lit name ∷ lit (text " must not use the same token") ∷ [])

abbrev pub unless_seen : Text → Option Text → Result (Unit {0}) → Result (Unit {0})
unless_seen name none next = next
unless_seen name (some previous) next = err (same_token previous name)

unfoldable pub check_tokens : List (Text × Text) → List (Text × Text) → Result (Unit {0})
unfolding has_space seen_under
check_tokens seen [] = ok tt
check_tokens seen ((name, token) ∷ rest) =
    let skipped = check_tokens seen rest in
    let recorded = check_tokens ((token, name) ∷ seen) rest in
    if has_space token
    then err (plain_error (lit name ∷ lit (text " must not contain whitespace") ∷ []))
    else if not (is_set token)
    then skipped
    else unless_seen name (seen_under token seen) recorded

unfoldable pub validate_tokens : Visits → Config → Result (Unit {0})
unfolding check_tokens
validate_tokens visits c = check_tokens [] (visits (token_entries c))
