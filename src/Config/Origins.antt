-- ===== src/Config/Origins.antt =====
-- internal/config/config.go: the list of origins.
pub mod Laws
use libvirt_rest_api.Base.{
  is_set, ℕ, Bool, true, false, not, ◌&&◌, ◌||◌, List, [], ◌∷◌, ◌++◌, Option, none, some, Text,
  text, text_eq, ◌==◌, if◌then◌else◌,
}
use libvirt_rest_api.Errors.{Result, ok, err, plain_error, lit_of}
use libvirt_rest_api.Api.Validate.{one_of}
use libvirt_rest_api.Config.{Net, Url, complaint}
use libvirt_rest_api.Config.Spaces.{trim_space}

-- `strings.Split` at a separator of one byte: never the empty list.
abbrev pub onto_first : ℕ → List Text → List Text
onto_first c [] = (c ∷ []) ∷ []
onto_first c (part ∷ parts) = (c ∷ part) ∷ parts

unfoldable pub split : ℕ → Text → List Text
split sep [] = [] ∷ []
split sep (c ∷ s) = let parts = split sep s in if c == sep then [] ∷ parts else onto_first c parts

abbrev pub is_origin_url : Option Url → Bool
is_origin_url none = false
is_origin_url (some u) = not (
    not (text_eq u.scheme (text "http")) && not (text_eq u.scheme (text "https"))
    || not (is_set u.host)
    || u.user
    || is_set u.path
    || is_set u.raw_query
    || is_set u.fragment)

-- The loop. The keys of `seen` are the entries of `origins`.
unfoldable pub add_origins : Net → List Text → List Text → Result (List Text)
unfolding trim_space
add_origins net origins [] = ok origins
add_origins net origins (part ∷ parts) =
    let origin = trim_space part in
    let rest =
      add_origins net (if one_of origins origin then origins else origins ++ origin ∷ []) parts in
    if not (is_set origin)
    then err (plain_error (lit_of "CORS_ORIGINS contains an empty origin"))
    else if not (is_origin_url (net.parse_url origin))
    then err (complaint "CORS_ORIGINS contains invalid origin " origin "")
    else rest

unfoldable pub parse_origins : Net → Text → Result (List Text)
unfolding add_origins split trim_space
parse_origins net raw =
    let origins = add_origins net [] (split b',' raw) in
    if not (is_set (trim_space raw)) then ok [] else origins
