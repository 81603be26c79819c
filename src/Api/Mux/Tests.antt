-- ===== src/Api/Mux/Tests.antt =====
-- Patterns that `HandleFunc` takes and refuses.
use libvirt_rest_api.Base.{◌≡◌, refl, true, false, [], ◌∷◌, none, some, text, text_eq}
use libvirt_rest_api.Api.Mux.{
  literal, wildcard, multi, parse_pattern, accepts, match_path, pattern_of,
}

parsed :
    (parse_pattern (text "/vms/{id}/x%2Fy/")
      ≡ some (literal (text "vms") ∷ wildcard (text "id") ∷ literal (text "x/y") ∷ multi [] ∷ []))
    × (parse_pattern (text "/{rest...}") ≡ some (multi (text "rest") ∷ []))
    × (parse_pattern (text "/a/{$}") ≡ some (literal (text "a") ∷ literal (text "/") ∷ []))
unfolding parse_pattern text text_eq
parsed = (refl, refl, refl)

malformed :
    (parse_pattern (text "/{}") ≡ none)
    × (parse_pattern (text "/a{b}") ≡ none)
    × (parse_pattern (text "/{a}/{a}") ≡ none)
    × (parse_pattern (text "/{a...}/b") ≡ none)
    × (parse_pattern (text "/{1a}") ≡ none)
unfolding parse_pattern text text_eq
malformed = (refl, refl, refl, refl, refl)

-- The first two overlap on /a/b, and the last is the more specific one.
accepted :
    (accepts (text "/a/{x}" ∷ []) (text "/{y}/b") ≡ false)
    × (accepts (text "/a/{x}" ∷ []) (text "/a/{y}") ≡ false)
    × (accepts (text "/a/{x}" ∷ []) (text "/a/b") ≡ true)
    × (accepts (text "/a/{x}" ∷ []) (text "/") ≡ true)
unfolding accepts text text_eq
accepted = (refl, refl, refl, refl)

matched :
    match_path (pattern_of (text "/vms/{id}")) (text "vms" ∷ text "web" ∷ [])
    ≡ some ((text "id", text "web") ∷ [])
unfolding match_path pattern_of text text_eq
matched = refl
