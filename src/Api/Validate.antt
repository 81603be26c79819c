-- ===== src/Api/Validate.antt =====
-- internal/api/server.go: the checks on names and options, with `strconv.ParseBool` and
-- `utf8.ValidString`.
pub mod Names
use libvirt_rest_api.Base.{
  ℕ, Bool, true, false, not, ◌&&◌, ◌||◌, List, [], ◌∷◌, Option, none, some, Text, text, text_eq,
  to_lower, has_byte, ltb, leb, ◌==◌, if◌then◌else◌, length,
}
use libvirt_rest_api.Service.{DomainFilter, domain_all, domain_active, domain_inactive}

abbrev pub between : ℕ → ℕ → ℕ → Bool
between low high c = leb low c && leb c high

abbrev pub is_ascii_letter_or_number : ℕ → Bool
is_ascii_letter_or_number c = between b'a' b'z' c || between b'A' b'Z' c || between b'0' b'9' c

abbrev pub is_name_byte : ℕ → Bool
is_name_byte c = is_ascii_letter_or_number c || c == b'.' || c == b'_' || c == b'-'

-- The loop over the bytes after the first.
unfoldable pub name_bytes : Text → Bool
name_bytes [] = true
name_bytes (c ∷ rest) = if not (is_name_byte c) then false else name_bytes rest

unfoldable pub valid_snapshot_name : Text → Bool
valid_snapshot_name [] = false
valid_snapshot_name (first ∷ rest) =
    if ltb 128 (length (first ∷ rest)) || not (is_ascii_letter_or_number first)
    then false
    else name_bytes rest

-- The ranges of the bytes that must follow a first byte, as in the table of package utf8.
abbrev pub utf8_tail : ℕ → Option (List (ℕ × ℕ))
utf8_tail c =
    if ltb c 128
    then some []
    else if between 194 223 c
    then some ((128, 191) ∷ [])
    else if c == 224
    then some ((160, 191) ∷ (128, 191) ∷ [])
    else if c == 237
    then some ((128, 159) ∷ (128, 191) ∷ [])
    else if between 225 239 c
    then some ((128, 191) ∷ (128, 191) ∷ [])
    else if c == 240
    then some ((144, 191) ∷ (128, 191) ∷ (128, 191) ∷ [])
    else if between 241 243 c
    then some ((128, 191) ∷ (128, 191) ∷ (128, 191) ∷ [])
    else if c == 244
    then some ((128, 143) ∷ (128, 191) ∷ (128, 191) ∷ [])
    else none

unfoldable utf8_from : List (ℕ × ℕ) → Text → Bool
utf8_from [] [] = true
utf8_from (_ ∷ _) [] = false
utf8_from ((low, high) ∷ rest) (c ∷ s) = between low high c && utf8_from rest s
utf8_from [] (c ∷ s) = elim (utf8_tail c) [ none ↦ false | some rest ↦ utf8_from rest s ]

unfoldable pub utf8_valid : Text → Bool
unfolding utf8_from
utf8_valid s = utf8_from [] s

unfoldable pub valid_snapshot_lookup_name : Text → Bool
valid_snapshot_lookup_name name =
    ltb 0 (length name) && leb (length name) 1024 && utf8_valid name && not (has_byte 0 name)

abbrev pub lower_is : Text → Text → Bool
lower_is value word = text_eq (to_lower value) word

unfoldable pub parse_domain_filter : Text → Option DomainFilter
parse_domain_filter value =
    if lower_is value [] || lower_is value (text "all")
    then some domain_all
    else if lower_is value (text "active")
    then some domain_active
    else if lower_is value (text "inactive")
    then some domain_inactive
    else none

abbrev pub one_of : List Text → Text → Bool
one_of [] s = false
one_of (word ∷ rest) s = text_eq s word || one_of rest s

-- `strconv.ParseBool`.
unfoldable pub parse_bool : Text → Option Bool
parse_bool s =
    if one_of (text "1" ∷ text "t" ∷ text "T" ∷ text "true" ∷ text "TRUE" ∷ text "True" ∷ []) s
    then some true
    else if one_of
        (text "0" ∷ text "f" ∷ text "F" ∷ text "false" ∷ text "FALSE" ∷ text "False" ∷ []) s
    then some false
    else none
