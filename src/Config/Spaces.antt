-- ===== src/Config/Spaces.antt =====
-- internal/config/config.go: `unicode.IsSpace` on UTF-8, `strings.TrimSpace`, and
-- `strings.IndexFunc(s, unicode.IsSpace) >= 0`. No first byte of a space outside ASCII can continue
-- another character, so bytes that spell a space are one.
use libvirt_rest_api.Base.{
  Bool, false, ◌&&◌, ◌||◌, List, [], ◌∷◌, ℕ, Text, leb, ◌==◌, if◌then◌else◌,
}

abbrev pub is_space_1 : ℕ → Bool
is_space_1 a = leb 9 a && leb a 13 || a == b' '

-- U+0085 and U+00A0.
abbrev pub is_space_2 : ℕ → ℕ → Bool
is_space_2 a b = a == 0xC2 && (b == 0x85 || b == 0xA0)

-- U+1680, U+2000 to U+200A, U+2028, U+2029, U+202F, U+205F and U+3000.
abbrev pub is_space_3 : ℕ → ℕ → ℕ → Bool
is_space_3 a b c =
    a == 0xE1 && b == 0x9A && c == 0x80
    || a == 0xE2 && b == 0x80 && (leb 0x80 c && leb c 0x8A || c == 0xA8 || c == 0xA9 || c == 0xAF)
    || a == 0xE2 && b == 0x81 && c == 0x9F
    || a == 0xE3 && b == 0x80 && c == 0x80

unfoldable pub has_space : Text → Bool
has_space [] = false
has_space (a ∷ []) = is_space_1 a
has_space (a ∷ b ∷ []) = is_space_1 a || is_space_2 a b || has_space (b ∷ [])
has_space (a ∷ b ∷ c ∷ s) =
    is_space_1 a || is_space_2 a b || is_space_3 a b c || has_space (b ∷ c ∷ s)

unfoldable pub trim_left : Text → Text
trim_left [] = []
trim_left (a ∷ []) = if is_space_1 a then [] else a ∷ []
trim_left (a ∷ b ∷ []) =
    let after = trim_left (b ∷ []) in
    if is_space_1 a then after else if is_space_2 a b then [] else a ∷ b ∷ []
trim_left (a ∷ b ∷ c ∷ s) =
    let after_1 = trim_left (b ∷ c ∷ s) in
    let after_2 = trim_left (c ∷ s) in
    let after_3 = trim_left s in
    if is_space_1 a
    then after_1
    else if is_space_2 a b
    then after_2
    else if is_space_3 a b c
    then after_3
    else a ∷ b ∷ c ∷ s

-- The same at the end of a text, which is given from its last byte on.
unfoldable pub trim_last : Text → Text
trim_last [] = []
trim_last (a ∷ []) = if is_space_1 a then [] else a ∷ []
trim_last (a ∷ b ∷ []) =
    let before = trim_last (b ∷ []) in
    if is_space_1 a then before else if is_space_2 b a then [] else a ∷ b ∷ []
trim_last (a ∷ b ∷ c ∷ s) =
    let before_1 = trim_last (b ∷ c ∷ s) in
    let before_2 = trim_last (c ∷ s) in
    let before_3 = trim_last s in
    if is_space_1 a
    then before_1
    else if is_space_2 b a
    then before_2
    else if is_space_3 c b a
    then before_3
    else a ∷ b ∷ c ∷ s

abbrev reverse_onto {ℓ} : {A : Type ℓ} → List A → List A → List A
reverse_onto [] acc = acc
reverse_onto (x ∷ xs) acc = reverse_onto xs (x ∷ acc)

unfoldable pub trim_space : Text → Text
unfolding trim_left trim_last
trim_space s = reverse_onto (trim_last (reverse_onto (trim_left s) [])) []
