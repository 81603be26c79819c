-- ===== src/Api/Validate/Names.antt =====
-- internal/api/server.go: the names that a snapshot can be created with, against the names that it
-- can be looked up by.
use libvirt_rest_api.Base.{
  ℕ, ◌≤◌, ◌<◌, ◌≡◌, refl, arith, true, false, [], ◌∷◌, Text, ltb, ◌==◌, length, has_byte,
}
use libvirt_rest_api.Api.Validate.{
  is_ascii_letter_or_number, is_name_byte, name_bytes, valid_snapshot_name,
  valid_snapshot_lookup_name, utf8_valid, utf8_from,
}

name_byte-ascii : (c : ℕ) → is_name_byte c ≡ true → (ltb c 128 ≡ true) × ((c == 0) ≡ false)
name_byte-ascii c h = ground arith

letter-ascii :
    (c : ℕ) → is_ascii_letter_or_number c ≡ true → (ltb c 128 ≡ true) × ((c == 0) ≡ false)
letter-ascii c h = ground arith

utf8_from-ascii :
    (c : ℕ) (s : Text) → ltb c 128 ≡ true → utf8_from [] s ≡ true → utf8_from [] (c ∷ s) ≡ true
unfolding utf8_from
utf8_from-ascii c s h rest = ground arith

utf8_from-nil : utf8_from [] [] ≡ true
unfolding utf8_from
utf8_from-nil = refl

has_byte-nil : has_byte 0 [] ≡ false
unfolding has_byte
has_byte-nil = refl

name_bytes-head :
    (c : ℕ) (s : Text) → name_bytes (c ∷ s) ≡ true → (is_name_byte c ≡ true) × (name_bytes s ≡ true)
unfolding name_bytes
name_bytes-head c s h = ground arith

valid_snapshot_name-head :
    (c : ℕ) (s : Text)
    → valid_snapshot_name (c ∷ s) ≡ true
    → (length (c ∷ s) ≤ 128) × (is_ascii_letter_or_number c ≡ true) × (name_bytes s ≡ true)
unfolding valid_snapshot_name
valid_snapshot_name-head c s h = ground arith

lookup_valid :
    (name : Text)
    → 0 < length name
    → length name ≤ 1024
    → utf8_from [] name ≡ true
    → has_byte 0 name ≡ false
    → valid_snapshot_lookup_name name ≡ true
unfolding valid_snapshot_lookup_name utf8_valid
lookup_valid name some_ short valid absent = ground arith

has_byte-ascii :
    (c : ℕ) (s : Text) → (c == 0) ≡ false → has_byte 0 s ≡ false → has_byte 0 (c ∷ s) ≡ false
unfolding has_byte
has_byte-ascii c s h rest = ground arith

name_bytes-lookup :
    (s : Text) → name_bytes s ≡ true → (utf8_from [] s ≡ true) × (has_byte 0 s ≡ false)
unfolding name_bytes
name_bytes-lookup [] h = (utf8_from-nil, has_byte-nil)
name_bytes-lookup (c ∷ s) h =
    let (good, rest) = name_bytes-head c s h in
    let (small, other) = name_byte-ascii c good in
    let (valid, absent) = name_bytes-lookup s rest in
    (utf8_from-ascii c s small valid, has_byte-ascii c s other absent)

-- A snapshot that was created under a valid name can be reverted to and deleted by it: every name
-- that creation accepts, the lookup accepts.
pub valid_snapshot_name-lookup :
    (name : Text) → valid_snapshot_name name ≡ true → valid_snapshot_lookup_name name ≡ true
unfolding valid_snapshot_name
valid_snapshot_name-lookup [] h = cc
valid_snapshot_name-lookup (c ∷ s) h =
    let (short, letter, rest) = valid_snapshot_name-head c s h in
    let (small, other) = letter-ascii c letter in
    let (valid, absent) = name_bytes-lookup s rest in
    lookup_valid (c ∷ s) (ground arith) (ground arith) (utf8_from-ascii c s small valid)
      (has_byte-ascii c s other absent)
