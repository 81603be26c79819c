-- ===== src/Api/Http/Fields.antt =====
-- The fields of a response's header.
use libvirt_rest_api.Base.{
  ◌≡◌, refl, ap, ◌∙◌, inl, inr, false, some, [], ◌∷◌, Text, text_eq, text_eq_iff, text_eq_refl,
  Bool-cases,
}
use libvirt_rest_api.Api.Http.{Header, get_field, set_field}

-- A field that was set is read back, and the others stay.
pub get_field-set_field :
    (key value : Text) (header : Header) → get_field key (set_field key value header) ≡ some value
unfolding set_field get_field
get_field-set_field key value [] = rw (text_eq_refl key) refl
get_field-set_field key value ((k, v) ∷ rest) = elim (Bool-cases (text_eq k key)) [
  | inl e ↦ rw (e, text_eq_refl key) refl
  | inr e ↦ rw (e, e) (get_field-set_field key value rest)
]

pub get_field-set_field_other :
    (key other value : Text) (header : Header)
    → text_eq other key ≡ false
    → get_field key (set_field other value header) ≡ get_field key header
unfolding set_field get_field
get_field-set_field_other key other value [] h = rw h refl
get_field-set_field_other key other value ((k, v) ∷ rest) h = elim (Bool-cases (text_eq k other)) [
  | inl e ↦
      let apart : text_eq k key ≡ false = ap (λ t. text_eq t key) ((text_eq_iff k other).0 e) ∙ h in
      rw (e, h, apart) refl
  | inr e ↦ elim (Bool-cases (text_eq k key)) [
    | inl found ↦ rw (e, found) refl
    | inr passed ↦ rw (e, passed) (get_field-set_field_other key other value rest h)
  ]
]
