-- ===== src/Config/Origins/Laws.antt =====
-- internal/config/config.go: the origins are those that the variable lists, each once, and all are
-- origins.
use libvirt_rest_api.Base.{
  ◌≡◌, refl, sym, ap, ◌∙◌, inl, inr, Bool, true, false, not, ◌&&◌, List, [], ◌∷◌, ◌++◌, Text,
  text_eq, text_eq_iff, map, append_assoc, append-nil, if◌then◌else◌, Option, some, none, is_set,
  arith, Bool-cases,
}
use libvirt_rest_api.Errors.{Result, ok, err}
use libvirt_rest_api.Api.Validate.{one_of}
use libvirt_rest_api.Config.{Net}
use libvirt_rest_api.Config.Spaces.{trim_space}
use libvirt_rest_api.Config.Origins.{split, is_origin_url, add_origins, parse_origins}

-- A text that may stand in the list.
abbrev pub is_origin : Net → Text → Bool
is_origin net origin = is_set origin && is_origin_url (net.parse_url origin)

abbrev pub all_origins : Net → List Text → Bool
all_origins net [] = true
all_origins net (origin ∷ rest) = is_origin net origin && all_origins net rest

-- The entries that are not this text.
abbrev pub without : Text → List Text → List Text
without origin [] = []
without origin (other ∷ rest) =
    if text_eq origin other then without origin rest else other ∷ without origin rest

-- Each entry at its first place.
abbrev pub first_places : List Text → List Text
first_places [] = []
first_places (origin ∷ rest) = origin ∷ without origin (first_places rest)

-- The entries that a list does not have.
abbrev missing_from : List Text → List Text → List Text
missing_from [] l = l
missing_from (origin ∷ seen) l = missing_from seen (without origin l)

without_comm : (a b : Text) (l : List Text) → without a (without b l) ≡ without b (without a l)
without_comm a b [] = refl
without_comm a b (c ∷ l) = ground (arith, without_comm a b l)

without_idem : (a : Text) (l : List Text) → without a (without a l) ≡ without a l
without_idem a [] = refl
without_idem a (c ∷ l) = ground (arith, without_idem a l)

missing_from-without :
    (seen : List Text) (a : Text) (l : List Text)
    → missing_from seen (without a l) ≡ without a (missing_from seen l)
missing_from-without [] a l = refl
missing_from-without (b ∷ seen) a l =
    ap (missing_from seen) (without_comm b a l) ∙ missing_from-without seen a (without b l)

missing_from-append :
    (seen : List Text) (a : Text) (l : List Text)
    → missing_from (seen ++ a ∷ []) l ≡ missing_from seen (without a l)
missing_from-append [] a l = refl
missing_from-append (b ∷ seen) a l =
    missing_from-append seen a (without b l) ∙ ap (missing_from seen) (without_comm a b l)

missing_from-absorb :
    (seen : List Text) (a : Text) (l : List Text)
    → one_of seen a ≡ true
    → missing_from seen (without a l) ≡ missing_from seen l
missing_from-absorb [] a l h = cc
missing_from-absorb (b ∷ seen) a l h = elim (Bool-cases (text_eq a b)) [
  | inl e ↦
      let same : a ≡ b = (text_eq_iff a b).0 e in
      ap (missing_from seen) (rw same (without_idem b l))
  | inr n ↦
      ap (missing_from seen) (without_comm b a l)
      ∙ missing_from-absorb seen a (without b l) (ground arith)
]

-- An entry that a list has is dropped by it, and one that it does not have is kept.
missing_from-known :
    (seen : List Text) (a : Text) (l : List Text)
    → one_of seen a ≡ true
    → missing_from seen (a ∷ l) ≡ missing_from seen l
missing_from-known [] a l h = cc
missing_from-known (b ∷ seen) a l h = elim (Bool-cases (text_eq b a)) [
  | inl e ↦ rw e
  | inr n ↦
      let other : one_of seen a ≡ true = ground (arith, text_eq_iff a b, text_eq_iff b a) in
      rw n (missing_from-known seen a (without b l) other)
]

missing_from-new :
    (seen : List Text) (a : Text) (l : List Text)
    → one_of seen a ≡ false
    → missing_from seen (a ∷ l) ≡ a ∷ missing_from seen l
missing_from-new [] a l h = refl
missing_from-new (b ∷ seen) a l h =
    let other : text_eq b a ≡ false = ground (arith, text_eq_iff a b, text_eq_iff b a) in
    rw other (missing_from-new seen a (without b l) (ground arith))

missing_from-nil : (seen : List Text) → missing_from seen [] ≡ []
missing_from-nil [] = refl
missing_from-nil (b ∷ seen) = missing_from-nil seen

-- What a list of origins becomes by one more.
abbrev extended : List Text → Text → List Text
extended seen origin = if one_of seen origin then seen else seen ++ origin ∷ []

module _ (seen : List Text) (origin : Text) (rest : List Text) where
  extended-missing_from :
      extended seen origin ++ missing_from (extended seen origin) rest
      ≡ seen ++ missing_from seen (origin ∷ without origin rest)
  extended-missing_from = elim (Bool-cases (one_of seen origin)) [
    | inl e ↦
        rw (e, missing_from-known seen origin (without origin rest) e)
          (ap (◌++◌ seen) (sym (missing_from-absorb seen origin rest e)))
    | inr n ↦
        rw (n, missing_from-new seen origin (without origin rest) n)
          (append_assoc seen (origin ∷ []) (missing_from (seen ++ origin ∷ []) rest)
            ∙ ap (λ (l : List Text). seen ++ origin ∷ l) (missing_from-append seen origin rest))
  ]

abbrev pub accepted : Result (List Text) → Option (List Text)
accepted (ok origins) = some origins
accepted (err _) = none

abbrev gathered : Net → List Text → List Text → Option (List Text)
gathered net seen entries =
    if all_origins net entries
    then some (seen ++ missing_from seen (first_places entries))
    else none

add_origins-eq :
    (net : Net) (seen parts : List Text)
    → accepted (add_origins net seen parts) ≡ gathered net seen (map trim_space parts)
unfolding add_origins
add_origins-eq net seen [] = rw (missing_from-nil seen, append-nil seen)
add_origins-eq net seen (part ∷ parts) =
    let origin = trim_space part in
    let ih = add_origins-eq net (extended seen origin) parts in
    elim (Bool-cases (is_set origin)) [
      | inr unset ↦ rw unset
      | inl set ↦ elim (Bool-cases (is_origin_url (net.parse_url origin))) [
        | inr bad ↦ rw (set, bad)
        | inl good ↦
            rw (
              set,
              good,
              ih,
              extended-missing_from seen origin (first_places (map trim_space parts)),
            )
      ]
    ]

-- The origins that a text lists: none if it is blank, else the parts between its commas, trimmed,
-- each at its first place, if each is an origin.
abbrev pub listed_origins : Net → Text → Option (List Text)
listed_origins net raw =
    let entries = map trim_space (split b',' raw) in
    if not (is_set (trim_space raw))
    then some []
    else if all_origins net entries
    then some (first_places entries)
    else none

-- Reading the origins one by one with a set of those seen gives what the list of them describes at
-- once, or an error where that is none.
pub parse_origins-eq :
    (net : Net) (raw : Text) → accepted (parse_origins net raw) ≡ listed_origins net raw
unfolding parse_origins
parse_origins-eq net raw = elim (Bool-cases (is_set (trim_space raw))) [
  | inl set ↦ rw set (add_origins-eq net [] (split b',' raw))
  | inr blank ↦ rw blank
]
