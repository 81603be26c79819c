-- ===== src/Config/Tokens/Laws.antt =====
-- internal/config/config.go: which tokens pass the check, in whatever order the map is visited.
use mathlib.Core.List.{Perm, Pairwise, Pairwise-cons}
use mathlib.Core.List.Perm
use libvirt_rest_api.Base.{
  ◌≡◌, refl, sym, ◌∙◌, ◌≢◌, ◌↔◌, inl, inr, true, false, List, [], ◌∷◌, none, Text, text_eq_iff, All,
  All-map, All-mem, mem-All, is_set, arith, Bool-cases, Option-cases,
}
use libvirt_rest_api.Errors.{ok}
use libvirt_rest_api.Config.{Config, Visits}
use libvirt_rest_api.Config.Spaces.{has_space}
use libvirt_rest_api.Config.Tokens.{seen_under, check_tokens, validate_tokens, token_entries}

abbrev pub IsClean : Text × Text → Type 0
IsClean e = has_space e.1 ≡ false

-- Two tokens that are set are not the same.
abbrev pub Differ : Text × Text → Text × Text → Type 0
Differ e e' = is_set e.1 ≡ true → e.1 ≢ e'.1

abbrev pub Apart : List (Text × Text) → Type 0
Apart [] = Unit
Apart (e ∷ l) = All (Differ e) l × Apart l

abbrev pub Acceptable : List (Text × Text) → Type 0
Acceptable l = All IsClean l × Apart l

abbrev Fresh : List (Text × Text) → Text × Text → Type 0
Fresh seen e = is_set e.1 ≡ true → seen_under e.1 seen ≡ none

All-zip {ℓ κ μ ν} :
    {A : Type ℓ} {P : A → Type κ} {Q : A → Type μ} {R : A → Type ν}
    → ((a : A) → P a → Q a → R a)
    → (l : List A) → All P l
    → All Q l
    → All R l
All-zip f [] h k = tt
All-zip f (a ∷ l) h k = (f a h.0 k.0, All-zip f l h.1 k.1)

Fresh-nil : (e : Text × Text) → Fresh [] e
unfolding seen_under
Fresh-nil e set = refl

Fresh-tail :
    (n t : Text) (seen : List (Text × Text)) (e : Text × Text)
    → Fresh ((t, n) ∷ seen) e
    → Fresh seen e
unfolding seen_under
Fresh-tail n t seen e h s = ground (arith, h s)

Fresh-Differ :
    (n m t : Text) (seen : List (Text × Text)) (e : Text × Text)
    → Fresh ((t, n) ∷ seen) e
    → Differ (m, t) e
unfolding seen_under
Fresh-Differ n m t seen e h s same = ground (arith, h, text_eq_iff t e.1)

Fresh-cons :
    (n m t : Text) (seen : List (Text × Text)) (e : Text × Text)
    → Fresh seen e
    → Differ (m, t) e
    → is_set t ≡ true
    → Fresh ((t, n) ∷ seen) e
unfolding seen_under
Fresh-cons n m t seen e h d set s = ground (arith, h, d, text_eq_iff t e.1)

-- One round of the loop, by what it goes on with.
check_tokens-unset :
    (seen : List (Text × Text)) (n t : Text) (l : List (Text × Text))
    → has_space t ≡ false
    → is_set t ≡ false
    → check_tokens seen ((n, t) ∷ l) ≡ check_tokens seen l
unfolding check_tokens
check_tokens-unset seen n t l a b = rw (a, b)

check_tokens-new :
    (seen : List (Text × Text)) (n t : Text) (l : List (Text × Text))
    → has_space t ≡ false
    → is_set t ≡ true
    → seen_under t seen ≡ none
    → check_tokens seen ((n, t) ∷ l) ≡ check_tokens ((t, n) ∷ seen) l
unfolding check_tokens
check_tokens-new seen n t l a b c = rw (a, b, c)

check_tokens_sound :
    (seen l : List (Text × Text))
    → check_tokens seen l ≡ ok tt
    → All IsClean l × All (Fresh seen) l × Apart l
unfolding check_tokens
check_tokens_sound seen [] h = (tt, tt, tt)
check_tokens_sound seen ((n, t) ∷ l) h = elim (Bool-cases (has_space t)) [
  | inl a ↦ absurd (ground arith)
  | inr a ↦ elim (Bool-cases (is_set t)) [
    | inr b ↦
        let (clean, fresh, apart) =
          check_tokens_sound seen l (sym (check_tokens-unset seen n t l a b) ∙ h) in
        ((a, clean), (ground arith, fresh), (All-map (λ e _ set. ground arith) l clean, apart))
    | inl b ↦ elim (Option-cases (seen_under t seen)) [
      | inl c ↦
          let (clean, fresh, apart) =
            check_tokens_sound ((t, n) ∷ seen) l (sym (check_tokens-new seen n t l a b c) ∙ h) in
          (
            (a, clean),
            ((λ _. c), All-map (Fresh-tail n t seen) l fresh),
            (All-map (Fresh-Differ n n t seen) l fresh, apart),
          )
      | inr (name, c) ↦ absurd (ground arith)
    ]
  ]
]

check_tokens_complete :
    (seen l : List (Text × Text))
    → All IsClean l
    → All (Fresh seen) l
    → Apart l
    → check_tokens seen l ≡ ok tt
unfolding check_tokens
check_tokens_complete seen [] clean fresh apart = refl
check_tokens_complete seen ((n, t) ∷ l) (a, clean) (new, fresh) (differ, apart) =
    elim (Bool-cases (is_set t)) [
      | inr b ↦ check_tokens-unset seen n t l a b ∙ check_tokens_complete seen l clean fresh apart
      | inl b ↦
          check_tokens-new seen n t l a b (new b)
          ∙ check_tokens_complete ((t, n) ∷ seen) l clean
              (All-zip (λ e f d. Fresh-cons n n t seen e f d b) l fresh differ) apart
    ]

Differ-prop : (e e' : Text × Text) → IsProp (Differ e e')
Differ-prop e e' = hlevel

Differ-sym : (e e' : Text × Text) → Differ e e' → Differ e' e
Differ-sym e e' h set same = ground (arith, h)

Apart-Pairwise : (l : List (Text × Text)) → Apart l → Pairwise Differ l
Apart-Pairwise [] h = Pairwise.nil
Apart-Pairwise (e ∷ l) h = Pairwise.cons (All-mem (Differ-prop e) l h.0) (Apart-Pairwise l h.1)

Pairwise-Apart : (l : List (Text × Text)) → Pairwise Differ l → Apart l
Pairwise-Apart [] h = tt
Pairwise-Apart (e ∷ l) h =
    let (first, rest) = Pairwise-cons.0 h in (mem-All l first, Pairwise-Apart l rest)

-- What is accepted does not depend on the order.
Acceptable-perm : {l l' : List (Text × Text)} → Perm l l' → Acceptable l → Acceptable l'
Acceptable-perm {l} {l'} p (clean, apart) = (
  mem-All l' (λ e m. All-mem (λ e. hlevel) l clean e (Perm.subset (Perm.symm p) e m)),
  Pairwise-Apart l' (Perm.pairwise Differ-prop Differ-sym p (Apart-Pairwise l apart)),
)

-- Whatever the order in which the map is visited, the check passes exactly if no token has a space
-- in it and no two tokens that are set are the same.
pub validate_tokens_iff :
    (visits : Visits)
    → ((l : List (Text × Text)) → Perm (visits l) l)
    → (c : Config) → (validate_tokens visits c ≡ ok tt) ↔ Acceptable (token_entries c)
unfolding validate_tokens
validate_tokens_iff visits perm c = (
  λ h.
      let (clean, _, apart) = check_tokens_sound [] (visits (token_entries c)) h in
      Acceptable-perm (perm (token_entries c)) (clean, apart),
  λ acceptable.
      let (clean, apart) = Acceptable-perm (Perm.symm (perm (token_entries c))) acceptable in
      check_tokens_complete [] (visits (token_entries c)) clean
        (All-map (λ e _. Fresh-nil e) (visits (token_entries c)) clean) apart,
)
