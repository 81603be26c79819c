-- ===== src/Api/Auth/Laws.antt =====
-- Who passes the check, and what the tokens grant.
use libvirt_rest_api.Base.{
  is_set, ◌≤◌, ◌≡◌, refl, ◌≢◌, inl, inr, Bool, true, false, ◌&&◌, [], ◌∷◌, arith, Text, text_eq,
  text_eq_iff, text_eq_refl, sym, Bool-cases,
}
use libvirt_rest_api.Api.Auth.{
  Scope, scope_public, scope_read, scope_control, scope_admin, rank, Server, scope_for_token,
}

-- The token was configured for this scope.
pub data Grants (s : Server) (token : Text) : Scope → Type 0 where
  as_read : s.read_token ≡ token → Grants s token scope_read
  as_control : s.control_token ≡ token → Grants s token scope_control
  as_bearer : s.bearer_token ≡ token → Grants s token scope_admin
  as_admin : s.admin_token ≡ token → Grants s token scope_admin

-- One round of the loop over the candidates.
abbrev matches : Text → Text → Bool
matches token candidate = is_set candidate && text_eq token candidate

matches-eq : (token candidate : Text) → matches token candidate ≡ true → candidate ≡ token
matches-eq token [] h = cc
matches-eq token (c ∷ rest) h = sym ((text_eq_iff token (c ∷ rest)).0 h)

matches-set : (token candidate : Text) → matches token candidate ≡ true → token ≢ []
matches-set token candidate h e = ground (arith, matches-eq token candidate h)

eq-matches :
    (token candidate : Text) → token ≢ [] → candidate ≡ token → matches token candidate ≡ true
eq-matches [] candidate h e = absurd (h refl)
eq-matches (t ∷ rest) candidate h e = rw e (text_eq_refl (t ∷ rest))

-- The outcome for a token, by an exhaustive look at the four candidates.
pub data TokenScope (s : Server) (token : Text) : Scope × Bool → Type 0 where
  granted :
      {scope : Scope}
      → token ≢ []
      → Grants s token scope
      → ((other : Scope) → Grants s token other → rank scope ≤ rank other)
      → TokenScope s token (scope, true)
  refused :
      ((scope : Scope) → token ≢ [] → ¬ Grants s token scope)
      → TokenScope s token (scope_public, false)

module _ (s : Server) (token : Text) where
  open s use {read_token, control_token, bearer_token, admin_token}

  rank-Grants_read : (other : Scope) → Grants s token other → 1 ≤ rank other
  rank-Grants_read other (as_read e) = omega arith
  rank-Grants_read other (as_control e) = omega arith
  rank-Grants_read other (as_bearer e) = omega arith
  rank-Grants_read other (as_admin e) = omega arith

  rank-Grants_control :
      matches token read_token ≡ false
      → token ≢ []
      → (other : Scope) → Grants s token other
      → 2 ≤ rank other
  rank-Grants_control no_read h other (as_read e) = ground (arith, eq-matches token read_token h e)
  rank-Grants_control no_read h other (as_control e) = omega arith
  rank-Grants_control no_read h other (as_bearer e) = omega arith
  rank-Grants_control no_read h other (as_admin e) = omega arith

  rank-Grants_admin :
      matches token read_token ≡ false
      → matches token control_token ≡ false
      → token ≢ []
      → (other : Scope) → Grants s token other
      → 3 ≤ rank other
  rank-Grants_admin no_read no_control h other (as_read e) =
      ground (arith, eq-matches token read_token h e)
  rank-Grants_admin no_read no_control h other (as_control e) =
      ground (arith, eq-matches token control_token h e)
  rank-Grants_admin no_read no_control h other (as_bearer e) = omega arith
  rank-Grants_admin no_read no_control h other (as_admin e) = omega arith

  none-Grants :
      matches token read_token ≡ false
      → matches token control_token ≡ false
      → matches token bearer_token ≡ false
      → matches token admin_token ≡ false
      → (scope : Scope) → token ≢ []
      → ¬ Grants s token scope
  none-Grants a b c d scope h (as_read e) = ground (arith, eq-matches token read_token h e)
  none-Grants a b c d scope h (as_control e) = ground (arith, eq-matches token control_token h e)
  none-Grants a b c d scope h (as_bearer e) = ground (arith, eq-matches token bearer_token h e)
  none-Grants a b c d scope h (as_admin e) = ground (arith, eq-matches token admin_token h e)

  -- The scope of a token is the least that it was configured for, and an unknown token has none.
  pub scope_for_token-TokenScope : TokenScope s token (scope_for_token s token)
  unfolding scope_for_token
  scope_for_token-TokenScope = elim (Bool-cases (matches token read_token)) [
    | inl a ↦ rw a (
        granted (matches-set token read_token a) (as_read (matches-eq token read_token a))
          rank-Grants_read)
    | inr a ↦ elim (Bool-cases (matches token control_token)) [
      | inl b ↦
          let h = matches-set token control_token b in
          rw (a, b)
            (granted h (as_control (matches-eq token control_token b)) (rank-Grants_control a h))
      | inr b ↦ elim (Bool-cases (matches token bearer_token)) [
        | inl c ↦
            let h = matches-set token bearer_token c in
            rw (a, b, c)
              (granted h (as_bearer (matches-eq token bearer_token c)) (rank-Grants_admin a b h))
        | inr c ↦ elim (Bool-cases (matches token admin_token)) [
          | inl d ↦
              let h = matches-set token admin_token d in
              rw (a, b, c, d)
                (granted h (as_admin (matches-eq token admin_token d)) (rank-Grants_admin a b h))
          | inr d ↦ rw (a, b, c, d) (refused (none-Grants a b c d))
        ]
      ]
    ]
  ]

granted-parts :
    {s : Server} {token : Text} {outcome : Scope × Bool}
    → TokenScope s token outcome
    → outcome.1 ≡ true
    → (token ≢ [])
      × Grants s token outcome.0
      × ((other : Scope) → Grants s token other → rank outcome.0 ≤ rank other)
granted-parts (granted set known least) h = (set, known, least)
granted-parts (refused none_known) h = cc

known-parts :
    {s : Server} {token : Text} {outcome : Scope × Bool} {scope : Scope}
    → TokenScope s token outcome
    → token ≢ []
    → Grants s token scope
    → outcome.1 ≡ true
known-parts (granted set known least) h g = refl
known-parts {scope} (refused none_known) h g = absurd (none_known scope h g)

module _ (s : Server) (token : Text) where
  pub scope_for_token-least :
      (scope_for_token s token).1 ≡ true
      → (token ≢ [])
        × Grants s token (scope_for_token s token).0
        × ((other : Scope) → Grants s token other → rank (scope_for_token s token).0 ≤ rank other)
  scope_for_token-least h = granted-parts (scope_for_token-TokenScope s token) h

  pub scope_for_token-known :
      {scope : Scope} → token ≢ [] → Grants s token scope → (scope_for_token s token).1 ≡ true
  scope_for_token-known h g = known-parts (scope_for_token-TokenScope s token) h g
