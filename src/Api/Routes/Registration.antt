-- ===== src/Api/Routes/Registration.antt =====
-- internal/api/server.go: the route registry as a map from paths and methods to handlers.
use libvirt_rest_api.Base.{
  ◌⊎◌, ◌<◌, All, ◌≡◌, ◌≢◌, refl, sym, subst, ap, ◌∙◌, inl, inr, arith, Bool, true, false, ◌&&◌,
  Option, none, some, [], ◌∷◌, ◌++◌, Text, text_eq, text_eq_iff, text_eq_refl, if◌then◌else◌,
  Bool-cases,
}
use libvirt_rest_api.Api.Http.{Handler}
use libvirt_rest_api.Api.Routes.{
  Methods, Registry, put_back, put_methods, find_method, add_found, add_method, put_route, has_path,
  paths_of, handle,
}
use libvirt_rest_api.Api.Mux.{accepts}

text_eq-sym : (s t : Text) → text_eq s t ≡ text_eq t s
unfolding text_eq
text_eq-sym [] [] = refl
text_eq-sym [] (b ∷ t) = refl
text_eq-sym (a ∷ s) [] = refl
text_eq-sym (a ∷ s) (b ∷ t) = ground (arith, text_eq-sym s t)

-- A text that is the same as `a` differs from what `a` differs from.
text_eq-apart : (a b c : Text) → text_eq a b ≡ true → text_eq a c ≡ false → text_eq c b ≡ false
text_eq-apart a b c same other =
    text_eq-sym c b ∙ (ap (λ t. text_eq t c) (sym ((text_eq_iff a b).0 same)) ∙ other)

-- What the model of the mux is made for.
abbrev pub IsPlainPath : Text → Type 0
IsPlainPath [] = ⊥
IsPlainPath (c ∷ path) = (c ≡ b'/') × All (λ d. d < 128) path

module _ {B : Type 0} where
  -- The methods of a path, and the handler of a method on a path.
  abbrev pub methods_of : Text → Registry B → Methods B
  methods_of path [] = []
  methods_of path ((p, methods) ∷ rest) = if text_eq p path then methods else methods_of path rest

  abbrev pub route_of : Text → Text → Registry B → Option (Handler B)
  route_of method path registry = find_method method (methods_of path registry)

  find_method-head :
      (method m : Text) (g : Handler B) (rest : Methods B)
      → find_method method ((m, g) ∷ rest) ≡ none
      → (text_eq m method ≡ false) × (find_method method rest ≡ none)
  unfolding find_method
  find_method-head method m g rest h = ground arith

  find_method-append :
      (method other : Text) (handler : Handler B) (methods : Methods B)
      → find_method method methods ≡ none
      → find_method other (methods ++ (method, handler) ∷ [])
        ≡ (if text_eq method other then some handler else find_method other methods)
  unfolding find_method
  find_method-append method other handler [] h = refl
  find_method-append method other handler ((m, g) ∷ rest) h = elim (Bool-cases (text_eq m other)) [
    | inl here ↦
        let (differs, _) = find_method-head method m g rest h in
        rw (here, text_eq-apart m other method here differs) refl
    | inr there ↦
        let (_, later) = find_method-head method m g rest h in
        rw there (find_method-append method other handler rest later)
  ]

  -- What the map does with a route: it refuses one that is taken, and else adds it and changes no
  -- other.
  abbrev pub Puts : Text → Text → Handler B → Registry B → Option (Registry B) → Type 0
  Puts method path handler registry none = route_of method path registry ≢ none
  Puts method path handler registry (some registry') =
      (route_of method path registry ≡ none)
      × ((method' path' : Text)
          → route_of method' path' registry' ≡ (
              if text_eq path path' && text_eq method method'
              then some handler
              else route_of method' path' registry))

  add_found-Puts :
      (method p : Text) (handler : Handler B) (methods : Methods B) (rest : Registry B)
      (found : Option (Handler B))
      → find_method method methods ≡ found
      → Puts method p handler
          ((p, methods) ∷ rest)
          (put_methods p rest (add_found method handler methods found))
  add_found-Puts method p handler methods rest (some g) e = rw (text_eq_refl p, e) (λ taken. cc)
  add_found-Puts method p handler methods rest none e = (
    rw (text_eq_refl p) e,
    λ method' path'. elim (Bool-cases (text_eq p path')) [
      | inl same ↦ rw same (find_method-append method method' handler methods e)
      | inr other ↦ rw other refl
    ],
  )

  add_method-Puts :
      (method p : Text) (handler : Handler B) (methods : Methods B) (rest : Registry B)
      → Puts method p handler
          ((p, methods) ∷ rest)
          (put_methods p rest (add_method method handler methods))
  unfolding add_method
  add_method-Puts method p handler methods rest =
      add_found-Puts method p handler methods rest (find_method method methods) refl

  nil-Puts :
      (method path : Text) (handler : Handler B)
      → Puts method path handler [] (put_route method path handler [])
  unfolding put_route add_method find_method
  nil-Puts method path handler = (
    refl,
    λ method' path'. elim (Bool-cases (text_eq path path')) [
      | inl same ↦ rw same refl
      | inr other ↦ rw other refl
    ],
  )

  -- The entry before the one of the path stays.
  put_back-Puts :
      (method path p : Text) (handler : Handler B) (methods : Methods B) (rest : Registry B)
      (result : Option (Registry B))
      → text_eq p path ≡ false
      → Puts method path handler rest result
      → Puts method path handler ((p, methods) ∷ rest) (put_back (p, methods) result)
  put_back-Puts method path p handler methods rest none other h = rw other h
  put_back-Puts method path p handler methods rest (some rest') other (open_, kept) = (
    rw other open_,
    λ method' path'. elim (Bool-cases (text_eq p path')) [
      | inl same ↦ rw (same, text_eq-apart p path' path same other) refl
      | inr apart ↦ rw apart (kept method' path')
    ],
  )

  Puts-if :
      (method path : Text) (handler : Handler B) (registry : Registry B) (test : Bool)
      (first second : Option (Registry B))
      → (test ≡ true → Puts method path handler registry first)
      → (test ≡ false → Puts method path handler registry second)
      → Puts method path handler registry (if test then first else second)
  Puts-if method path handler registry true first second h k = h refl
  Puts-if method path handler registry false first second h k = k refl

  put_route-Puts :
      (method path : Text) (handler : Handler B) (registry : Registry B)
      → Puts method path handler registry (put_route method path handler registry)
  unfolding put_route
  put_route-Puts method path handler [] = nil-Puts method path handler
  put_route-Puts method path handler ((p, methods) ∷ rest) =
      Puts-if method path handler ((p, methods) ∷ rest) (text_eq p path) _ _
        (λ same.
          subst
            (λ q.
              Puts method q handler ((p, methods) ∷ rest)
                (put_methods p rest (add_method method handler methods)))
            ((text_eq_iff p path).0 same) (add_method-Puts method p handler methods rest))
        (λ other.
          put_back-Puts method path p handler methods rest _ other
            (put_route-Puts method path handler rest))

  -- What a registration does: it panics if the route is taken, or if the path is new and the mux
  -- refuses it; and else it adds the route and changes no other.
  abbrev pub Registers : Text → Text → Handler B → Registry B → Option (Registry B) → Type 0
  Registers method path handler registry none =
      (route_of method path registry ≢ none)
      ⊎ ((has_path path registry ≡ false) × (accepts (paths_of registry) path ≡ false))
  Registers method path handler registry (some registry') =
      (route_of method path registry ≡ none)
      × ((has_path path registry ≡ true) ⊎ (accepts (paths_of registry) path ≡ true))
      × ((method' path' : Text)
          → route_of method' path' registry' ≡ (
              if text_eq path path' && text_eq method method'
              then some handler
              else route_of method' path' registry))

  Puts-Registers :
      (method path : Text) (handler : Handler B) (registry : Registry B)
      (result : Option (Registry B))
      → (has_path path registry ≡ true) ⊎ (accepts (paths_of registry) path ≡ true)
      → Puts method path handler registry result
      → Registers method path handler registry result
  Puts-Registers method path handler registry none allowed taken = inl taken
  Puts-Registers method path handler registry (some registry') allowed (free, routes) =
      (free, allowed, routes)

  pub handle_lem :
      (method path : Text) (handler : Handler B) (registry : Registry B)
      → Registers method path handler registry (handle method path handler registry)
  unfolding handle
  handle_lem method path handler registry = elim (Bool-cases (has_path path registry)) [
    | inl old ↦ rw old (
        Puts-Registers method path handler registry (put_route method path handler registry)
          (inl old) (put_route-Puts method path handler registry))
    | inr new ↦ elim (Bool-cases (accepts (paths_of registry) path)) [
      | inl accepted ↦
          rw (new, accepted)
            (Puts-Registers method path handler registry (put_route method path handler registry)
              (inr accepted) (put_route-Puts method path handler registry))
      | inr refused ↦ rw (new, refused) (inr (new, refused))
    ]
  ]

  -- For ASCII paths that begin with a slash: registering a handler panics exactly if the path has a
  -- handler for the method, or if it is new and its pattern is malformed or conflicts with that of
  -- another path; and else the path has this handler for the method afterwards, and every other route
  -- is as before.
  pub handle-Registers :
      (method path : Text) (handler : Handler B) (registry : Registry B)
      → IsPlainPath path
      → Registers method path handler registry (handle method path handler registry)
  handle-Registers method path handler registry plain = handle_lem method path handler registry
