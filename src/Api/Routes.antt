-- ===== src/Api/Routes.antt =====
-- internal/api/server.go: the route registry, the dispatch on the method, and the table that `New`
-- fills. A panic of the registration, of its own or of the mux, is `none`.
pub mod Table
pub mod Laws
pub mod Registration
pub mod Complete
use libvirt_rest_api.Base.{
  ℕ, Bool, true, false, not, ◌&&◌, ◌||◌, List, [], ◌∷◌, ◌++◌, Option, none, some, Text, text,
  text_eq, cut, ltb, ◌==◌, if◌then◌else◌,
}
use libvirt_rest_api.Errors.{lit_of}
use libvirt_rest_api.Api.Mux.{accepts, match_path, pattern_of}
use libvirt_rest_api.Api.Http.{Request, Handler, M, ◌>>◌, ◌>>=◌, set_header, write_error}

abbrev pub method_get : Text
method_get = text "GET"

abbrev pub method_head : Text
method_head = text "HEAD"

abbrev pub effective_method : Text → Text
effective_method method = if text_eq method method_head then method_get else method

-- The order of Go strings, and `slices.Sort` by insertion.
unfoldable pub text_before : Text → Text → Bool
text_before [] _ = true
text_before (_ ∷ _) [] = false
text_before (a ∷ s) (b ∷ t) = ltb a b || a == b && text_before s t

unfoldable insert_text : Text → List Text → List Text
insert_text t [] = t ∷ []
insert_text t (s ∷ rest) =
    let later = insert_text t rest in if text_before t s then t ∷ s ∷ rest else s ∷ later

unfoldable pub sort_texts : List Text → List Text
unfolding insert_text
sort_texts [] = []
sort_texts (t ∷ rest) = insert_text t (sort_texts rest)

unfoldable pub join : List Text → Text
join [] = []
join (t ∷ []) = t
join (t ∷ u ∷ rest) = t ++ (text ", " ++ join (u ∷ rest))

abbrev pub Methods : Type 0 → Type 0
Methods B = List (Text × Handler B)

-- `routes`: each path that was registered with its methods.
abbrev pub Registry : Type 0 → Type 0
Registry B = List (Text × Methods B)

module _ {B : Type 0} where
  unfoldable pub find_method : Text → Methods B → Option (Handler B)
  find_method method [] = none
  find_method method ((m, h) ∷ rest) = if text_eq m method then some h else find_method method rest

  -- `methods[method] = handler` behind the check for a duplicate, with what the lookup found.
  abbrev pub add_found : Text → Handler B → Methods B → Option (Handler B) → Option (Methods B)
  add_found method handler methods (some _) = none
  add_found method handler methods none = some (methods ++ (method, handler) ∷ [])

  unfoldable pub add_method : Text → Handler B → Methods B → Option (Methods B)
  unfolding find_method
  add_method method handler methods = add_found method handler methods (find_method method methods)

  abbrev pub put_back : (Text × Methods B) → Option (Registry B) → Option (Registry B)
  put_back entry none = none
  put_back entry (some rest) = some (entry ∷ rest)

  abbrev pub put_methods : Text → Registry B → Option (Methods B) → Option (Registry B)
  put_methods path rest none = none
  put_methods path rest (some methods) = some ((path, methods) ∷ rest)

  -- The handler among those of its path.
  unfoldable pub put_route : Text → Text → Handler B → Registry B → Option (Registry B)
  unfolding add_method
  put_route method path put_router [] = put_methods path [] (add_method method put_router [])
  put_route method path put_router ((p, methods) ∷ rest) =
      let later = put_route method path put_router rest in
      if text_eq p path
      then put_methods p rest (add_method method put_router methods)
      else put_back (p, methods) later

  abbrev pub paths_of : Registry B → List Text
  paths_of [] = []
  paths_of ((path, _) ∷ rest) = path ∷ paths_of rest

  abbrev pub has_path : Text → Registry B → Bool
  has_path path [] = false
  has_path path ((p, _) ∷ rest) = text_eq p path || has_path path rest

  -- A path that is new is given to the mux, which may refuse it.
  unfoldable pub handle : Text → Text → Handler B → Registry B → Option (Registry B)
  unfolding put_route
  handle method path handler registry =
      if has_path path registry || accepts (paths_of registry) path
      then put_route method path handler registry
      else none

  -- The methods that a 405 names: HEAD comes with GET.
  unfoldable pub allowed_methods : Methods B → List Text
  allowed_methods [] = []
  allowed_methods ((m, _) ∷ rest) =
      let others = allowed_methods rest in
      if text_eq m method_get then m ∷ method_head ∷ others else m ∷ others

  -- The handler that a path has in the mux.
  unfoldable pub dispatch : Methods B → Handler B
  dispatch methods r = elim (find_method (effective_method r.method) methods) [
    | some handler ↦ handler r
    | none ↦ do
      set_header (text "Allow") (join (sort_texts (allowed_methods methods)))
      write_error 405 (text "method_not_allowed") (lit_of "method not allowed")
  ]

  -- The mux: at most one pattern of the table matches a path, so the order is immaterial.
  unfoldable pub serve_mux : Registry B → Handler B
  unfolding dispatch
  serve_mux [] r = write_error 404 (text "not_found") (lit_of "endpoint not found")
  serve_mux ((path, methods) ∷ rest) r = elim (match_path (pattern_of path) r.path) [
    | some values ↦ dispatch methods (record r { path_values = values })
    | none ↦ serve_mux rest r
  ]
