-- ===== src/Api/Routes/Laws.antt =====
-- What holds of each handler that is registered holds of each handler of the registry.
use libvirt_rest_api.Base.{
  Bool, true, false, ◌||◌, if◌then◌else◌, subst, inl, inr, Option, none, some, List, [], ◌∷◌, Text,
  text_eq, Bool-cases, Option-cases, All, All-append,
}
use libvirt_rest_api.Api.Http.{Handler}
use libvirt_rest_api.Api.Auth.{Server, require_scope}
use libvirt_rest_api.Api.Routes.{
  Methods, Registry, put_back, put_methods, find_method, add_method, put_route, has_path, paths_of,
  handle,
}
use libvirt_rest_api.Api.Mux.{accepts}
use libvirt_rest_api.Api.Routes.Table.{Registration, handle_all}

-- What an operation that may fail returns.
abbrev pub OptionAll : {A : Type 0} → (A → Type 0) → Option A → Type 0
OptionAll P none = Unit
OptionAll P (some a) = P a

pub OptionAll-if :
    {A : Type 0} (P : A → Type 0) (test : Bool) (m n : Option A)
    → OptionAll P m
    → OptionAll P n
    → OptionAll P (if test then m else n)
OptionAll-if P true m n h k = h
OptionAll-if P false m n h k = k

module _ {B : Type 0} (Q : Handler B → Type 0) where
  abbrev pub MethodsAll : Methods B → Type 0
  MethodsAll methods = All (λ entry. Q entry.1) methods

  abbrev pub RegistryAll : Registry B → Type 0
  RegistryAll registry = All (λ entry. MethodsAll entry.1) registry

  pub find_method-All :
      (method : Text) (methods : Methods B)
      → MethodsAll methods
      → OptionAll Q (find_method method methods)
  unfolding find_method
  find_method-All method [] h = tt
  find_method-All method ((m, handler) ∷ rest) (first, others) =
      elim (Bool-cases (text_eq m method)) [
        | inl e ↦ rw e first
        | inr e ↦ rw e (find_method-All method rest others)
      ]

  add_method-All :
      (method : Text) (next : Handler B) (methods : Methods B)
      → Q next
      → MethodsAll methods
      → OptionAll MethodsAll (add_method method next methods)
  unfolding add_method
  add_method-All method next methods fits h = elim (Option-cases (find_method method methods)) [
    | inl e ↦
        rw (e, OptionAll, add_method)
          (All-append (λ entry. Q entry.1) methods ((method, next) ∷ []) h (fits, tt))
    | inr (other, e) ↦ rw (e, OptionAll, add_method) tt
  ]

  put_methods-All :
      (path : Text) (rest : Registry B) (methods : Option (Methods B))
      → OptionAll MethodsAll methods
      → RegistryAll rest
      → OptionAll RegistryAll (put_methods path rest methods)
  put_methods-All path rest none h others = tt
  put_methods-All path rest (some methods) h others = (h, others)

  put_back-All :
      (path : Text) (methods : Methods B) (rest : Option (Registry B))
      → MethodsAll methods
      → OptionAll RegistryAll rest
      → OptionAll RegistryAll (put_back (path, methods) rest)
  put_back-All path methods none first h = tt
  put_back-All path methods (some rest) first h = (first, h)

  put_route-All :
      (method path : Text) (next : Handler B) (registry : Registry B)
      → Q next
      → RegistryAll registry
      → OptionAll RegistryAll (put_route method path next registry)
  unfolding put_route
  put_route-All method path next [] fits h =
      put_methods-All path [] (add_method method next []) (add_method-All method next [] fits tt) tt
  put_route-All method path next ((p, methods) ∷ rest) fits (first, others) =
      elim (Bool-cases (text_eq p path)) [
        | inl e ↦ rw e (
            put_methods-All p rest (add_method method next methods)
              (add_method-All method next methods fits first) others)
        | inr e ↦ rw e (
            put_back-All p methods (put_route method path next rest) first
              (put_route-All method path next rest fits others))
      ]

  handle-All :
      (method path : Text) (next : Handler B) (registry : Registry B)
      → Q next
      → RegistryAll registry
      → OptionAll RegistryAll (handle method path next registry)
  unfolding handle
  handle-All method path next registry fits h =
      OptionAll-if RegistryAll (has_path path registry || accepts (paths_of registry) path) _ _
        (put_route-All method path next registry fits h) tt

  module _ (s : Server) where
    pub handle_all-All :
        (entries : List (Registration B)) (registry : Registry B)
        → All (λ entry. Q (require_scope s entry.required entry.handler)) entries
        → RegistryAll registry
        → OptionAll RegistryAll (handle_all s entries registry)
    unfolding handle_all
    handle_all-All [] registry kept h = h
    handle_all-All (entry ∷ rest) registry (first, others) h =
        let guarded : Handler B = require_scope s entry.required entry.handler in
        let added = handle-All entry.method entry.path guarded registry first h in
        elim (Option-cases (handle entry.method entry.path guarded registry)) [
          | inl e ↦ rw (e, OptionAll, handle_all) tt
          | inr (longer, e) ↦
              rw (e, OptionAll, handle_all)
                (handle_all-All rest longer others (subst (OptionAll RegistryAll) e added))
        ]
