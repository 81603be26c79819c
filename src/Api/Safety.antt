-- ===== src/Api/Safety.antt =====
-- What the server of internal/api/server.go guarantees for every request and every service.
pub mod Headers
mod Tests
use libvirt_rest_api.Base.{
  ℕ, ◌≡◌, refl, sym, subst, ap, ◌∙◌, inl, inr, ◌⊎◌, true, Option, some, none, List, [], ◌∷◌, ◌++◌,
  All, All-append, append_assoc, append-nil, Text, text,
}
use libvirt_rest_api.Service.{Service, Call}
use libvirt_rest_api.Api.Http.{Request, Handler, State, Flow, done, panicked, final}
use libvirt_rest_api.Api.Auth.{Scope, Server}
use libvirt_rest_api.Api.Auth.Guard.{Open, authorization}
use libvirt_rest_api.Api.Decode.{Json}
use libvirt_rest_api.Api.Routes.Table.{new_server}
use libvirt_rest_api.Api.Keeps.{Stable, Holds}
use libvirt_rest_api.Api.Keeps.Handlers.{Allows}
use libvirt_rest_api.Api.Keeps.Valid.{call_scope, Valid}
use libvirt_rest_api.Api.Keeps.Served.{new_server-Served, armed_state}

-- `calls` are those of `old`, and then some that are all of the kind.
pub record Since (Allowed : Call → Type 0) (old calls : List Call) : Type 0 where
  pub made : List Call
  pub history : calls ≡ old ++ made
  pub allowed : All Allowed made

module _ (Allowed : Call → Type 0) (old : List Call) where
  Since-ask :
      (calls : List Call) (call : Call)
      → Allowed call
      → Since Allowed old calls
      → Since Allowed old (calls ++ call ∷ [])
  Since-ask calls call h since = record {
    made = since.made ++ call ∷ [];
    history =
        ap (λ earlier. earlier ++ call ∷ []) since.history
        ∙ append_assoc old since.made (call ∷ []);
    allowed = All-append Allowed since.made (call ∷ []) since.allowed (h, tt);
  }

  abbrev CallsSince : State → Type 0
  CallsSince st = Since Allowed old st.calls

  Since-Stable : Stable CallsSince CallsSince Allowed (λ _. Unit {0})
  Since-Stable = record {
    free = λ key h. tt;
    set_header_kept = λ key value h st since. since;
    write_header_kept = λ status st since. since;
    write_kept = λ payload st since. since;
    write_failed = λ payload st since failed. since;
    encode_failed = λ payload st broken since. since;
    deadline_kept = λ st since. since;
    log_kept = λ line st since. since;
    ask_kept = λ service call h st since. Since-ask st.calls call h since;
  }

Since-none : (Allowed : Call → Type 0) (old : List Call) → Since Allowed old old
Since-none Allowed old = record { made = []; history = sym (append-nil old); allowed = tt }

-- The invariant at the end, by a return or by a panic.
pub Holds-final :
    {A : Type 0} (I : State → Type 0) (flow : Flow A) → Holds I I flow → I (final flow)
Holds-final I (done a st) h = h
Holds-final I (panicked st) h = h

-- Every write succeeds.
abbrev Accepting : State → Type 0
Accepting st = (n : ℕ) → st.writer.accepts n ≡ true

-- The call is one that the server may make for this request.
abbrev pub Granted : {B : Type 0} → Server → Request B → Call → Type 0
Granted s r call = Open s (call_scope call) (authorization r)

module _ {B : Type 0} (service : Service) (json : Json B) (limit : ℕ → B → B) (s : Server)
    (serve : Handler B) (built : new_server service json limit s ≡ some serve) (r : Request B)
    (st : State) where
  -- Whatever the service answers, each call that a request causes is one whose scope the request's
  -- token grants, unless the scope is public or the server has no credentials.
  pub server_calls_authorized : Since (Granted s r) st.calls (final (serve r st)).calls
  server_calls_authorized = Holds-final (CallsSince (Granted s r) st.calls) (serve r st) (
      new_server-Served (Since-Stable (Granted s r) st.calls) s (authorization r)
        (λ required open_ call valid same.
          subst (λ scope. Open s scope (authorization r)) (sym same) open_)
        (λ st' h. h) limit (λ st' h. h) service json serve built r refl st
        (Since-none (Granted s r) st.calls))

  -- Whatever a request holds, each call of the service that it causes has arguments that passed
  -- the checks of names, modes, sources, kinds and states.
  pub server_calls-Valid : Since Valid st.calls (final (serve r st)).calls
  server_calls-Valid = Holds-final (CallsSince Valid st.calls) (serve r st) (
      new_server-Served (Since-Stable Valid st.calls) s (authorization r)
        (λ required open_ call valid same. valid) (λ st' h. h) limit (λ st' h. h) service json serve
        built r refl st (Since-none Valid st.calls))
