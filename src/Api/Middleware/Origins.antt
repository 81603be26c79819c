-- ===== src/Api/Middleware/Origins.antt =====
-- internal/api/server.go: what `cors` does with a request, by its Origin header.
use libvirt_rest_api.Base.{
  is_set, ℕ, ◌≡◌, refl, arith, text_eq_iff, inl, inr, Bool, true, false, some, none, Text, text,
  text_eq, Bool-cases, ◌∙◌,
}
use libvirt_rest_api.Errors.{Message}
use libvirt_rest_api.Api.Http.{
  Request, Handler, State, Flow, final, ◌>>=◌, get_field, set_header, status_of, write_header,
  write_error,
}
use libvirt_rest_api.Api.Http.Fields.{get_field-set_field, get_field-set_field_other}
use libvirt_rest_api.Api.Auth.{Server}
use libvirt_rest_api.Api.Validate.{one_of}
use libvirt_rest_api.Api.Middleware.{cors}

module _ {B : Type 0} (s : Server) (next : Handler B) (r : Request B) (st : State) where
  abbrev pub origin : Text
  origin = r.header (text "Origin")

  abbrev pub is_allowed : Bool
  is_allowed = one_of s.allowed_origins origin

  -- The four things that can happen.
  pub data CorsOutcome : Flow (Unit {0}) → Type 0 where
    same_origin : is_set origin ≡ false → CorsOutcome (next r st)
    refused :
        {flow : Flow (Unit {0})}
        → is_set origin ≡ true
        → is_allowed ≡ false
        → (final flow).calls ≡ st.calls
        → status_of (final flow) ≡ some 403
        → CorsOutcome flow
    preflight :
        {flow : Flow (Unit {0})}
        → is_allowed ≡ true
        → r.method ≡ text "OPTIONS"
        → (final flow).calls ≡ st.calls
        → status_of (final flow) ≡ some 204
        → get_field (text "Access-Control-Allow-Origin") (final flow).writer.header ≡ some origin
        → CorsOutcome flow
    allowed :
        {st' : State}
        → is_allowed ≡ true
        → text_eq r.method (text "OPTIONS") ≡ false
        → st'.calls ≡ st.calls
        → get_field (text "Access-Control-Allow-Origin") st'.writer.header ≡ some origin
        → CorsOutcome (next r st')

apart :
    (text_eq (text "Vary") (text "Access-Control-Allow-Origin") ≡ false)
    × (text_eq (text "Access-Control-Allow-Headers") (text "Access-Control-Allow-Origin") ≡ false)
    × (text_eq (text "Access-Control-Allow-Methods") (text "Access-Control-Allow-Origin") ≡ false)
unfolding text_eq text
apart = (refl, refl, refl)

-- The state after the four headers.
abbrev allowing_state : Text → State → State
allowing_state o st = final (
    set_header (text "Access-Control-Allow-Methods") (text "GET, POST, PATCH, DELETE, OPTIONS") (
      final (
        set_header (text "Access-Control-Allow-Headers")
          (text "Authorization, Content-Type, Last-Event-ID")
          (final (
            set_header (text "Vary") (text "Origin")
              (final (set_header (text "Access-Control-Allow-Origin") o st)))))))

origin_kept :
    (o : Text) (st : State)
    → get_field (text "Access-Control-Allow-Origin") (allowing_state o st).writer.header ≡ some o
origin_kept o st =
    let (a, b, c) = apart in
    get_field-set_field_other _ _ _ _ c
    ∙ get_field-set_field_other _ _ _ _ b
    ∙ get_field-set_field_other _ _ _ _ a
    ∙ get_field-set_field _ _ _

write_header-status :
    (status : ℕ) (st : State)
    → st.writer.sent ≡ none
    → status_of (final (write_header status st)) ≡ some status
write_header-status status st fresh = ground arith

write_error-refuses :
    (status : ℕ) (code : Text) (message : Message) (st : State)
    → st.writer.sent ≡ none
    → ((final (write_error status code message st)).calls ≡ st.calls)
      × (status_of (final (write_error status code message st)) ≡ some status)
unfolding write_error ◌>>=◌
write_error-refuses status code message st fresh = ground arith

module _ {B : Type 0} (s : Server) (next : Handler B) (r : Request B) (st : State) where
  -- A request without an Origin goes on; one from an origin that is not configured is answered 403
  -- and nothing is asked of the service; a preflight from one that is is answered 204 with the
  -- origin, without asking the service; any other request from it goes on, with the origin in the header.
  pub cors-CorsOutcome : st.writer.sent ≡ none → CorsOutcome s next r st (cors s next r st)
  unfolding cors ◌>>=◌
  cors-CorsOutcome fresh = elim (Bool-cases (is_set (r.header (text "Origin")))) [
    | inr absent ↦ rw (absent, cors) (same_origin absent)
    | inl present ↦ elim (Bool-cases (one_of s.allowed_origins (r.header (text "Origin")))) [
      | inr foreign ↦
          let (quiet, answered) = write_error-refuses 403 _ _ st fresh in
          rw (present, foreign, cors) (refused present foreign quiet answered)
      | inl known ↦ elim (Bool-cases (text_eq r.method (text "OPTIONS"))) [
        | inl options ↦
            rw (present, known, options, cors)
              (preflight known ((text_eq_iff r.method (text "OPTIONS")).0 options) refl
                (write_header-status 204 (allowing_state (r.header (text "Origin")) st) fresh)
                (origin_kept _ st))
        | inr other ↦
            rw (present, known, other, cors)
              (allowed {st' = allowing_state (r.header (text "Origin")) st} known other refl
                (origin_kept _ st))
      ]
    ]
  ]
