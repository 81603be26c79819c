-- ===== src/Api/Safety/Headers.antt =====
-- internal/api/server.go: the headers of `securityHeaders` on every response.
use libvirt_rest_api.Base.{
  ℕ, ◌≡◌, refl, sym, subst, ◌∙◌, true, false, Option, some, none, List, ◌∷◌, Text, text, text_eq,
  arith,
}
use libvirt_rest_api.Service.{Service}
use libvirt_rest_api.Api.Http.{
  Request, Handler, State, final, Header, get_field, set_field, status_line,
}
use libvirt_rest_api.Api.Http.Fields.{get_field-set_field, get_field-set_field_other}
use libvirt_rest_api.Api.Auth.{Server}
use libvirt_rest_api.Api.Auth.Guard.{authorization}
use libvirt_rest_api.Api.Validate.{one_of}
use libvirt_rest_api.Api.Decode.{Json}
use libvirt_rest_api.Api.Routes.Table.{new_server}
use libvirt_rest_api.Api.Keeps.{Stable, is_free}
use libvirt_rest_api.Api.Keeps.Served.{new_server-Served, armed_state}
use libvirt_rest_api.Api.Safety.{Holds-final}

-- The three fields of `securityHeaders`.
pub record Secured (header : Header) : Type 0 where
  pub no_sniffing : get_field (text "X-Content-Type-Options") header ≡ some (text "nosniff")
  pub no_frames : get_field (text "X-Frame-Options") header ≡ some (text "DENY")
  pub no_referrer : get_field (text "Referrer-Policy") header ≡ some (text "no-referrer")

not_one_of :
    (key word : Text) (words : List Text)
    → one_of (word ∷ words) key ≡ false
    → text_eq key word ≡ false
not_one_of key word words h = ground arith

free-apart :
    (key : Text)
    → is_free key ≡ true
    → (text_eq key (text "X-Content-Type-Options") ≡ false)
      × (text_eq key (text "X-Frame-Options") ≡ false)
      × (text_eq key (text "Referrer-Policy") ≡ false)
free-apart key h = ground arith

set_field-Secured :
    (key value : Text) (header : Header)
    → is_free key ≡ true
    → Secured header
    → Secured (set_field key value header)
set_field-Secured key value header is_ok secured =
    let (first, second, third) = free-apart key is_ok in
    record {
      no_sniffing = get_field-set_field_other _ key value header first ∙ secured.no_sniffing;
      no_frames = get_field-set_field_other _ key value header second ∙ secured.no_frames;
      no_referrer = get_field-set_field_other _ key value header third ∙ secured.no_referrer;
    }

-- What went out carries the fields.
abbrev pub SentSecured : Option (ℕ × Header) → Type 0
SentSecured none = Unit
SentSecured (some (_, header)) = Secured header

abbrev WriterSecured : State → Type 0
WriterSecured st = Secured st.writer.header × SentSecured st.writer.sent

first_status-Secured :
    (status : ℕ) (header : Header) (sent : Option (ℕ × Header))
    → Secured header
    → SentSecured sent
    → SentSecured (status_line status header sent)
first_status-Secured status header none secured h = secured
first_status-Secured status header (some line) secured h = h

WriterSecured-Stable :
    Stable WriterSecured WriterSecured (λ _. Unit {0}) (λ key. is_free key ≡ true)
WriterSecured-Stable = record {
  free = λ key h. h;
  set_header_kept =
      λ key value h st (now, sent). (set_field-Secured key value st.writer.header h now, sent);
  write_header_kept = λ status st (now, sent).
      (now, first_status-Secured status st.writer.header st.writer.sent now sent);
  write_kept = λ payload st (now, sent).
      (now, first_status-Secured 200 st.writer.header st.writer.sent now sent);
  write_failed = λ payload st (now, sent) failed.
      (now, first_status-Secured 200 st.writer.header st.writer.sent now sent);
  encode_failed = λ payload st broken h. h;
  deadline_kept = λ st h. h;
  log_kept = λ line st h. h;
  ask_kept = λ service call allowed st h. h;
}

frames-apart :
    (text_eq (text "X-Frame-Options") (text "X-Content-Type-Options") ≡ false)
    × (text_eq (text "Referrer-Policy") (text "X-Content-Type-Options") ≡ false)
    × (text_eq (text "Referrer-Policy") (text "X-Frame-Options") ≡ false)
unfolding text_eq text
frames-apart = (refl, refl, refl)

armed-Secured : (st : State) → st.writer.sent ≡ none → WriterSecured (armed_state st)
armed-Secured st fresh =
    let (a, b, c) = frames-apart in
    (
      record {
        no_sniffing =
            get_field-set_field_other _ _ _ _ b
            ∙ get_field-set_field_other _ _ _ _ a
            ∙ get_field-set_field _ _ _;
        no_frames = get_field-set_field_other _ _ _ _ c ∙ get_field-set_field _ _ _;
        no_referrer = get_field-set_field _ _ _;
      },
      subst SentSecured (sym fresh) tt,
    )

module _ {B : Type 0} (service : Service) (json : Json B) (limit : ℕ → B → B) (s : Server)
    (serve : Handler B) (built : new_server service json limit s ≡ some serve) (r : Request B)
    (st : State) where
  -- Every response of the server, refusals and recovered panics included, goes out with the three
  -- security headers.
  pub responses_secured : st.writer.sent ≡ none → SentSecured (final (serve r st)).writer.sent
  responses_secured fresh =
      (Holds-final WriterSecured (serve r st) (
        new_server-Served WriterSecured-Stable s (authorization r)
          (λ required open_ call valid same. tt) armed-Secured limit (λ st' h. h) service json serve
          built r refl st fresh)).1
