-- ===== src/Api/Middleware.antt =====
-- internal/api/server.go: what wraps the routes. `limit` stands for `http.MaxBytesReader`.
pub mod Origins
use libvirt_rest_api.Base.{is_set, ℕ, not, text, text_eq, if◌then◌else◌}
use libvirt_rest_api.Errors.{lit_of}
use libvirt_rest_api.Api.Http.{
  Handler, ◌>>◌, Flow, done, panicked, set_header, write_header, write_error, log_line,
  request_served, panic_recovered,
}
use libvirt_rest_api.Api.Auth.{Server}
use libvirt_rest_api.Api.Validate.{one_of}

abbrev pub max_request_body : ℕ
max_request_body = 1048576

-- The deferred function: a panic in it is not caught.
abbrev pub recover : Flow (Unit {0}) → Flow (Unit {0})
recover (done a st) = done a st
recover (panicked st) =
    (log_line panic_recovered
        >> write_error 500 (text "internal_error") (lit_of "internal server error"))
      st

module _ {B : Type 0} where
  unfoldable pub cors : Server → Handler B → Handler B
  cors s next r =
      let origin = r.header (text "Origin") in
      if not (is_set origin)
      then next r
      else if not (one_of s.allowed_origins origin)
      then write_error 403 (text "origin_forbidden") (lit_of "origin is not allowed")
      else do
        set_header (text "Access-Control-Allow-Origin") origin
        set_header (text "Vary") (text "Origin")
        set_header (text "Access-Control-Allow-Headers")
            (text "Authorization, Content-Type, Last-Event-ID")
        set_header (text "Access-Control-Allow-Methods") (text "GET, POST, PATCH, DELETE, OPTIONS")
        if text_eq r.method (text "OPTIONS") then write_header 204 else next r

  unfoldable pub security_headers : (limit : ℕ → B → B) → Handler B → Handler B
  security_headers limit next r = do
    set_header (text "X-Content-Type-Options") (text "nosniff")
    set_header (text "X-Frame-Options") (text "DENY")
    set_header (text "Referrer-Policy") (text "no-referrer")
    next (record r { body = limit max_request_body r.body })

  -- A panic passes the log line by.
  unfoldable pub access_log : Handler B → Handler B
  access_log next r = do next r; log_line (request_served r.method r.path)

  unfoldable pub recover_panic : Handler B → Handler B
  recover_panic next r st = recover (next r st)
