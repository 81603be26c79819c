-- ===== src/Api/Http.antt =====
-- internal/api/server.go: requests, responses and the two functions that write them. What a handler
-- changes is threaded through it: the response, the calls of the service and the log. A panic
-- carries the state that it leaves behind.
pub mod Fields
use libvirt_rest_api.Base.{
  ℕ, suc, ◌*◌, ◌^◌, ltb, ◌&&◌, Bool, true, false, List, [], ◌∷◌, ◌++◌, Option, none, some, Text,
  text, text_eq, if◌then◌else◌, ℤ,
}
use libvirt_rest_api.Broker.{LifecycleEvent}
use libvirt_rest_api.Errors.{Message}
use libvirt_rest_api.Service.{
  Host, HostStats, Domain, DomainInfo, DomainStats, DomainInterfaces, Autostart, Snapshot,
  SnapshotActionResult, Viewer, ActionResult, Call, Answer, Service,
}

abbrev pub Header : Type 0
Header = List (Text × Text)

-- What is encoded into the body.
pub data Payload : Type 0 where
  status_object : Text → Payload
  error_object : (code : Text) (message : Message) → Payload
  host_object : Host → Payload
  host_stats_object : HostStats → Payload
  vms_object : List Domain → Payload
  domain_object : DomainInfo → Payload
  domain_stats_object : DomainStats → Payload
  interfaces_object : DomainInterfaces → Payload
  autostart_object : Autostart → Payload
  snapshots_object : List Snapshot → Payload
  snapshot_object : Snapshot → Payload
  snapshot_action_object : SnapshotActionResult → Payload
  viewer_object : Viewer → Payload
  action_object : ActionResult → Payload
  plain_text : Text → Payload
  bytes : List ℕ → Payload
  event_frame : (name : Text) → LifecycleEvent → Payload

-- `http.ResponseWriter`. `sent` is the status line and the headers that went out with it;
-- `accepts n` says whether the n-th write succeeds.
pub record ResponseWriter : Type 0 where
  pub header : Header
  pub sent : Option (ℕ × Header)
  pub body : List Payload
  pub attempts : ℕ
  pub accepts : ℕ → Bool
  pub can_flush : Bool
  pub has_deadline : Bool

pub data LogLine : Type 0 where
  not_ready : LogLine
  request_failed : LogLine
  request_served : (method : Text) (path : List Text) → LogLine
  panic_recovered : LogLine
  screenshot_broken : LogLine

pub record State : Type 0 where
  pub writer : ResponseWriter
  pub calls : List Call
  pub log : List LogLine

pub data Flow (A : Type 0) : Type 0 where
  done : A → State → Flow A
  panicked : State → Flow A

abbrev pub M : Type 0 → Type 0
M A = State → Flow A

-- What happens after a result, and after a panic: nothing.
abbrev pub follow : {A B : Type 0} → Flow A → (A → M B) → Flow B
follow (done a st) k = k a st
follow (panicked st) k = panicked st

infixl 5 ◌>>=◌ ◌>>◌
unfoldable pub ◌>>=◌ : {A B : Type 0} → M A → (A → M B) → M B
◌>>=◌ m k s = follow (m s) k

abbrev pub ◌>>◌ : {B : Type 0} → M (Unit {0}) → M B → M B
m >> k = m >>= λ _. k

abbrev pub pure : {A : Type 0} → A → M A
pure a s = done a s

abbrev pub panic : {A : Type 0} → M A
panic s = panicked s

-- The state in which a handler ends, by a return or by a panic.
abbrev pub final : {A : Type 0} → Flow A → State
final (done _ s) = s
final (panicked s) = s

abbrev pub status_of : State → Option ℕ
status_of s = elim s.writer.sent [ none ↦ none | some (status, _) ↦ some status ]

-- `w.Header().Set(key, value)`.
unfoldable pub set_field : Text → Text → Header → Header
set_field key value [] = (key, value) ∷ []
set_field key value ((k, v) ∷ rest) =
    if text_eq k key then (key, value) ∷ rest else (k, v) ∷ set_field key value rest

unfoldable pub get_field : Text → Header → Option Text
get_field key [] = none
get_field key ((k, v) ∷ rest) = if text_eq k key then some v else get_field key rest

abbrev pub with_writer : (ResponseWriter → ResponseWriter) → M (Unit {0})
with_writer f s = done tt (record s { writer = f s.writer })

abbrev pub set_header : Text → Text → M (Unit {0})
set_header key value = with_writer (λ w. record w { header = set_field key value w.header })

abbrev pub status_line : ℕ → Header → Option (ℕ × Header) → Option (ℕ × Header)
status_line status header none = some (status, header)
status_line status header (some line) = some line

-- `w.WriteHeader(status)`: only the first call counts.
abbrev pub first_status : ℕ → ResponseWriter → ResponseWriter
first_status status w = record w { sent = status_line status w.header w.sent }

abbrev pub write_header : ℕ → M (Unit {0})
write_header status = with_writer (first_status status)

-- `w.Write`: a status line of 200 goes out first if there was none; the result is whether the
-- write succeeded.
abbrev pub write : Payload → M Bool
write payload s =
    let w = first_status 200 s.writer in
    let success = w.accepts w.attempts in
    done success (record s {
      writer = record w {
        body = if success then w.body ++ payload ∷ [] else w.body;
        attempts = suc w.attempts;
      };
    })

-- `http.NewResponseController(w).SetWriteDeadline(time.Time{})`.
abbrev pub clear_deadline : M (Unit {0})
clear_deadline = with_writer (λ w. record w { has_deadline = false })

abbrev pub log_line : LogLine → M (Unit {0})
log_line line s = done tt (record s { log = s.log ++ line ∷ [] })

-- A call of the service, which may answer by all that it was asked before.
abbrev pub ask : Service → (call : Call) → M (Answer call)
ask service call s = done (service s.calls call) (record s { calls = s.calls ++ call ∷ [] })

-- encoding/json refuses a time after the year 9999; every value without one has an encoding.
abbrev pub time_fits : Option ℕ → Bool
time_fits none = true
time_fits (some nanoseconds) = ltb nanoseconds (253402300800 * 10 ^ 9)

abbrev pub times_fit : List Snapshot → Bool
times_fit [] = true
times_fit (snapshot ∷ rest) = time_fits snapshot.created_at && times_fit rest

abbrev pub can_encode : Payload → Bool
can_encode (host_stats_object stats) = time_fits (some stats.sampled_at)
can_encode (domain_stats_object stats) = time_fits (some stats.sampled_at)
can_encode (snapshot_object snapshot) = time_fits snapshot.created_at
can_encode (snapshots_object snapshots) = times_fit snapshots
can_encode _ = true

-- `json.NewEncoder(w).Encode(value)`: nothing is written of a value without an encoding. The result
-- is whether there was no error.
abbrev pub encode : Payload → M Bool
encode value = if can_encode value then write value else pure false

unfoldable pub write_json : ℕ → Payload → M (Unit {0})
write_json status value = do
  set_header (text "Content-Type") (text "application/json; charset=utf-8")
  write_header status
  success ← encode value
  if success then pure tt else panic

unfoldable pub write_error : ℕ → Text → Message → M (Unit {0})
unfolding write_json
write_error status code message = write_json status (error_object code message)

-- The request as a handler sees it. `B` is the body; a header or a query value that is missing is
-- empty.
pub record Request (B : Type 0) : Type 0 where
  pub method : Text
  pub path : List Text
  pub header : Text → Text
  pub query : Text → Text
  pub content_length : ℤ
  pub body : B
  pub path_values : List (Text × Text)

abbrev pub Handler : Type 0 → Type 0
Handler B = Request B → M (Unit {0})

-- `r.PathValue(name)`.
unfoldable pub path_value : Text → List (Text × Text) → Text
path_value name [] = []
path_value name ((k, v) ∷ rest) = if text_eq k name then v else path_value name rest
