-- ===== src/Api/Answered.antt =====
-- internal/api/server.go: every request is answered. `Answers m` says that a status line is out when
-- `m` ends, and `Quiet m` that it cannot panic.
pub mod Handlers
pub mod Actions
pub mod Table
pub mod Served
use libvirt_rest_api.Base.{
  ℕ, ◌≡◌, ◌≢◌, refl, Bool, true, false, not, Option, some, none, List, [], ◌∷◌, Text, if◌then◌else◌,
  Bool-cases,
}
use libvirt_rest_api.Errors.{
  Error, Message, Result, ok, err, is, not_found, snapshot_not_found, conflict, unsupported,
}
use libvirt_rest_api.Service.{Service, Call}
use libvirt_rest_api.Api.Http.{
  State, Flow, done, panicked, M, follow, ◌>>=◌, ◌>>◌, pure, panic, final, Header, Payload,
  error_object, LogLine, set_header, write_header, write, can_encode, encode, write_json,
  write_error, clear_deadline, log_line, ask, status_line,
}
use libvirt_rest_api.Api.Handlers.{write_service_error, respond}

abbrev pub IsAnswered : State → Type 0
IsAnswered st = st.writer.sent ≢ none

pub record Answers {A : Type 0} (m : M A) : Type 0 where
  pub answered : (st : State) → IsAnswered (final (m st))

-- It ends with a result, and takes back no status line.
abbrev Calm : {A : Type 0} → State → Flow A → Type 0
Calm st (done a st') = IsAnswered st → IsAnswered st'
Calm st (panicked st') = ⊥

pub record Quiet {A : Type 0} (m : M A) : Type 0 where
  pub calm : (st : State) → Calm st (m st)

-- It takes back no status line, and may panic only after one.
abbrev Loud : {A : Type 0} → State → Flow A → Type 0
Loud st flow = IsAnswered st → IsAnswered (final flow)

pub record Lasting {A : Type 0} (m : M A) : Type 0 where
  pub lasting : (st : State) → IsAnswered st → IsAnswered (final (m st))

pub Quiet-Answers :
    {A B : Type 0} {m : M A} {k : A → M B} → Quiet m → ((a : A) → Answers (k a)) → Answers (m >>= k)
unfolding ◌>>=◌
Quiet-Answers {A} {B} {m} {k} first next = record {
  answered = λ st. finish st (m st) (first.calm st);
}
  where
    finish : (st : State) (flow : Flow A) → Calm st flow → IsAnswered (final (follow flow k))
    finish st (done a st') h = (next a).answered st'
    finish st (panicked st') h = absurd h

pub Answers-Lasting :
    {A B : Type 0} {m : M A} {k : A → M B}
    → Answers m
    → ((a : A) → Lasting (k a))
    → Answers (m >>= k)
unfolding ◌>>=◌
Answers-Lasting {A} {B} {m} {k} first next = record {
  answered = λ st. finish (m st) (first.answered st);
}
  where
    finish : (flow : Flow A) → IsAnswered (final flow) → IsAnswered (final (follow flow k))
    finish (done a st') h = (next a).lasting st' h
    finish (panicked st') h = h

pub Lasting-bind :
    {A B : Type 0} {m : M A} {k : A → M B}
    → Lasting m
    → ((a : A) → Lasting (k a))
    → Lasting (m >>= k)
unfolding ◌>>=◌
Lasting-bind {A} {B} {m} {k} first next = record {
  lasting = λ st h. finish (m st) (first.lasting st h);
}
  where
    finish : (flow : Flow A) → IsAnswered (final flow) → IsAnswered (final (follow flow k))
    finish (done a st') h = (next a).lasting st' h
    finish (panicked st') h = h

pub Answers-if :
    {A : Type 0} (test : Bool) {m n : M A} → Answers m → Answers n → Answers (if test then m else n)
Answers-if true first second = first
Answers-if false first second = second

first_status-sent :
    (status : ℕ) (header : Header) (sent : Option (ℕ × Header))
    → (status_line status header sent) ≢ none
first_status-sent status header none = λ e. cc
first_status-sent status header (some line) = λ e. cc

pub write_header-Answers : (status : ℕ) → Answers (write_header status)
write_header-Answers status = record {
  answered = λ st. first_status-sent status st.writer.header st.writer.sent;
}

pub set_header-Quiet : (key value : Text) → Quiet (set_header key value)
set_header-Quiet key value = record { calm = λ st h. h }

pub clear_deadline-Quiet : Quiet clear_deadline
clear_deadline-Quiet = record { calm = λ st h. h }

pub log_line-Quiet : (line : LogLine) → Quiet (log_line line)
log_line-Quiet line = record { calm = λ st h. h }

pub ask-Quiet : (service : Service) (call : Call) → Quiet (ask service call)
ask-Quiet service call = record { calm = λ st h. h }

pub ask-Lasting : (service : Service) (call : Call) → Lasting (ask service call)
ask-Lasting service call = record { lasting = λ st h. h }

pub log_line-Lasting : (line : LogLine) → Lasting (log_line line)
log_line-Lasting line = record { lasting = λ st h. h }

pub pure-Lasting : {A : Type 0} (a : A) → Lasting (pure a)
pure-Lasting a = record { lasting = λ st h. h }

pub write-Lasting : (payload : Payload) → Lasting (write payload)
write-Lasting payload = record {
  lasting = λ st h. first_status-sent 200 st.writer.header st.writer.sent;
}

pub Lasting-if :
    {A : Type 0} (test : Bool) {m n : M A} → Lasting m → Lasting n → Lasting (if test then m else n)
Lasting-if true first second = first
Lasting-if false first second = second

panic-Lasting : {A : Type 0} → Lasting (panic {A = A})
panic-Lasting = record { lasting = λ st h. h }

encode-Lasting : (payload : Payload) → Lasting (encode payload)
encode-Lasting payload =
    Lasting-if (can_encode payload) (write-Lasting payload) (pure-Lasting false)

pub write_json-Answers : (status : ℕ) (value : Payload) → Answers (write_json status value)
unfolding write_json
write_json-Answers status value = Quiet-Answers (set_header-Quiet _ _) (λ _.
    Answers-Lasting (write_header-Answers status) (λ _.
      Lasting-bind (encode-Lasting value)
        (λ success. Lasting-if success (pure-Lasting tt) panic-Lasting)))

pub write_error-Answers :
    (status : ℕ) (code : Text) (message : Message) → Answers (write_error status code message)
unfolding write_error
write_error-Answers status code message = write_json-Answers status (error_object code message)

pub write_service_error-Answers : (e : Error) → Answers (write_service_error e)
unfolding write_service_error
write_service_error-Answers e = Answers-if (is e not_found) (write_error-Answers _ _ _) (
    Answers-if (is e snapshot_not_found) (write_error-Answers _ _ _) (
      Answers-if (is e conflict) (write_error-Answers _ _ _) (
        Answers-if (is e unsupported) (write_error-Answers _ _ _)
          (Quiet-Answers (log_line-Quiet _) (λ _. write_error-Answers _ _ _)))))

pub respond-Answers :
    {A : Type 0} (finish : A → M (Unit {0}))
    → ((a : A) → Answers (finish a))
    → (result : Result A) → Answers (respond finish result)
respond-Answers finish answers (ok a) = answers a
respond-Answers finish answers (err e) = write_service_error-Answers e

pub Answers-pure-bind :
    {A B : Type 0} {a : A} (k : A → M B) → Answers (k a) → Answers (pure a >>= k)
unfolding ◌>>=◌
Answers-pure-bind k next = record { answered = next.answered }

pub Answers-then-bind :
    {A B : Type 0} {m : M (Unit {0})} {a : A} (k : A → M B)
    → Answers m
    → Lasting (k a)
    → Answers ((m >> pure a) >>= k)
unfolding ◌>>=◌
Answers-then-bind {m} {a} k first next = record {
  answered = λ st. finish (m st) (first.answered st);
}
  where
    finish :
        (flow : Flow (Unit {0}))
        → IsAnswered (final flow)
        → IsAnswered (final (follow (follow flow (λ _. pure a)) k))
    finish (done _ st) h = next.lasting st h
    finish (panicked st) h = h
