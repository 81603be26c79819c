-- ===== src/Api/Keeps.antt =====
-- What the handlers keep. An invariant that the single effects of internal/api/server.go keep is
-- kept by every handler; `P` is what holds where a handler panics, `C` which calls the invariant
-- allows, and `Free` which headers may be set.
pub mod Valid
pub mod Handlers
pub mod Actions
pub mod Changes
pub mod Guarded
pub mod Served
use libvirt_rest_api.Base.{
  ℕ, ◌≡◌, refl, Bool, true, false, ◌||◌, not, inl, inr, Option, none, some, List, [], ◌∷◌, Text,
  text, text_eq, if◌then◌else◌, Bool-cases,
}
use libvirt_rest_api.Errors.{
  Error, Message, Result, ok, err, is, not_found, snapshot_not_found, conflict, unsupported,
}
use libvirt_rest_api.Service.{Service, Call}
use libvirt_rest_api.Api.Http.{
  State, Flow, done, panicked, M, follow, ◌>>=◌, ◌>>◌, pure, panic, final, Payload, error_object,
  LogLine, set_header, write_header, write, can_encode, encode, write_json, write_error,
  clear_deadline, log_line, ask,
}
use libvirt_rest_api.Api.Validate.{one_of}
use libvirt_rest_api.Api.Handlers.{write_service_error, respond}

abbrev pub security_keys : List Text
security_keys = text "X-Content-Type-Options" ∷ text "X-Frame-Options" ∷ text "Referrer-Policy" ∷ []

abbrev pub is_free : Text → Bool
is_free key = not (one_of security_keys key)

content_type-free : is_free (text "Content-Type") ≡ true
unfolding text_eq text
content_type-free = refl

pub record Stable (I P : State → Type 0) (C : Call → Type 0) (Free : Text → Type 0) : Type 0 where
  pub free : (key : Text) → is_free key ≡ true → Free key
  pub set_header_kept :
      (key value : Text) → Free key → (st : State) → I st → I (final (set_header key value st))
  pub write_header_kept : (status : ℕ) (st : State) → I st → I (final (write_header status st))
  pub write_kept : (payload : Payload) (st : State) → I st → I (final (write payload st))
  pub write_failed :
      (payload : Payload) (st : State)
      → I st
      → st.writer.accepts st.writer.attempts ≡ false
      → P (final (write payload st))
  pub encode_failed : (payload : Payload) (st : State) → can_encode payload ≡ false → I st → P st
  pub deadline_kept : (st : State) → I st → I (final (clear_deadline st))
  pub log_kept : (line : LogLine) (st : State) → I st → I (final (log_line line st))
  pub ask_kept :
      (service : Service) (call : Call)
      → C call
      → (st : State) → I st
      → I (final (ask service call st))

module _ (I P : State → Type 0) where
  abbrev pub Holds : {A : Type 0} → Flow A → Type 0
  Holds (done _ st) = I st
  Holds (panicked st) = P st

  pub record Keeps {A : Type 0} (m : M A) : Type 0 where
    pub kept : (st : State) → I st → Holds (m st)

module _ {I P : State → Type 0} where
  pub Keeps-bind :
      {A B : Type 0} {m : M A} {k : A → M B}
      → Keeps I P m
      → ((a : A) → Keeps I P (k a))
      → Keeps I P (m >>= k)
  unfolding ◌>>=◌
  Keeps-bind {A} {B} {m} {k} first next = record { kept = λ st h. finish (m st) (first.kept st h) }
    where
      finish : (flow : Flow A) → Holds I P flow → Holds I P (follow flow k)
      finish (done a st) h = (next a).kept st h
      finish (panicked st) h = h

  pub Keeps-if :
      {A : Type 0} (test : Bool) {m n : M A}
      → Keeps I P m
      → Keeps I P n
      → Keeps I P (if test then m else n)
  Keeps-if true first second = first
  Keeps-if false first second = second

  pub Keeps-pure : {A : Type 0} (a : A) → Keeps I P (pure a)
  Keeps-pure a = record { kept = λ st h. h }

  -- What follows a computation whose result is known.
  pub Keeps-pure-bind :
      {A B : Type 0} {a : A} (k : A → M B) → Keeps I P (k a) → Keeps I P (pure a >>= k)
  unfolding ◌>>=◌
  Keeps-pure-bind k next = record { kept = next.kept }

  pub Keeps-then-bind :
      {A B : Type 0} {m : M (Unit {0})} {a : A} (k : A → M B)
      → Keeps I P m
      → Keeps I P (k a)
      → Keeps I P ((m >> pure a) >>= k)
  unfolding ◌>>=◌
  Keeps-then-bind {m} {a} k first next = record { kept = λ st h. finish (m st) (first.kept st h) }
    where
      finish :
          (flow : Flow (Unit {0}))
          → Holds I P flow
          → Holds I P (follow (follow flow (λ _. pure a)) k)
      finish (done _ st) h = next.kept st h
      finish (panicked st) h = h

module _ (I P : State → Type 0) where
  Holds-choice :
      (success : Bool) (st : State)
      → I st
      → (success ≡ false → P st)
      → Holds I P ((if success then pure tt else panic) st)
  Holds-choice true st h failed = h
  Holds-choice false st h failed = failed refl

module _ {I P : State → Type 0} where
  module _ {C : Call → Type 0} {Free : Text → Type 0} (stable : Stable I P C Free) where
    open stable use {
      free, set_header_kept, write_header_kept, write_kept, write_failed, encode_failed,
      deadline_kept, log_kept, ask_kept,
    }

    pub set_header-Keeps :
        (key value : Text) → is_free key ≡ true → Keeps I P (set_header key value)
    set_header-Keeps key value is_ok = record {
      kept = λ st h. set_header_kept key value (free key is_ok) st h;
    }

    pub write_header-Keeps : (status : ℕ) → Keeps I P (write_header status)
    write_header-Keeps status = record { kept = λ st h. write_header_kept status st h }

    pub write-Keeps : (payload : Payload) → Keeps I P (write payload)
    write-Keeps payload = record { kept = λ st h. write_kept payload st h }

    pub clear_deadline-Keeps : Keeps I P clear_deadline
    clear_deadline-Keeps = record { kept = λ st h. deadline_kept st h }

    pub log_line-Keeps : (line : LogLine) → Keeps I P (log_line line)
    log_line-Keeps line = record { kept = λ st h. log_kept line st h }

    pub ask-Keeps : (service : Service) (call : Call) → C call → Keeps I P (ask service call)
    ask-Keeps service call allowed = record { kept = λ st h. ask_kept service call allowed st h }

    write_end-Keeps :
        (value : Payload)
        → Keeps I P (encode value >>= λ success. if success then pure tt else panic)
    unfolding ◌>>=◌
    write_end-Keeps value = record {
      kept = λ st h. elim (Bool-cases (can_encode value)) [
        | inl fits ↦ rw fits (
            Holds-choice I P (st.writer.accepts st.writer.attempts) (final (write value st))
              (write_kept value st h) (write_failed value st h))
        | inr broken ↦ rw broken (encode_failed value st broken h)
      ];
    }

    pub write_json-Keeps : (status : ℕ) (value : Payload) → Keeps I P (write_json status value)
    unfolding write_json
    write_json-Keeps status value =
        Keeps-bind (set_header-Keeps _ _ content_type-free)
          (λ _. Keeps-bind (write_header-Keeps status) (λ _. write_end-Keeps value))

    pub write_error-Keeps :
        (status : ℕ) (code : Text) (message : Message) → Keeps I P (write_error status code message)
    unfolding write_error
    write_error-Keeps status code message = write_json-Keeps status (error_object code message)

    pub write_service_error-Keeps : (e : Error) → Keeps I P (write_service_error e)
    unfolding write_service_error
    write_service_error-Keeps e = Keeps-if (is e not_found) (write_error-Keeps _ _ _) (
        Keeps-if (is e snapshot_not_found) (write_error-Keeps _ _ _) (
          Keeps-if (is e conflict) (write_error-Keeps _ _ _) (
            Keeps-if (is e unsupported) (write_error-Keeps _ _ _)
              (Keeps-bind (log_line-Keeps _) (λ _. write_error-Keeps _ _ _)))))

    pub respond-Keeps :
        {A : Type 0} (finish : A → M (Unit {0}))
        → ((a : A) → Keeps I P (finish a))
        → (result : Result A) → Keeps I P (respond finish result)
    respond-Keeps finish keeps (ok a) = keeps a
    respond-Keeps finish keeps (err e) = write_service_error-Keeps e
