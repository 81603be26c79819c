-- ===== src/Hypervisor/Connection.antt =====
-- internal/hypervisor/libvirt.go: connecting to libvirt, its events and closing. What is asked of
-- the binding and of the runtime stands in a trace with its answers, the latest first; an answer may
-- follow from everything before it. The variables of the package are a state.
pub mod Once
pub mod Uses
mod Tests
use libvirt_rest_api.Base.{
  ℕ, ◌+◌, ◌≡◌, Bool, true, false, List, [], ◌∷◌, Text, text, ℤ, pos, negsuc, Option, none, some,
  if◌then◌else◌,
}
use libvirt_rest_api.Errors.{Error, Result, ok, err, wrap, lit_of}
use libvirt_rest_api.Broker.{
  EventBroker, Subscription, new_event_broker, publish, close_broker, subscribe,
}
use libvirt_rest_api.Broker.System.{lifecycle_event}

pub data Op : Type 0 where
  event_register_default_impl : Op
  new_connect : (uri : Text) → Op
  lifecycle_register : (connection : ℕ) → Op
  event_deregister : (connection : ℕ) → (callback : ℤ) → Op
  close_connection : (connection : ℕ) → Op
  -- The `go` statement, one turn of libvirt's loop, and `time.Sleep`.
  go_events event_run_default_impl : Op
  sleep : (nanoseconds : ℕ) → Op
  domain_name domain_uuid : (domain : ℕ) → Op
  random_bytes now : Op

abbrev pub Reply : Op → Type 0
Reply event_register_default_impl = Option Error
Reply (new_connect _) = Result ℕ
Reply (lifecycle_register _) = Result ℤ
Reply (close_connection _) = Option Error
Reply event_run_default_impl = Option Error
Reply (domain_name _) = Result Text
Reply (domain_uuid _) = Result Text
Reply random_bytes = Option (List ℕ)
Reply now = ℕ
-- The error of a deregistration is dropped.
Reply _ = Unit

abbrev pub Trace : Type 0
Trace = List ((op : Op) × Reply op)

abbrev pub Answers : Type 0
Answers = Trace → (op : Op) → Reply op

-- `eventSetup` and `eventRunner`.
pub record Package : Type 0 where
  pub setup_done : Bool
  pub setup_err : Option Error
  pub runner_done : Bool
  pub trace : Trace

pub record Libvirt : Type 0 where
  pub connection : ℕ
  pub broker : Option EventBroker
  pub event_callback_id : ℤ

abbrev pub initial : Package
initial = record { setup_done = false; setup_err = none; runner_done = false; trace = [] }

abbrev pub P : Type 0 → Type 0
P A = Package → A × Package

infixl 5 ◌>>=◌
abbrev pub ◌>>=◌ : {A B : Type 0} → P A → (A → P B) → P B
◌>>=◌ m k g = let (a, g') = m g in k a g'

abbrev pub pure : {A : Type 0} → A → P A
pure a g = (a, g)

abbrev pub request : Answers → (op : Op) → P (Reply op)
request answers op g =
    let reply = answers g.trace op in (reply, record g { trace = (op, reply) ∷ g.trace })

-- `libvirt.DomainEventType`.
pub data DomainEventType : Type 0 where
  domain_event_defined domain_event_undefined domain_event_started : DomainEventType
  domain_event_suspended domain_event_resumed domain_event_stopped : DomainEventType
  domain_event_shutdown domain_event_pmsuspended domain_event_crashed : DomainEventType
  domain_event_other : (code : ℤ) → DomainEventType

unfoldable pub lifecycle_event_name : DomainEventType → Text
lifecycle_event_name domain_event_defined = text "defined"
lifecycle_event_name domain_event_undefined = text "undefined"
lifecycle_event_name domain_event_started = text "started"
lifecycle_event_name domain_event_suspended = text "suspended"
lifecycle_event_name domain_event_resumed = text "resumed"
lifecycle_event_name domain_event_stopped = text "stopped"
lifecycle_event_name domain_event_shutdown = text "shutdown"
lifecycle_event_name domain_event_pmsuspended = text "suspended-to-memory"
lifecycle_event_name domain_event_crashed = text "crashed"
lifecycle_event_name (domain_event_other _) = text "unknown"

module _ (answers : Answers) where
  -- `eventSetup.once.Do`, and the error that it left.
  unfoldable pub set_up : P (Option Error)
  set_up g =
      if g.setup_done
      then (g.setup_err, g)
      else (let (e, asked) = request answers event_register_default_impl g in
          (e, record asked { setup_done = true; setup_err = e }))

  -- `eventRunner.Do`.
  unfoldable pub run_events_once : P Unit
  run_events_once g =
      if g.runner_done
      then (tt, g)
      else (let (_, asked) = request answers go_events g in
          (tt, record asked { runner_done = true }))

  -- A turn of the loop that the goroutine runs for ever.
  unfoldable pub event_turn : P Unit
  event_turn = request answers event_run_default_impl >>= λ outcome. elim outcome [
    | none ↦ pure tt
    | some e ↦ request answers (sleep 100000000)
  ]

  abbrev pub new_broker : P EventBroker
  new_broker = request answers random_bytes >>= λ random.
      request answers now >>= λ time. pure (new_event_broker random time)

  unfoldable pub after_registered : ℕ → EventBroker → Result ℤ → P (Result Libvirt)
  unfolding run_events_once
  after_registered connection broker (err e) =
      request answers (close_connection connection) >>= λ _.
      pure (err (wrap (lit_of "register lifecycle events: ") e []))
  after_registered connection broker (ok callback_id) = run_events_once >>= λ _. pure (
      ok
        (record { connection = connection; broker = some broker; event_callback_id = callback_id }))

  unfoldable pub after_opened : Result ℕ → P (Result Libvirt)
  unfolding after_registered
  after_opened (err e) = pure (err (wrap (lit_of "connect to libvirt: ") e []))
  after_opened (ok connection) = new_broker >>= λ broker.
      request answers (lifecycle_register connection) >>= λ registered.
      after_registered connection broker registered

  unfoldable pub after_set_up : Text → Option Error → P (Result Libvirt)
  unfolding after_opened
  after_set_up uri (some e) = pure (err (wrap (lit_of "initialize libvirt events: ") e []))
  after_set_up uri none = request answers (new_connect uri) >>= λ opened. after_opened opened

  unfoldable pub connect : Text → P (Result Libvirt)
  unfolding set_up after_set_up
  connect uri = set_up >>= λ e. after_set_up uri e

  unfoldable pub deregister : Libvirt → P Unit
  deregister l = elim l.event_callback_id [
    | pos id ↦ request answers (event_deregister l.connection (pos id))
    | negsuc _ ↦ pure tt
  ]

  abbrev pub present : Option EventBroker → Option (Option EventBroker)
  present none = none
  present (some b) = some (some b)

  unfoldable pub closed_connection :
      Libvirt → Option (Option EventBroker) → P (Option (Option Error × Libvirt))
  closed_connection l none = pure none
  closed_connection l (some broker) = request answers (close_connection l.connection) >>= λ outcome.
      pure (
        some (
          elim outcome [
            | none ↦ none
            | some e ↦ some (wrap (lit_of "close libvirt connection: ") e [])
          ],
          record l { broker = broker },
        ))

  -- `l.broker.close()`, unless there is none; the broker's panic is `none`.
  unfoldable pub closed_broker : Option EventBroker → Option (Option EventBroker)
  closed_broker none = some none
  closed_broker (some b) = present (close_broker b)

  unfoldable pub close : Libvirt → P (Option (Option Error × Libvirt))
  unfolding deregister closed_broker closed_connection
  close l = deregister l >>= λ _. closed_connection l (closed_broker l.broker)

  -- A call on a broker that is not there panics. The time is taken ahead of a broker that is closed,
  -- which drops it.
  unfoldable pub published : Libvirt → Text → Text → DomainEventType → ℤ → P (Option Libvirt)
  unfolding lifecycle_event_name
  published l name uuid event detail = request answers now >>= λ time. pure (elim l.broker [
    | none ↦ none
    | some b ↦
        elim (publish b (lifecycle_event name uuid (lifecycle_event_name event) detail) time) [
          | none ↦ none
          | some b' ↦ some (record l { broker = some b' })
        ]
  ])

  unfoldable pub after_uuid :
      Libvirt → Text → DomainEventType → ℤ → Result Text → P (Option Libvirt)
  unfolding published
  after_uuid l name event detail (err _) = pure (some l)
  after_uuid l name event detail (ok uuid) = published l name uuid event detail

  unfoldable pub after_name : Libvirt → ℕ → DomainEventType → ℤ → Result Text → P (Option Libvirt)
  unfolding after_uuid
  after_name l domain event detail (err _) = pure (some l)
  after_name l domain event detail (ok name) =
      request answers (domain_uuid domain) >>= λ identified.
      after_uuid l name event detail identified

  unfoldable pub record_lifecycle_event : Libvirt → ℕ → DomainEventType → ℤ → P (Option Libvirt)
  unfolding after_name
  record_lifecycle_event l domain event detail =
      request answers (domain_name domain) >>= λ named. after_name l domain event detail named

  -- `Subscribe`; `Cancel` of the subscription that it gave is a method of the broker.
  unfoldable pub subscribe_to_events : Libvirt → Text → P (Option (Libvirt × Subscription))
  subscribe_to_events l position = request answers now >>= λ time. pure (elim l.broker [
    | none ↦ none
    | some b ↦ elim (subscribe b position time) [
      | none ↦ none
      | some (b', sub) ↦ some (record l { broker = some b' }, sub)
    ]
  ])
