-- ===== src/Hypervisor/Connection/Tests.antt =====
-- A libvirt of which the second connection cannot register its callback.
use libvirt_rest_api.Base.{
  ℕ, ◌+◌, ◌≤◌, ◌≡◌, refl, true, false, List, [], ◌∷◌, Text, text, pos, none, some, if◌then◌else◌,
  arith, ◌==◌,
}
use libvirt_rest_api.Errors.{Error, ok, err, plain_error, lit_of}
use libvirt_rest_api.Broker.{EventBroker, new_event_broker}
use libvirt_rest_api.Hypervisor.Connection.{
  Op, Reply, Trace, Answers, Libvirt, initial, event_register_default_impl, new_connect,
  lifecycle_register, close_connection, event_run_default_impl, domain_name, domain_uuid,
  random_bytes, now, domain_event_started, domain_event_crashed, domain_event_other,
  lifecycle_event_name, connect,
}
use libvirt_rest_api.Hypervisor.Connection.Once.{
  registers, starts, count, still_open, all_held, connect_each, connects_once,
}
use libvirt_rest_api.Hypervisor.Connection.Uses.{
  Use, reported, subscribing, closing, use_each, any_closes,
}
use libvirt_rest_api.Hypervisor.Connection.Uses.Runs.{services_run}

abbrev trouble : Error
trouble = plain_error (lit_of "no callback")

abbrev answer : ℕ → (op : Op) → Reply op
answer n event_register_default_impl = none
answer n (new_connect _) = ok n
answer n (lifecycle_register _) = if n == 9 then err trouble else ok (pos 3)
answer n (close_connection _) = none
answer n event_run_default_impl = none
answer n (domain_name _) = ok (text "vm1")
answer n (domain_uuid _) = ok (text "u1")
answer n random_bytes = some (0xab ∷ [])
answer n now = 100
answer n _ = tt

abbrev size : Trace → ℕ
size [] = 0
size (_ ∷ trace) = 1 + size trace

abbrev answers : Answers
answers trace op = answer (size trace) op

abbrev uri : Text
uri = text "test:///default"

abbrev uris : List Text
uris = uri ∷ uri ∷ uri ∷ []

abbrev made : Libvirt
made = record {
  connection = 1;
  broker = some (new_event_broker (some (0xab ∷ [])) 100);
  event_callback_id = pos 3;
}

connected : (connect answers uri initial).0 ≡ ok made
unfolding connect
connected = refl

-- The first and the third keep their connections.
kept_open : still_open (connect_each answers uris initial).1.trace ≡ 11 ∷ 1 ∷ []
unfolding connect
kept_open = refl

abbrev uses : List Use
uses =
    subscribing []
    ∷ reported 5 domain_event_started (pos 0)
    ∷ closing
    ∷ reported 5 domain_event_crashed (pos 0)
    ∷ closing
    ∷ []

names_known :
    (lifecycle_event_name domain_event_crashed ≡ text "crashed")
    × (lifecycle_event_name (domain_event_other (pos 99)) ≡ text "unknown")
unfolding lifecycle_event_name
names_known = (refl, refl)

connects_once_example :
    (count registers (connect_each answers uris initial).1.trace ≤ 1)
    × (count starts (connect_each answers uris initial).1.trace ≤ 1)
    × (still_open (connect_each answers uris initial).1.trace
        ≡ all_held (connect_each answers uris initial).0 [])
connects_once_example = connects_once answers uris

services_run_example :
    (last : Libvirt) × (b : EventBroker) × ((use_each answers uses (some made) initial).0
      ≡ some last)
    × (last.broker ≡ some b)
    × (any_closes uses ≡ true → (j : ℕ) → (b.channels j).is_open ≡ false)
services_run_example = services_run answers uri initial made connected uses initial (omega arith)
