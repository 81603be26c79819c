-- ===== src/Hypervisor/Connection/Once.antt =====
-- internal/hypervisor/libvirt.go: what `Connect` does once for the package, and the handles of
-- connections that are open after it.
use libvirt_rest_api.Base.{
  ℕ, ℤ, ◌+◌, ◌≡◌, refl, ap, ◌∙◌, Bool, true, false, Bool-cases, List, [], ◌∷◌, Text, Option, none,
  some, if◌then◌else◌, ◌==◌, ◌≤◌, arith, inl, inr,
}
use libvirt_rest_api.Errors.{Error, Result, ok, err}
use libvirt_rest_api.Broker.{EventBroker}
use libvirt_rest_api.Hypervisor.Connection.{
  Op, event_register_default_impl, new_connect, close_connection, go_events, lifecycle_register,
  random_bytes, now, Reply, Trace, Answers, Package, Libvirt, initial, P, set_up, run_events_once,
  after_registered, after_opened, after_set_up, connect,
}

abbrev pub registers : Op → ℕ
registers event_register_default_impl = 1
registers _ = 0

abbrev pub starts : Op → ℕ
starts go_events = 1
starts _ = 0

abbrev pub count : (Op → ℕ) → Trace → ℕ
count f [] = 0
count f ((op, _) ∷ trace) = f op + count f trace

abbrev pub bit : Bool → ℕ
bit b = if b then 1 else 0

abbrev remove : ℕ → List ℕ → List ℕ
remove c [] = []
remove c (first ∷ rest) = let others = remove c rest in if first == c then rest else first ∷ others

abbrev after_exchange : (op : Op) → Reply op → List ℕ → List ℕ
after_exchange (new_connect uri) (ok c) handles = c ∷ handles
after_exchange (close_connection c) _ handles = remove c handles
after_exchange _ _ handles = handles

bit_small : (b : Bool) → bit b ≤ 1
bit_small true = omega arith
bit_small false = omega arith

-- The handles that a trace has opened and not closed, the latest first.
abbrev pub still_open : Trace → List ℕ
still_open [] = []
still_open ((op, reply) ∷ trace) = after_exchange op reply (still_open trace)

-- The handles of the services that were returned, added to those before.
abbrev pub held : Result Libvirt → List ℕ → List ℕ
held (ok l) handles = l.connection ∷ handles
held (err _) handles = handles

abbrev pub all_held : List (Result Libvirt) → List ℕ → List ℕ
all_held [] handles = handles
all_held (r ∷ rs) handles = all_held rs (held r handles)

-- Several calls of `Connect`, one after the other.
abbrev pub connect_each : Answers → List Text → P (List (Result Libvirt))
connect_each answers [] g = ([], g)
connect_each answers (uri ∷ uris) g =
    let (first, g') = connect answers uri g in
    let (rest, last) = connect_each answers uris g' in (first ∷ rest, last)

-- The flags of the package agree with the trace.
pub record Agrees (g : Package) : Type 0 where
  pub registered : count registers g.trace ≡ bit g.setup_done
  pub started : count starts g.trace ≡ bit g.runner_done

abbrev Connects : Package → Result Libvirt × Package → Type 0
Connects g (r, g') = Agrees g' × (still_open g'.trace ≡ held r (still_open g.trace))

remove_first : (c : ℕ) (handles : List ℕ) → remove c (c ∷ handles) ≡ handles
remove_first c handles = ground arith

-- An exchange that is neither the registration nor the start of the loop.
asked-Agrees :
    {g : Package} (a : Agrees g) (op : Op) (reply : Reply op)
    → registers op ≡ 0
    → starts op ≡ 0
    → Agrees (record g { trace = (op, reply) ∷ g.trace })
asked-Agrees a op reply h k = record {
  registered = omega (arith, a.registered);
  started = omega (arith, a.started);
}

module _ (answers : Answers) where
  -- A step that keeps the open handles.
  abbrev Keeps : Package → Package → Type 0
  Keeps g g' = Agrees g' × (still_open g'.trace ≡ still_open g.trace)

  set_up-Agrees : (g : Package) → Agrees g → Keeps g (set_up answers g).1
  unfolding set_up
  set_up-Agrees g a = elim (Bool-cases g.setup_done) [
    | inl did ↦ simp did (a, refl)
    | inr not_yet ↦ simp not_yet (
      record {
        registered = ground (arith, a.registered, not_yet);
        started = omega (arith, a.started);
      },
      refl,
    )
  ]

  run_events_once-Agrees : (g : Package) → Agrees g → Keeps g (run_events_once answers g).1
  unfolding run_events_once
  run_events_once-Agrees g a = elim (Bool-cases g.runner_done) [
    | inl did ↦ simp did (a, refl)
    | inr not_yet ↦ simp not_yet (
      record {
        registered = omega (arith, a.registered);
        started = ground (arith, a.started, not_yet);
      },
      refl,
    )
  ]

  after_registered-Connects :
      (c : ℕ) (broker : EventBroker) (registered : Result ℤ) (g : Package) (before : List ℕ)
      → Agrees g
      → still_open g.trace ≡ c ∷ before
      → let (r, g') = after_registered answers c broker registered g in
        Agrees g' × (still_open g'.trace ≡ held r before)
  unfolding after_registered
  after_registered-Connects c broker (err e) g before a h =
      (asked-Agrees a (close_connection c) _ refl refl, ap (remove c) h ∙ remove_first c before)
  after_registered-Connects c broker (ok id) g before a h =
      let (agrees, same) = run_events_once-Agrees g a in (agrees, same ∙ h)

  after_opened-Connects :
      (uri : Text) (opened : Result ℕ) (g : Package)
      → Agrees g
      → let (r, g') =
          after_opened answers opened (record g { trace = (new_connect uri, opened) ∷ g.trace }) in
        Agrees g' × (still_open g'.trace ≡ held r (still_open g.trace))
  unfolding after_opened
  after_opened-Connects uri (err e) g a = (asked-Agrees a (new_connect uri) _ refl refl, refl)
  after_opened-Connects uri (ok c) g a =
      after_registered-Connects c _ _ _ (still_open g.trace)
        (asked-Agrees
          (asked-Agrees
            (asked-Agrees (asked-Agrees a (new_connect uri) (ok c) refl refl) random_bytes _ refl
              refl)
            now _ refl refl)
          (lifecycle_register c) _ refl refl)
        refl

  after_set_up-Connects :
      (uri : Text) (e : Option Error) (g : Package)
      → Agrees g
      → Connects g (after_set_up answers uri e g)
  unfolding after_set_up
  after_set_up-Connects uri (some e) g a = (a, refl)
  after_set_up-Connects uri none g a =
      after_opened-Connects uri (answers g.trace (new_connect uri)) g a

  pub connect-Connects : (uri : Text) (g : Package) → Agrees g → Connects g (connect answers uri g)
  unfolding connect
  connect-Connects uri g a =
      let (agrees, same) = set_up-Agrees g a in
      let (after, handles) =
        after_set_up-Connects uri (set_up answers g).0 (set_up answers g).1 agrees in
      (after, handles ∙ ap (held (connect answers uri g).0) same)

  connect_each-Connects :
      (uris : List Text) (g : Package)
      → Agrees g
      → let (results, g') = connect_each answers uris g in
        Agrees g' × (still_open g'.trace ≡ all_held results (still_open g.trace))
  connect_each-Connects [] g a = (a, refl)
  connect_each-Connects (uri ∷ uris) g a =
      let (first, handles) = connect-Connects uri g a in
      let (rest, others) = connect_each-Connects uris (connect answers uri g).1 first in
      (rest, others ∙ ap (all_held (connect_each answers uris (connect answers uri g).1).0) handles)

-- Whatever libvirt answers, and however often `Connect` is called: libvirt's event implementation
-- is registered at most once, the goroutine of its loop is started at most once, and the handles
-- that are open are just those of the services that were returned.
pub connects_once :
    (answers : Answers) (uris : List Text)
    → let (results, last) = connect_each answers uris initial in
      (count registers last.trace ≤ 1)
      × (count starts last.trace ≤ 1)
      × (still_open last.trace ≡ all_held results [])
connects_once answers uris =
    let (a, handles) =
      connect_each-Connects answers uris initial (record { registered = refl; started = refl }) in
    (rw a.registered (bit_small _), rw a.started (bit_small _), handles)
