-- ===== src/Hypervisor/Refines.antt =====
-- internal/hypervisor/libvirt.go: the actions against the states that a domain can be in. A binding
-- is faithful if its answers are those of a machine with such a state.
pub mod Steps
mod Tests
use libvirt_rest_api.Base.{
  ℕ, ◌≡◌, refl, sym, ap, ◌∙◌, Bool, true, false, not, List, [], ◌∷◌, ◌++◌, Text, text, ℤ, pos,
  if◌then◌else◌, arith, Option, none, some, Bool-cases,
}
use libvirt_rest_api.Errors.{Error, Result, ok, err, is, conflict}
use libvirt_rest_api.Service.{ActionResult}
use libvirt_rest_api.Hypervisor.{
  Op, Binding, L, ◌>>=◌, by_name, get_name, get_uuid_string, is_active, get_state, create, suspend,
  resume, reset, destroy, lock, unlock, free,
}
use libvirt_rest_api.Hypervisor.Lookup.{lookup_domain, domain_identity}
use libvirt_rest_api.Hypervisor.Power.{
  with_lock, with_domain, freed, identified, locked, start, stop, simple_action, pause_action,
  resume_action, reset_action,
}

pub data Power : Type 0 where
  running paused shutoff : Power

abbrev pub active_in : Power → Bool
active_in running = true
active_in paused = true
active_in shutoff = false

-- The codes of libvirt's states.
abbrev pub code_of : Power → ℤ
code_of running = pos 1
code_of paused = pos 3
code_of shutoff = pos 5

-- Asking leaves the machine as it is.
pub data IsQuiet : Op → Type 0 where
  looks_up : (name : Text) → IsQuiet (by_name name)
  asks_name : (domain : ℕ) → IsQuiet (get_name domain)
  asks_uuid : (domain : ℕ) → IsQuiet (get_uuid_string domain)
  asks_activity : (domain : ℕ) → IsQuiet (is_active domain)
  asks_state : (domain : ℕ) → IsQuiet (get_state domain)
  locks : (uuid : Text) → IsQuiet (lock uuid)
  unlocks : (uuid : Text) → IsQuiet (unlock uuid)
  frees : (domain : ℕ) → IsQuiet (free domain)

-- The binding answers for one domain as a machine whose state follows from what was asked of it.
pub record Faithful (binding : Binding) (state : List Op → Power) (identifier : Text) : Type 0 where
  pub domain : ℕ
  pub name : Text
  pub uuid : Text
  pub finds : (h : List Op) → binding h (by_name identifier) ≡ ok domain
  pub named : (h : List Op) → binding h (get_name domain) ≡ ok name
  pub identifies : (h : List Op) → binding h (get_uuid_string domain) ≡ ok uuid
  pub activity : (h : List Op) → binding h (is_active domain) ≡ ok (active_in (state h))
  pub reports : (h : List Op) → binding h (get_state domain) ≡ ok (code_of (state h))
  pub quiet : (h : List Op) (op : Op) → IsQuiet op → state (h ++ op ∷ []) ≡ state h
  pub creates : (h : List Op) → state h ≡ shutoff → binding h (create domain) ≡ ok tt
  pub created : (h : List Op) → state h ≡ shutoff → state (h ++ create domain ∷ []) ≡ running
  pub destroys : (h : List Op) → active_in (state h) ≡ true → binding h (destroy domain) ≡ ok tt
  pub destroyed :
      (h : List Op) → active_in (state h) ≡ true → state (h ++ destroy domain ∷ []) ≡ shutoff
  pub suspends : (h : List Op) → state h ≡ running → binding h (suspend domain) ≡ ok tt
  pub suspended : (h : List Op) → state h ≡ running → state (h ++ suspend domain ∷ []) ≡ paused
  pub resumes : (h : List Op) → state h ≡ paused → binding h (resume domain) ≡ ok tt
  pub resumed : (h : List Op) → state h ≡ paused → state (h ++ resume domain ∷ []) ≡ running
  pub resets : (h : List Op) → active_in (state h) ≡ true → binding h (reset domain) ≡ ok tt
  pub reset_kept :
      (h : List Op) → active_in (state h) ≡ true → state (h ++ reset domain ∷ []) ≡ state h

-- The actions on the power of a domain whose effect is immediate.
pub data PowerAction : Type 0 where
  starting stopping pausing resuming resetting : PowerAction

-- What a client is told: the state, or that the domain is in the wrong one, or another error.
pub data Verdict : Type 0 where
  told : (name uuid state : Text) → Verdict
  wrong_state failed : Verdict

abbrev pub verdict : Result ActionResult → Verdict
verdict (ok r) = told r.name r.uuid r.state
verdict (err e) = if is e conflict then wrong_state else failed

-- The specification: the next state, and what the client is told.
abbrev pub step : PowerAction → Power → Option (Text × Power)
step starting shutoff = some (text "running", running)
step starting _ = none
step stopping shutoff = none
step stopping _ = some (text "shutoff", shutoff)
step pausing running = some (text "paused", paused)
step pausing _ = none
step resuming paused = some (text "running", running)
step resuming _ = none
step resetting shutoff = none
step resetting running = some (text "running", running)
step resetting paused = some (text "running", paused)

-- What the specification tells the clients of the machine, and the state that it is left in.
abbrev pub step_verdict : Text → Text → Power → Option (Text × Power) → Verdict × Power
step_verdict name uuid before none = (wrong_state, before)
step_verdict name uuid before (some (shown, next)) = (told name uuid shown, next)

abbrev pub run_steps : Text → Text → List PowerAction → Power → List Verdict × Power
run_steps name uuid [] before = ([], before)
run_steps name uuid (action ∷ actions) before =
    let (first, next) = step_verdict name uuid before (step action before) in
    let (rest, last) = run_steps name uuid actions next in (first ∷ rest, last)

-- An action with the answer and the operations after it.
abbrev pub act : Binding → PowerAction → Text → L (Result ActionResult)
act binding starting = start binding
act binding stopping = stop binding
act binding pausing = pause_action binding
act binding resuming = resume_action binding
act binding resetting = reset_action binding

-- Actions one after the other: what the clients are told, and the operations after them.
abbrev pub run_actions : Binding → List PowerAction → Text → List Op → List Verdict × List Op
run_actions binding [] identifier old = ([], old)
run_actions binding (action ∷ actions) identifier old =
    let (result, ops) = act binding action identifier old in
    let (rest, last) = run_actions binding actions identifier ops in (verdict result ∷ rest, last)
