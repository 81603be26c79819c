-- ===== src/Errors.antt =====
-- internal/hypervisor/service.go and the errors of the packages it builds on: an error is what
-- `errors.Is` finds at the end of its chain, with the parts of its message. `fmt.Errorf` with `%w`
-- keeps the chain's end and puts text round the message; an operand of `%q` is kept as a part.
use libvirt_rest_api.Base.{ℕ, Bool, true, false, List, [], ◌∷◌, ◌++◌, Text, text, ◌==◌}
use Prim.Native.String.{String}

pub data Sentinel : Type 0 where
  not_found snapshot_not_found conflict unsupported : Sentinel

-- The codes of libvirt.org/go/libvirt that the program tests, and the others.
pub data ErrorNumber : Type 0 where
  no_domain no_domain_snapshot operation_invalid no_support operation_unsupported : ErrorNumber
  config_unsupported argument_unsupported : ErrorNumber
  other_code : ℕ → ErrorNumber

pub data Cause : Type 0 where
  sentinel : Sentinel → Cause
  libvirt : ErrorNumber → Cause
  context_ended : Cause
  plain : Cause

pub data Part : Type 0 where
  lit : Text → Part
  quoted : Text → Part

abbrev pub Message : Type 0
Message = List Part

pub record Error : Type 0 where
  pub cause : Cause
  pub message : Message

pub data Result {ℓ} (A : Type ℓ) : Type ℓ where
  ok : A → Result A
  err : Error → Result A

infixl 5 ◌>>=◌ ◌>>◌
abbrev pub ◌>>=◌ {ℓ κ} : {A : Type ℓ} {B : Type κ} → Result A → (A → Result B) → Result B
ok a >>= f = f a
err e >>= f = err e

abbrev pub ◌>>◌ {ℓ κ} : {A : Type ℓ} {B : Type κ} → Result A → Result B → Result B
m >> k = m >>= λ _. k

abbrev pub same_sentinel : Sentinel → Sentinel → Bool
same_sentinel not_found not_found = true
same_sentinel snapshot_not_found snapshot_not_found = true
same_sentinel conflict conflict = true
same_sentinel unsupported unsupported = true
same_sentinel _ _ = false

abbrev pub same_number : ErrorNumber → ErrorNumber → Bool
same_number no_domain no_domain = true
same_number no_domain_snapshot no_domain_snapshot = true
same_number operation_invalid operation_invalid = true
same_number no_support no_support = true
same_number operation_unsupported operation_unsupported = true
same_number config_unsupported config_unsupported = true
same_number argument_unsupported argument_unsupported = true
same_number (other_code a) (other_code b) = a == b
same_number _ _ = false

abbrev pub cause_is : Cause → Sentinel → Bool
cause_is (sentinel s) t = same_sentinel s t
cause_is _ _ = false

abbrev pub cause_is_code : Cause → ErrorNumber → Bool
cause_is_code (libvirt c) d = same_number c d
cause_is_code _ _ = false

-- `errors.Is(err, ErrX)` and `errors.Is(err, libvirt.ERR_X)`.
abbrev pub is : Error → Sentinel → Bool
is e s = cause_is e.cause s

abbrev pub is_code : Error → ErrorNumber → Bool
is_code e c = cause_is_code e.cause c

unfoldable pub sentinel_text : Sentinel → Text
sentinel_text not_found = text "domain not found"
sentinel_text snapshot_not_found = text "snapshot not found"
sentinel_text conflict = text "domain state conflict"
sentinel_text unsupported = text "operation unsupported"

abbrev pub lit_of : String → Message
lit_of s = lit (text s) ∷ []

-- `fmt.Errorf("…%w…", …, err, …)`.
abbrev pub wrap : Message → Error → Message → Error
wrap before e after = record { cause = e.cause; message = before ++ (e.message ++ after) }

-- `fmt.Errorf("%w…", ErrX, …)`.
abbrev pub fail : Sentinel → Message → Error
fail s after = record { cause = sentinel s; message = lit (sentinel_text s) ∷ after }

-- `errors.New`.
abbrev pub plain_error : Message → Error
plain_error m = record { cause = plain; message = m }
