-- ===== src/Api/Decode.antt =====
-- internal/api/server.go: the request bodies. `Json` stands for `json.Decoder` with unknown fields
-- disallowed: `decode_*` reads one value and leaves the rest of the body, and `at_end` is whether
-- a second Decode finds io.EOF.
use libvirt_rest_api.Base.{
  is_set, Bool, false, not, List, [], ◌∷◌, Option, none, some, Text, text, if◌then◌else◌, ℤ, pos,
  negsuc, ◌==◌,
}
use libvirt_rest_api.Errors.{lit_of}
use libvirt_rest_api.Service.{
  SnapshotCreateRequest, SnapshotRevertRequest, power_mode_default, power_mode_acpi,
  power_mode_guest_agent,
}
use libvirt_rest_api.Api.Http.{Request, M, ◌>>◌, pure, write_error}
use libvirt_rest_api.Api.Validate.{one_of}

pub record Json (B : Type 0) : Type 0 where
  -- The field `enabled`, absent or null if `none`.
  pub decode_autostart : B → Option (Option Bool × B)
  -- Fields that are absent keep what the destination has: nothing here.
  pub decode_create : B → Option (SnapshotCreateRequest × B)
  -- The destination's state is the first argument.
  pub decode_revert : Text → B → Option (SnapshotRevertRequest × B)
  pub decode_mode : B → Option (Text × B)
  pub at_end : B → Bool

abbrev pub is_zero : ℤ → Bool
is_zero (pos n) = n == 0
is_zero (negsuc _) = false

-- `decodeJSON`: one value, and nothing after it.
unfoldable pub decode_json : {A B : Type 0} → Json B → (B → Option (A × B)) → B → Option A
decode_json json decode body = elim (decode body) [
  | none ↦ none
  | some (value, rest) ↦ if json.at_end rest then some value else none
]

abbrev pub power_modes : List Text
power_modes = power_mode_default ∷ power_mode_acpi ∷ power_mode_guest_agent ∷ []

abbrev pub mode_or_default : Text → Text
mode_or_default mode = if not (is_set mode) then power_mode_default else mode

-- The switch at the end of `decodePowerMode`.
unfoldable pub check_mode : Text → M (Option Text)
check_mode mode = if one_of power_modes mode then pure (some mode) else do
  write_error 400 (text "invalid_mode") (lit_of "mode must be default, acpi, or guest-agent")
  pure none

unfoldable pub decode_power_mode : {B : Type 0} → Json B → Request B → M (Option Text)
unfolding check_mode
decode_power_mode json r =
    if is_zero r.content_length
    then pure (some power_mode_default)
    else elim (json.decode_mode r.body) [
      | none ↦ do
        write_error 400 (text "invalid_request")
            (lit_of "request body must be a JSON object containing mode")
        pure none
      | some (mode, _) ↦ check_mode (mode_or_default mode)
    ]
