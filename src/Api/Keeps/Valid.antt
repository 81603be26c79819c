-- ===== src/Api/Keeps/Valid.antt =====
-- internal/api/server.go: which calls of the service the handlers may make, and behind which scope.
use libvirt_rest_api.Base.{◌≤◌, ◌≡◌, ◌⊎◌, true, false, length}
use libvirt_rest_api.Service.{
  Call, ready, start, pause, resume, reset, stop, domain_interfaces, set_autostart, create_snapshot,
  revert_snapshot, delete_snapshot, shutdown, reboot, SnapshotCreateRequest, snapshot_kind_disk,
}
use libvirt_rest_api.Api.Auth.{Scope, scope_public, scope_read, scope_control, scope_admin}
use libvirt_rest_api.Api.Validate.{valid_snapshot_name, valid_snapshot_lookup_name, one_of}
use libvirt_rest_api.Api.Decode.{power_modes}
use libvirt_rest_api.Api.Handlers.{interface_sources}
use libvirt_rest_api.Api.Handlers.Snapshots.{snapshot_kinds, revert_states}

-- The scope that the table of routes asks for a call.
abbrev pub call_scope : Call → Scope
call_scope ready = scope_public
call_scope (start _) = scope_control
call_scope (shutdown _ _) = scope_control
call_scope (reboot _ _) = scope_control
call_scope (pause _) = scope_control
call_scope (resume _) = scope_control
call_scope (reset _) = scope_admin
call_scope (stop _) = scope_admin
call_scope (set_autostart _ _) = scope_admin
call_scope (create_snapshot _ _) = scope_admin
call_scope (revert_snapshot _ _ _) = scope_admin
call_scope (delete_snapshot _ _ _) = scope_admin
call_scope _ = scope_read

pub record ValidCreate (request : SnapshotCreateRequest) : Type 0 where
  pub name_valid : valid_snapshot_name request.name ≡ true
  pub description_short : length request.description ≤ 1024
  pub kind_known : one_of snapshot_kinds request.kind ≡ true
  pub quiesce_disk : (request.quiesce ≡ false) ⊎ (request.kind ≡ snapshot_kind_disk)

-- The arguments passed the checks of their handler.
abbrev pub Valid : Call → Type 0
Valid (domain_interfaces _ source) = one_of interface_sources source ≡ true
Valid (shutdown _ mode) = one_of power_modes mode ≡ true
Valid (reboot _ mode) = one_of power_modes mode ≡ true
Valid (create_snapshot _ request) = ValidCreate request
Valid (revert_snapshot _ name request) =
    (valid_snapshot_lookup_name name ≡ true) × (one_of revert_states request.state ≡ true)
Valid (delete_snapshot _ name _) = valid_snapshot_lookup_name name ≡ true
Valid _ = Unit
