-- ===== src/System/Tests.antt =====
-- A request to start a machine, from the server to libvirt.
use libvirt_rest_api.Base.{[], Text, text}
use libvirt_rest_api.Errors.{ok, err}
use libvirt_rest_api.Api.Http.{Handler, final}
use libvirt_rest_api.Api.Auth.{Server}
use libvirt_rest_api.Api.Routes.Table.{new_server-total}
use libvirt_rest_api.Api.Fixtures.{json, limit, start_request, fresh}
use libvirt_rest_api.Hypervisor.Fixtures.{binding, unknown}
use libvirt_rest_api.Hypervisor.Within.{Asked}
use libvirt_rest_api.System.{Tools, operations_after, libvirt_service}
use libvirt_rest_api.System.Authorized.{Covered, libvirt_operations_authorized}

abbrev tools : Tools
tools = record {
  targets = λ description. ok ([], []);
  graphics = λ description. ok [];
  snapshots = record { encode = λ name description. ok name; decode = λ text. err unknown };
  sort = λ compare snapshots. snapshots;
  signals = λ cursor. [];
}

abbrev one_token : Server
one_token = record {
  bearer_token = [];
  read_token = [];
  control_token = text "c1";
  admin_token = [];
  allowed_origins = [];
}

abbrev handler : Handler Text
handler = (new_server-total (libvirt_service binding tools) json limit one_token).0

libvirt_operations_authorized_example :
    Asked (Covered one_token (start_request (text "Bearer c1"))) [] (
      operations_after binding tools
        (final (handler (start_request (text "Bearer c1")) fresh)).calls
        [])
unfolding operations_after
libvirt_operations_authorized_example =
    libvirt_operations_authorized binding tools json limit one_token handler
      (new_server-total (libvirt_service binding tools) json limit one_token).1
      (start_request (text "Bearer c1")) fresh
