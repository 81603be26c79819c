-- ===== src/Api/Fixtures.antt =====
-- Data that the tests share: a service with one machine, and a request to it.
use libvirt_rest_api.Base.{ℕ, true, none, [], ◌∷◌, Text, text, text_eq, if◌then◌else◌, pos}
use libvirt_rest_api.Errors.{Error, ok, err, fail, not_found}
use libvirt_rest_api.Service.{
  Service, Call, Answer, ready, host, host_stats, list_domains, subscribe, cancel, domain,
  domain_stats, autostart, list_snapshots, domain_xml, viewer, screenshot, start, pause, resume,
  reset, stop, domain_interfaces, set_autostart, create_snapshot, revert_snapshot, delete_snapshot,
  shutdown, reboot, ActionResult,
}
use libvirt_rest_api.Api.Http.{Request, State}
use libvirt_rest_api.Api.Decode.{Json}

abbrev pub no_machine : Error
no_machine = fail not_found []

abbrev pub started : Text → ActionResult
started name = record { name = name; uuid = []; state = text "running"; status = text "accepted" }

abbrev pub answer : (call : Call) → Answer call
answer ready = ok tt
answer (subscribe _) = []
answer cancel = tt
answer (start name) = ok (started name)
answer (delete_snapshot _ _ _) = ok tt
answer host = err no_machine
answer host_stats = err no_machine
answer (list_domains _) = err no_machine
answer (domain _) = err no_machine
answer (domain_stats _) = err no_machine
answer (autostart _) = err no_machine
answer (list_snapshots _) = err no_machine
answer (domain_xml _) = err no_machine
answer (viewer _) = err no_machine
answer (screenshot _) = err no_machine
answer (pause _) = err no_machine
answer (resume _) = err no_machine
answer (reset _) = err no_machine
answer (stop _) = err no_machine
answer (domain_interfaces _ _) = err no_machine
answer (set_autostart _ _) = err no_machine
answer (create_snapshot _ _) = err no_machine
answer (revert_snapshot _ _ _) = err no_machine
answer (shutdown _ _) = err no_machine
answer (reboot _ _) = err no_machine

abbrev pub service : Service
service history call = answer call

-- A decoder that finds nothing in any body.
abbrev pub json : Json Text
json = record {
  decode_autostart = λ b. none;
  decode_create = λ b. none;
  decode_revert = λ state b. none;
  decode_mode = λ b. none;
  at_end = λ b. true;
}

abbrev pub limit : ℕ → Text → Text
limit n body = body

-- POST of the start action.
abbrev pub start_request : Text → Request Text
start_request authorization = record {
  method = text "POST";
  path = text "api" ∷ text "v1" ∷ text "vms" ∷ text "vm1" ∷ text "actions" ∷ text "start" ∷ [];
  header = λ key. if text_eq key (text "Authorization") then authorization else [];
  query = λ key. [];
  content_length = pos 0;
  body = [];
  path_values = [];
}

abbrev pub fresh : State
fresh = record {
  writer = record {
    header = [];
    sent = none;
    body = [];
    attempts = 0;
    accepts = λ n. true;
    can_flush = true;
    has_deadline = true;
  };
  calls = [];
  log = [];
}
