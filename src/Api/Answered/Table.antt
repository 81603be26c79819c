-- ===== src/Api/Answered/Table.antt =====
-- internal/api/server.go: every handler in the table of `New` answers.
use libvirt_rest_api.Base.{◌++◌, All, All-append}
use libvirt_rest_api.Service.{Service}
use libvirt_rest_api.Api.Http.{Request, Handler}
use libvirt_rest_api.Api.Decode.{Json}
use libvirt_rest_api.Api.Routes.Table.{
  Registration, routes, query_routes, later_routes, action_routes,
}
use libvirt_rest_api.Api.Answered.{Answers}
use libvirt_rest_api.Api.Answered.Handlers.{
  health-Answers, host_handler-Answers, host_stats_handler-Answers, list_vm_snapshots-Answers,
  list_vms-Answers, ready_handler-Answers, set_vm_autostart-Answers, vm-Answers,
  vm_autostart-Answers, vm_interfaces-Answers, vm_pause-Answers, vm_reset-Answers,
  vm_resume-Answers, vm_screenshot-Answers, vm_start-Answers, vm_stats-Answers, vm_stop-Answers,
  vm_viewer-Answers, vm_xml-Answers,
}
use libvirt_rest_api.Api.Answered.Actions.{
  create_vm_snapshot-Answers, delete_vm_snapshot-Answers, events-Answers,
  revert_vm_snapshot-Answers, vm_reboot-Answers, vm_shutdown-Answers,
}

module _ {B : Type 0} where
  -- The handler answers every request.
  abbrev pub AlwaysAnswers : Handler B → Type 0
  AlwaysAnswers next = (r : Request B) → Answers (next r)

  -- The handler of a registration answers every request.
  abbrev pub Answering : Registration B → Type 0
  Answering entry = AlwaysAnswers entry.handler

  module _ (service : Service) (json : Json B) where
    query_routes-Answering : All Answering (query_routes service)
    query_routes-Answering = (
      λ r. health-Answers service r,
      (
        λ r. ready_handler-Answers service r,
        (
          λ r. host_handler-Answers service r,
          (
            λ r. host_stats_handler-Answers service r,
            (
              λ r. list_vms-Answers service r,
              (
                λ r. events-Answers service r,
                (
                  λ r. vm-Answers service r,
                  (
                    λ r. vm_stats-Answers service r,
                    (
                      λ r. vm_interfaces-Answers service r,
                      (λ r. vm_autostart-Answers service r, tt),
                    ),
                  ),
                ),
              ),
            ),
          ),
        ),
      ),
    )

    later_routes-Answering : All Answering (later_routes service json)
    later_routes-Answering = (
      λ r. set_vm_autostart-Answers service r json,
      (
        λ r. list_vm_snapshots-Answers service r,
        (
          λ r. create_vm_snapshot-Answers service r json,
          (
            λ r. revert_vm_snapshot-Answers service r json,
            (
              λ r. delete_vm_snapshot-Answers service r,
              (
                λ r. vm_xml-Answers service r,
                (λ r. vm_viewer-Answers service r, (λ r. vm_screenshot-Answers service r, tt)),
              ),
            ),
          ),
        ),
      ),
    )

    action_routes-Answering : All Answering (action_routes service json)
    action_routes-Answering = (
      λ r. vm_start-Answers service r,
      (
        λ r. vm_shutdown-Answers service r json,
        (
          λ r. vm_reboot-Answers service r json,
          (
            λ r. vm_pause-Answers service r,
            (
              λ r. vm_resume-Answers service r,
              (λ r. vm_reset-Answers service r, (λ r. vm_stop-Answers service r, tt)),
            ),
          ),
        ),
      ),
    )

    pub routes-Answering : All Answering (routes service json)
    unfolding routes
    routes-Answering =
        All-append Answering (query_routes service)
          (later_routes service json ++ action_routes service json) query_routes-Answering
          (All-append Answering (later_routes service json) (action_routes service json)
            later_routes-Answering action_routes-Answering)
