-- ===== src/System.antt =====
-- The hypervisor of internal/hypervisor as the service that the server of internal/api asks: every
-- method of the interface over one binding to libvirt.
pub mod Authorized
mod Tests
use libvirt_rest_api.Base.{List, [], ◌∷◌, Text}
use libvirt_rest_api.Errors.{Result}
use libvirt_rest_api.Service.{
  Call, Answer, Service, Signal, ready, host, host_stats, list_domains, subscribe, cancel, domain,
  domain_stats, autostart, list_snapshots, domain_xml, viewer, screenshot, start, pause, resume,
  reset, stop, domain_interfaces, set_autostart, create_snapshot, revert_snapshot, delete_snapshot,
  shutdown, reboot,
}
use libvirt_rest_api.Hypervisor.{Op, Binding, L, pure}
use libvirt_rest_api.Hypervisor.Power
use libvirt_rest_api.Hypervisor.Power.{
  pause_action, resume_action, reset_action, reboot_action, set_autostart_action,
}
use libvirt_rest_api.Hypervisor.Reads.{
  ready_read, host_read, host_stats_read, list_domains_read, domain_read, domain_interfaces_read,
  autostart_read,
}
use libvirt_rest_api.Hypervisor.Stats.{DecodeTargets, domain_stats_read}
use libvirt_rest_api.Hypervisor.Display.{
  DecodeGraphics, domain_xml_read, viewer_read, screenshot_read,
}
use libvirt_rest_api.Hypervisor.Snapshots.{
  SnapshotXml, SortFunc, create_snapshot_action, revert_snapshot_action, delete_snapshot_action,
}
use libvirt_rest_api.Hypervisor.Snapshots.Listing.{list_snapshots_read}

-- What the methods use besides the binding. `signals` is what a subscriber sees, which the broker
-- decides.
pub record Tools : Type 0 where
  pub targets : DecodeTargets
  pub graphics : DecodeGraphics
  pub snapshots : SnapshotXml
  pub sort : SortFunc
  pub signals : Text → List Signal

module _ (binding : Binding) (tools : Tools) where
  -- The method that a call is dispatched to.
  unfoldable pub perform : (call : Call) → L (Answer call)
  perform ready = ready_read binding
  perform host = host_read binding
  perform host_stats = host_stats_read binding
  perform (list_domains filter) = list_domains_read binding filter
  perform (subscribe cursor) = pure (tools.signals cursor)
  perform cancel = pure tt
  perform (domain identifier) = domain_read binding identifier
  perform (domain_stats identifier) = domain_stats_read binding tools.targets identifier
  perform (autostart identifier) = autostart_read binding identifier
  perform (list_snapshots identifier) =
      list_snapshots_read binding tools.snapshots tools.sort identifier
  perform (domain_xml identifier) = domain_xml_read binding identifier
  perform (viewer identifier) = viewer_read binding tools.graphics identifier
  perform (screenshot identifier) = screenshot_read binding identifier
  perform (start identifier) = Power.start binding identifier
  perform (pause identifier) = pause_action binding identifier
  perform (resume identifier) = resume_action binding identifier
  perform (reset identifier) = reset_action binding identifier
  perform (stop identifier) = Power.stop binding identifier
  perform (domain_interfaces identifier source) = domain_interfaces_read binding identifier source
  perform (set_autostart identifier enabled) = set_autostart_action binding identifier enabled
  perform (create_snapshot identifier r) =
      create_snapshot_action binding tools.snapshots identifier r
  perform (revert_snapshot identifier snapshot r) =
      revert_snapshot_action binding identifier snapshot r
  perform (delete_snapshot identifier snapshot children) =
      delete_snapshot_action binding identifier snapshot children
  perform (shutdown identifier mode) = Power.shutdown binding identifier mode
  perform (reboot identifier mode) = reboot_action binding identifier mode

  -- The operations that libvirt was asked for after some calls.
  unfoldable pub operations_after : List Call → List Op → List Op
  unfolding perform
  operations_after [] ops = ops
  operations_after (call ∷ calls) ops = operations_after calls (perform call ops).1

  -- The hypervisor as a service: a method answers by all that was asked of libvirt before.
  unfoldable pub libvirt_service : Service
  unfolding perform operations_after
  libvirt_service history call = (perform call (operations_after history [])).0
