-- ===== src/Hypervisor/Fixtures.antt =====
-- A binding with one domain, whose activity follows from what was asked of it, for the tests.
use libvirt_rest_api.Base.{
  none, Bool, true, false, List, [], ◌∷◌, text, text_eq, if◌then◌else◌, pos,
}
use libvirt_rest_api.Errors.{Error, ok, err, libvirt, no_domain}
use libvirt_rest_api.Hypervisor.{
  Op, Reply, Binding, by_name, by_uuid, get_name, get_uuid_string, is_active, get_state,
  get_autostart, create, suspend, resume, reset, destroy, shutdown_flags, reboot, set_autostart,
  lock, unlock, free, is_alive, get_hostname, get_node_info, host_cpu_stats, host_memory_stats,
  new_stream, now, context_error, list_all_domains, get_id, get_info, get_cpu_stats, memory_stats,
  get_xml, block_stats, interface_stats, list_interface_addresses, screenshot, recv_all, finish,
  abort, free_stream, snapshot_current, list_all_snapshots, create_snapshot_xml,
  snapshot_lookup_by_name, snapshot_name, snapshot_xml, revert_to_snapshot, delete_snapshot,
  free_snapshot, lock_context,
}

abbrev pub unknown : Error
unknown = record { cause = libvirt no_domain; message = [] }

abbrev pub running : Bool → List Op → Bool
running before [] = before
running before (create _ ∷ rest) = running true rest
running before (destroy _ ∷ rest) = running false rest
running before (_ ∷ rest) = running before rest

abbrev pub reply : List Op → (op : Op) → Reply op
reply history (by_name name) = if text_eq name (text "vm1") then ok 7 else err unknown
reply history (by_uuid _) = err unknown
reply history (get_name _) = ok (text "vm1")
reply history (get_uuid_string _) = ok (text "u1")
reply history (is_active _) = ok (running false history)
reply history (get_state _) = ok (pos 1)
reply history (get_autostart _) = ok false
reply history (create _) = ok tt
reply history (suspend _) = ok tt
reply history (resume _) = ok tt
reply history (reset _) = ok tt
reply history (destroy _) = ok tt
reply history (shutdown_flags _ _) = ok tt
reply history (reboot _ _) = ok tt
reply history (set_autostart _ _) = ok tt
reply history (lock _) = tt
reply history (unlock _) = tt
reply history (free _) = tt
reply history is_alive = ok true
reply history get_hostname = ok (text "host")
reply history get_node_info = err unknown
reply history host_cpu_stats = err unknown
reply history host_memory_stats = err unknown
reply history new_stream = ok 3
reply history now = 0
reply history context_error = none
reply history (list_all_domains _) = ok (7 ∷ [])
reply history (get_id _) = ok 1
reply history (get_info _) = err unknown
reply history (get_cpu_stats _) = ok []
reply history (memory_stats _) = ok []
reply history (get_xml _) = ok (text "xml")
reply history (block_stats _ _) = err unknown
reply history (interface_stats _ _) = err unknown
reply history (list_interface_addresses _ _) = ok []
reply history (screenshot _ _) = ok (text "image/png")
reply history (recv_all _) = (1 ∷ 2 ∷ [], ok tt)
reply history (finish _) = ok tt
reply history (abort _) = tt
reply history (free_stream _) = tt
reply history (snapshot_current _) = err unknown
reply history (list_all_snapshots _) = ok (8 ∷ 9 ∷ [])
reply history (create_snapshot_xml _ _ _) = ok 8
reply history (snapshot_lookup_by_name _ _) = ok 8
reply history (snapshot_name _) = ok (text "s")
reply history (snapshot_xml _) = ok (text "xml")
reply history (revert_to_snapshot _ _) = ok tt
reply history (delete_snapshot _ _) = ok tt
reply history (free_snapshot _) = tt
reply history (lock_context _) = ok tt

abbrev pub binding : Binding
binding history op = reply history op
