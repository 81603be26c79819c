-- ===== src/Hypervisor/Stats.antt =====
-- internal/hypervisor/libvirt.go: the statistics of a domain. `xml.Unmarshal` into the document of
-- `targetsFromXML` is a parameter.
use libvirt_rest_api.Base.{
  ℕ, not, ◌&&◌, List, [], ◌∷◌, ◌++◌, none, Text, text, text_eq, is_set, if◌then◌else◌, ℤ, pos,
  negsuc, get_or, leb, format_int,
}
use libvirt_rest_api.Errors.{Error, Result, ok, err, conflict, fail, wrap, lit, quoted}
use libvirt_rest_api.Values.{GuestCpuStats, MemoryStat, BlockCounters, InterfaceCounters}
use libvirt_rest_api.Service.{CpuStats, BlockStats, NetworkStats, DomainStats, state_name}
use libvirt_rest_api.Hypervisor.{
  Binding, L, ◌>>=◌, pure, request, or_return, about, now, get_cpu_stats, memory_stats, get_xml,
  block_stats, interface_stats,
}
use libvirt_rest_api.Hypervisor.Power.{check_active, check_state}
use libvirt_rest_api.Hypervisor.Reads.{because, if_set, map_set, with_identity}

-- A disk of the document of `targetsFromXML`; of an interface it has only the target.
pub record DiskXml : Type 0 where
  pub device : Text
  pub target_dev : Text

abbrev pub DecodeTargets : Type 0
DecodeTargets = Text → Result (List DiskXml × List Text)

unfoldable pub disk_targets : List DiskXml → List Text
disk_targets [] = []
disk_targets (disk ∷ disks) =
    let rest = disk_targets disks in
    if text_eq disk.device (text "disk") && is_set disk.target_dev
    then disk.target_dev ∷ rest
    else rest

unfoldable pub interface_targets : List Text → List Text
interface_targets [] = []
interface_targets (dev ∷ devs) =
    let rest = interface_targets devs in if is_set dev then dev ∷ rest else rest

abbrev pub targets_of : Result (List DiskXml × List Text) → Result (List Text × List Text)
targets_of (ok (disks, interfaces)) = ok (disk_targets disks, interface_targets interfaces)
targets_of (err e) = err e

unfoldable pub targets_from_xml : DecodeTargets → Text → Result (List Text × List Text)
unfolding disk_targets interface_targets
targets_from_xml decode description = targets_of (decode description)

abbrev tag_names : List Text
tag_names =
    text "swap_in"
    ∷ text "swap_out"
    ∷ text "major_fault"
    ∷ text "minor_fault"
    ∷ text "unused"
    ∷ text "available"
    ∷ text "actual_balloon"
    ∷ text "rss"
    ∷ text "usable"
    ∷ []

-- The tags of libvirt are numbered from 0.
unfoldable pub memory_stat_name : ℤ → Text
unfolding format_int
memory_stat_name (negsuc n) = text "tag_" ++ format_int (negsuc n)
memory_stat_name (pos tag) =
    let other = text "tag_" ++ format_int (pos tag) in
    if leb 9 tag then other else get_or tag_names tag other

-- The loop that fills the map.
unfoldable pub memory_map : List MemoryStat → List (Text × ℕ) → List (Text × ℕ)
unfolding memory_stat_name map_set
memory_map [] m = m
memory_map (stat ∷ stats) m = memory_map stats (map_set (memory_stat_name stat.tag) stat.val m)

abbrev pub domain_cpu : List GuestCpuStats → CpuStats
domain_cpu [] = record { cpu_time_ns = none; user_time_ns = none; system_time_ns = none }
domain_cpu (total ∷ _) = record {
  cpu_time_ns = if_set total.cpu_time;
  user_time_ns = if_set total.user_time;
  system_time_ns = if_set total.system_time;
}

abbrev pub described_block : Text → BlockCounters → BlockStats
described_block device stats = record {
  device = device;
  read_bytes = if_set stats.rd_bytes;
  read_requests = if_set stats.rd_req;
  write_bytes = if_set stats.wr_bytes;
  write_requests = if_set stats.wr_req;
}

abbrev pub described_network : Text → InterfaceCounters → NetworkStats
described_network device stats = record {
  device = device;
  rx_bytes = if_set stats.rx_bytes;
  rx_packets = if_set stats.rx_packets;
  tx_bytes = if_set stats.tx_bytes;
  tx_packets = if_set stats.tx_packets;
}

-- `fmt.Errorf("get domain %q … statistics for %s: %w", name, device, err)`.
abbrev pub device_error : Text → Text → Text → Error → Error
device_error name kind device e =
    wrap (lit (text "get domain ") ∷ quoted name ∷ lit kind ∷ lit device ∷ lit (text ": ") ∷ []) e
      []

module _ (binding : Binding) (decode : DecodeTargets) where
  unfoldable pub device_targets : ℕ → L (Result (List Text × List Text))
  unfolding targets_from_xml
  device_targets domain = request binding (get_xml domain) >>= λ given.
      or_return (because "get domain XML for statistics: ") given
        (λ description. pure (targets_from_xml decode description))

  -- The loop over the disks.
  unfoldable pub all_blocks : Text → ℕ → List Text → L (Result (List BlockStats))
  all_blocks name domain [] = pure (ok [])
  all_blocks name domain (device ∷ devices) =
      request binding (block_stats domain device) >>= λ given.
      or_return (device_error name (text " block statistics for ") device) given (λ stats.
        all_blocks name domain devices >>= λ others.
        or_return (λ e. e) others (λ rest. pure (ok (described_block device stats ∷ rest))))

  -- The loop over the interfaces.
  unfoldable pub all_networks : Text → ℕ → List Text → L (Result (List NetworkStats))
  all_networks name domain [] = pure (ok [])
  all_networks name domain (device ∷ devices) =
      request binding (interface_stats domain device) >>= λ given.
      or_return (device_error name (text " interface statistics for ") device) given (λ stats.
        all_networks name domain devices >>= λ others.
        or_return (λ e. e) others (λ rest. pure (ok (described_network device stats ∷ rest))))

  -- The part of `DomainStats` from the list of devices on, with what was read before.
  unfoldable pub device_stats :
      (sampled_at : ℕ)
      → (name uuid : Text) → ℕ
      → ℤ
      → CpuStats
      → List (Text × ℕ)
      → List Text × List Text
      → L (Result DomainStats)
  unfolding all_blocks all_networks
  device_stats sampled_at name uuid domain state cpu memory (disks, interfaces) =
      all_blocks name domain disks >>= λ blocks.
      or_return (λ e. e) blocks
        (λ disk_stats. all_networks name domain interfaces >>= λ networks.
          or_return (λ e. e) networks
            (λ nets. pure (
              ok (record {
                sampled_at = sampled_at;
                name = name;
                uuid = uuid;
                state = state_name state;
                cpu = cpu;
                memory_kib = memory;
                disks = disk_stats;
                interfaces = nets;
              }))))

  unfoldable pub stats_of_active : (name uuid : Text) → ℕ → ℤ → L (Result DomainStats)
  unfolding device_targets device_stats memory_map
  stats_of_active name uuid domain state = request binding now >>= λ sampled_at.
      request binding (get_cpu_stats domain) >>= λ given.
      or_return (about (text "get domain ") name (text " CPU statistics: ")) given (λ cpu.
        request binding (memory_stats domain) >>= λ given.
        or_return (about (text "get domain ") name (text " memory statistics: ")) given (λ memory.
          device_targets domain >>= λ targets.
          or_return (λ e. e) targets
            (device_stats sampled_at name uuid domain state (domain_cpu cpu)
              (memory_map memory []))))

  unfoldable pub domain_stats_read : Text → L (Result DomainStats)
  unfolding with_identity stats_of_active
  domain_stats_read identifier = with_identity binding identifier (λ name uuid domain.
      check_active binding name domain (λ active.
        let stats = check_state binding name domain (stats_of_active name uuid domain) in
        if not active
        then pure (
            err
              (fail conflict (lit (text ": statistics require active domain ") ∷ quoted name ∷ [])))
        else stats))
