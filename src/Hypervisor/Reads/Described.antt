-- ===== src/Hypervisor/Reads/Described.antt =====
-- internal/hypervisor/libvirt.go: the values that the reads make of what libvirt answers.
use libvirt_rest_api.Base.{
  ℕ, ◌+◌, ◌%◌, ◌^◌, ◌||◌, List, [], ◌∷◌, Option, none, some, Text, text, text_eq, if◌then◌else◌,
  map,
}
use Prim.Native.String.{String}
use libvirt_rest_api.Errors.{
  Error, is_code, unsupported, no_support, operation_unsupported, fail, wrap, lit, quoted,
}
use libvirt_rest_api.Values.{
  Gauge, NodeInfo, NodeCpuStats, NodeMemoryStats, GuestInfo, GuestInterface, GuestAddress,
  AddressType, ipv4, ipv6, other_type, AddressSource, source_lease, source_agent, source_arp,
  ListFlags, list_all, list_active, list_inactive,
}
use libvirt_rest_api.Service.{
  Host, CpuStats, Domain, DomainInfo, DomainFilter, domain_all, domain_active, domain_inactive,
  IpAddress, DomainInterface, interface_source_agent, interface_source_arp,
}
use libvirt_rest_api.Hypervisor.{about}

-- `fmt.Errorf("…: %w", err)`.
abbrev pub because : String → Error → Error
because context e = wrap (lit (text context) ∷ []) e []

-- `uint64Ptr` and `int64PtrIf`: the value if it is set.
abbrev pub if_set : {A : Type 0} → Gauge A → Option A
if_set g = if g.set then some g.value else none

-- `m[key] = value`.
unfoldable pub map_set : Text → ℕ → List (Text × ℕ) → List (Text × ℕ)
map_set key value [] = (key, value) ∷ []
map_set key value ((other, old) ∷ m) =
    let rest = map_set key value m in
    if text_eq other key then (key, value) ∷ m else (other, old) ∷ rest

abbrev pub set_if_set : String → Gauge ℕ → List (Text × ℕ) → List (Text × ℕ)
set_if_set key g m = if g.set then map_set (text key) g.value m else m

abbrev pub described_host : Text → NodeInfo → Host
described_host name info = record {
  name = name;
  model = info.model;
  memory_kib = info.memory;
  cpus = info.cpus;
  mhz = info.mhz;
  numa_nodes = info.nodes;
  sockets = info.sockets;
  cores = info.cores;
  threads = info.threads;
}

-- The sum wraps at 64 bits.
unfoldable pub host_cpu : NodeCpuStats → CpuStats
host_cpu cpu = record {
  cpu_time_ns =
      if cpu.kernel.set || cpu.user.set
      then some ((cpu.kernel.value + cpu.user.value) % 2 ^ 64)
      else none;
  user_time_ns = if_set cpu.user;
  system_time_ns = if_set cpu.kernel;
}

unfoldable pub host_memory : NodeMemoryStats → List (Text × ℕ)
unfolding map_set
host_memory m = set_if_set "cached" m.cached (
    set_if_set "buffers" m.buffers (
      set_if_set "available" m.available
        (set_if_set "free" m.free (set_if_set "total" m.total []))))

abbrev pub list_flags : DomainFilter → ListFlags
list_flags domain_all = list_all
list_flags domain_active = list_active
list_flags domain_inactive = list_inactive

abbrev pub described_info : Domain → GuestInfo → DomainInfo
described_info summary info = record {
  domain = summary;
  state_code = info.state;
  max_memory_kib = info.max_mem;
  memory_kib = info.memory;
  vcpus = info.nr_virt_cpu;
  cpu_time_ns = info.cpu_time;
}

abbrev pub address_source : Text → AddressSource
address_source source =
    if text_eq source interface_source_agent
    then source_agent
    else if text_eq source interface_source_arp
    then source_arp
    else source_lease

abbrev pub address_family : AddressType → Text
address_family ipv4 = text "ipv4"
address_family ipv6 = text "ipv6"
address_family other_type = text "unknown"

abbrev pub described_address : GuestAddress → IpAddress
described_address a = record { family = address_family a.kind; address = a.addr; prefix = a.prefix }

abbrev pub described_interface : GuestInterface → DomainInterface
described_interface item = record {
  name = item.name;
  mac = item.hwaddr;
  addresses = map described_address item.addrs;
}

abbrev pub interfaces_error : Text → Text → Error → Error
interfaces_error source name e =
    if is_code e no_support || is_code e operation_unsupported
    then fail unsupported (
        lit (text ": interface address source ")
        ∷ quoted source
        ∷ lit (text " is unavailable")
        ∷ [])
    else about (text "get domain ") name (text " interface addresses: ") e
