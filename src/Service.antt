-- ===== src/Service.antt =====
-- internal/hypervisor/service.go: the values that the hypervisor layer and the API exchange, and
-- the interface between them. Go's string types keep their text; times are nanoseconds.
use libvirt_rest_api.Base.{
  ℕ, Bool, List, [], ◌∷◌, Option, Text, text, leb, if◌then◌else◌, get_or, ℤ, pos, negsuc,
}
use libvirt_rest_api.Errors.{Result}
use libvirt_rest_api.Broker.{LifecycleEvent}

abbrev pub power_mode_default : Text
power_mode_default = text "default"

abbrev pub power_mode_acpi : Text
power_mode_acpi = text "acpi"

abbrev pub power_mode_guest_agent : Text
power_mode_guest_agent = text "guest-agent"

abbrev pub interface_source_lease : Text
interface_source_lease = text "lease"

abbrev pub interface_source_agent : Text
interface_source_agent = text "agent"

abbrev pub interface_source_arp : Text
interface_source_arp = text "arp"

abbrev pub snapshot_kind_system : Text
snapshot_kind_system = text "system"

abbrev pub snapshot_kind_disk : Text
snapshot_kind_disk = text "disk"

abbrev pub snapshot_revert_recorded : Text
snapshot_revert_recorded = text "snapshot"

abbrev pub snapshot_revert_running : Text
snapshot_revert_running = text "running"

abbrev pub snapshot_revert_paused : Text
snapshot_revert_paused = text "paused"

pub data DomainFilter : Type 0 where
  domain_all domain_active domain_inactive : DomainFilter

pub record Host : Type 0 where
  pub name : Text
  pub model : Text
  pub memory_kib : ℕ
  pub cpus : ℕ
  pub mhz : ℕ
  pub numa_nodes : ℕ
  pub sockets : ℕ
  pub cores : ℕ
  pub threads : ℕ

pub record Domain : Type 0 where
  pub name : Text
  pub uuid : Text
  pub id : ℤ
  pub state : Text
  pub active : Bool

pub record DomainInfo : Type 0 where
  pub domain : Domain
  pub state_code : ℤ
  pub max_memory_kib : ℕ
  pub memory_kib : ℕ
  pub vcpus : ℕ
  pub cpu_time_ns : ℕ

pub record Viewer : Type 0 where
  pub kind : Text
  pub listen : Option Text
  pub port : Option ℤ

pub record ActionResult : Type 0 where
  pub name : Text
  pub uuid : Text
  pub state : Text
  pub status : Text

pub record Screenshot : Type 0 where
  pub content_type : Text
  pub image : List ℕ

pub record CpuStats : Type 0 where
  pub cpu_time_ns : Option ℕ
  pub user_time_ns : Option ℕ
  pub system_time_ns : Option ℕ

pub record HostStats : Type 0 where
  pub sampled_at : ℕ
  pub cpu : CpuStats
  pub memory_kib : List (Text × ℕ)

pub record BlockStats : Type 0 where
  pub device : Text
  pub read_bytes : Option ℤ
  pub read_requests : Option ℤ
  pub write_bytes : Option ℤ
  pub write_requests : Option ℤ

pub record NetworkStats : Type 0 where
  pub device : Text
  pub rx_bytes : Option ℤ
  pub rx_packets : Option ℤ
  pub tx_bytes : Option ℤ
  pub tx_packets : Option ℤ

pub record DomainStats : Type 0 where
  pub sampled_at : ℕ
  pub name : Text
  pub uuid : Text
  pub state : Text
  pub cpu : CpuStats
  pub memory_kib : List (Text × ℕ)
  pub disks : List BlockStats
  pub interfaces : List NetworkStats

pub record IpAddress : Type 0 where
  pub family : Text
  pub address : Text
  pub prefix : ℕ

pub record DomainInterface : Type 0 where
  pub name : Text
  pub mac : Text
  pub addresses : List IpAddress

pub record DomainInterfaces : Type 0 where
  pub name : Text
  pub uuid : Text
  pub source : Text
  pub interfaces : List DomainInterface

pub record Autostart : Type 0 where
  pub name : Text
  pub uuid : Text
  pub enabled : Bool

pub record Snapshot : Type 0 where
  pub name : Text
  pub description : Text
  pub parent : Text
  pub state : Text
  pub created_at : Option ℕ
  pub current : Bool

pub record SnapshotCreateRequest : Type 0 where
  pub name : Text
  pub description : Text
  pub kind : Text
  pub quiesce : Bool

pub record SnapshotRevertRequest : Type 0 where
  pub state : Text
  pub force : Bool

pub record SnapshotActionResult : Type 0 where
  pub name : Text
  pub uuid : Text
  pub snapshot : Text
  pub status : Text

-- What the loop of the events handler can see next on its three channels.
pub data Signal : Type 0 where
  event_received : LifecycleEvent → Signal
  stream_closed heartbeat request_done : Signal

-- A call of the interface, with its arguments but the context. `cancel` stands for the function
-- that a subscription carries.
pub data Call : Type 0 where
  ready host host_stats : Call
  list_domains : DomainFilter → Call
  subscribe : (cursor : Text) → Call
  cancel : Call
  domain domain_stats autostart list_snapshots domain_xml viewer screenshot : Text → Call
  start pause resume reset stop : Text → Call
  domain_interfaces : Text → (source : Text) → Call
  set_autostart : Text → Bool → Call
  create_snapshot : Text → SnapshotCreateRequest → Call
  revert_snapshot : Text → (snapshot : Text) → SnapshotRevertRequest → Call
  delete_snapshot : Text → (snapshot : Text) → (children : Bool) → Call
  shutdown reboot : Text → (mode : Text) → Call

abbrev pub Answer : Call → Type 0
Answer ready = Result (Unit {0})
Answer host = Result Host
Answer host_stats = Result HostStats
Answer (list_domains _) = Result (List Domain)
Answer (subscribe _) = List Signal
Answer cancel = Unit
Answer (domain _) = Result DomainInfo
Answer (domain_stats _) = Result DomainStats
Answer (autostart _) = Result Autostart
Answer (list_snapshots _) = Result (List Snapshot)
Answer (domain_xml _) = Result Text
Answer (viewer _) = Result Viewer
Answer (screenshot _) = Result Screenshot
Answer (start _) = Result ActionResult
Answer (pause _) = Result ActionResult
Answer (resume _) = Result ActionResult
Answer (reset _) = Result ActionResult
Answer (stop _) = Result ActionResult
Answer (domain_interfaces _ _) = Result DomainInterfaces
Answer (set_autostart _ _) = Result Autostart
Answer (create_snapshot _ _) = Result Snapshot
Answer (revert_snapshot _ _ _) = Result SnapshotActionResult
Answer (delete_snapshot _ _ _) = Result (Unit {0})
Answer (shutdown _ _) = Result ActionResult
Answer (reboot _ _) = Result ActionResult

-- A service may answer each call by everything that was asked of it before.
abbrev pub Service : Type 0
Service = (history : List Call) (call : Call) → Answer call

abbrev state_names : List Text
state_names =
    text "no-state"
    ∷ text "running"
    ∷ text "blocked"
    ∷ text "paused"
    ∷ text "shutdown"
    ∷ text "shutoff"
    ∷ text "crashed"
    ∷ text "suspended"
    ∷ []

unfoldable pub state_name : ℤ → Text
state_name (negsuc _) = text "unknown"
state_name (pos code) =
    if leb 8 code then text "unknown" else get_or state_names code (text "unknown")
