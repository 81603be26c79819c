-- ===== src/Values.antt =====
-- The values of libvirt.org/go/libvirt that internal/hypervisor reads, as the binding fills them.
use libvirt_rest_api.Base.{ℕ, Bool, List, Text, ℤ}

-- A number, and whether the binding has set it.
pub record Gauge (A : Type 0) : Type 0 where
  pub value : A
  pub set : Bool

-- `NodeInfo`, with its sizes as unsigned numbers.
pub record NodeInfo : Type 0 where
  pub model : Text
  pub memory : ℕ
  pub cpus : ℕ
  pub mhz : ℕ
  pub nodes : ℕ
  pub sockets : ℕ
  pub cores : ℕ
  pub threads : ℕ

pub record NodeCpuStats : Type 0 where
  pub kernel : Gauge ℕ
  pub user : Gauge ℕ

pub record NodeMemoryStats : Type 0 where
  pub total : Gauge ℕ
  pub free : Gauge ℕ
  pub available : Gauge ℕ
  pub buffers : Gauge ℕ
  pub cached : Gauge ℕ

-- `libvirt.DomainInfo`.
pub record GuestInfo : Type 0 where
  pub state : ℤ
  pub max_mem : ℕ
  pub memory : ℕ
  pub nr_virt_cpu : ℕ
  pub cpu_time : ℕ

-- `DomainCPUStats`.
pub record GuestCpuStats : Type 0 where
  pub cpu_time : Gauge ℕ
  pub user_time : Gauge ℕ
  pub system_time : Gauge ℕ

-- `DomainMemoryStat`.
pub record MemoryStat : Type 0 where
  pub tag : ℤ
  pub val : ℕ

-- `DomainBlockStats`, `DomainInterfaceStats`.
pub record BlockCounters : Type 0 where
  pub rd_bytes : Gauge ℤ
  pub rd_req : Gauge ℤ
  pub wr_bytes : Gauge ℤ
  pub wr_req : Gauge ℤ

pub record InterfaceCounters : Type 0 where
  pub rx_bytes : Gauge ℤ
  pub rx_packets : Gauge ℤ
  pub tx_bytes : Gauge ℤ
  pub tx_packets : Gauge ℤ

pub data AddressType : Type 0 where
  ipv4 ipv6 other_type : AddressType

-- `DomainIPAddress`, `DomainInterface`.
pub record GuestAddress : Type 0 where
  pub kind : AddressType
  pub addr : Text
  pub prefix : ℕ

pub record GuestInterface : Type 0 where
  pub name : Text
  pub hwaddr : Text
  pub addrs : List GuestAddress

pub data AddressSource : Type 0 where
  source_lease source_agent source_arp : AddressSource

pub data ListFlags : Type 0 where
  list_all list_active list_inactive : ListFlags

-- The bits of the flags that snapshots are created, reverted to and deleted with.
pub data SnapshotFlag : Type 0 where
  create_atomic create_disk_only create_quiesce : SnapshotFlag
  revert_running revert_paused revert_force : SnapshotFlag
  delete_children : SnapshotFlag
