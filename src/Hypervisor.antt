-- ===== src/Hypervisor.antt =====
-- internal/hypervisor/libvirt.go: what the actions ask of the libvirt binding. The binding is a
-- parameter: it may answer each operation by everything that was asked of it before. A domain
-- handle is a number. The lock of a domain and its release are in the sequence of operations too, as
-- is the deferred `Free`.
pub mod Lookup
pub mod Power
pub mod Within
pub mod Freed
pub mod Bracket
pub mod Actions
pub mod Missing
pub mod Success
pub mod Confirmed
pub mod Snapshots
pub mod Reads
pub mod Stats
pub mod Display
pub mod Scoped
pub mod Refines
pub mod Connection
pub mod Fixtures
mod Tests
use libvirt_rest_api.Base.{Option, ℕ, Bool, List, [], ◌∷◌, ◌++◌, Text, text, ℤ}
use libvirt_rest_api.Values.{
  NodeInfo, NodeCpuStats, NodeMemoryStats, GuestInfo, GuestCpuStats, MemoryStat, BlockCounters,
  InterfaceCounters, GuestInterface, AddressSource, ListFlags, SnapshotFlag,
}
use libvirt_rest_api.Errors.{Error, Result, ok, err, wrap, lit, quoted}

-- The flag values of libvirt.org/go/libvirt that a power mode selects.
pub data Flags : Type 0 where
  flags_default flags_acpi flags_guest_agent : Flags

pub data Op : Type 0 where
  by_name by_uuid : Text → Op
  get_name get_uuid_string is_active get_state get_autostart : (domain : ℕ) → Op
  create suspend resume reset destroy : (domain : ℕ) → Op
  shutdown_flags reboot : (domain : ℕ) → Flags → Op
  set_autostart : (domain : ℕ) → Bool → Op
  lock unlock : (uuid : Text) → Op
  free : (domain : ℕ) → Op
  -- The connection, the clock and the context.
  is_alive get_hostname get_node_info host_cpu_stats host_memory_stats new_stream now : Op
  context_error : Op
  list_all_domains : ListFlags → Op
  -- More of what is read of a domain.
  get_id get_info get_cpu_stats memory_stats get_xml : (domain : ℕ) → Op
  block_stats interface_stats : (domain : ℕ) → (device : Text) → Op
  list_interface_addresses : (domain : ℕ) → AddressSource → Op
  screenshot : (domain stream : ℕ) → Op
  recv_all finish abort free_stream : (stream : ℕ) → Op
  -- Snapshots. A handle of a snapshot is a number too.
  snapshot_current list_all_snapshots : (domain : ℕ) → Op
  create_snapshot_xml : (domain : ℕ) → (description : Text) → List SnapshotFlag → Op
  snapshot_lookup_by_name : (domain : ℕ) → (name : Text) → Op
  snapshot_name snapshot_xml : (snapshot : ℕ) → Op
  revert_to_snapshot delete_snapshot : (snapshot : ℕ) → List SnapshotFlag → Op
  free_snapshot : (snapshot : ℕ) → Op
  -- `lockDomainActionContext`.
  lock_context : (uuid : Text) → Op

abbrev pub Reply : Op → Type 0
Reply (by_name _) = Result ℕ
Reply (by_uuid _) = Result ℕ
Reply (get_name _) = Result Text
Reply (get_uuid_string _) = Result Text
Reply (is_active _) = Result Bool
Reply (get_state _) = Result ℤ
Reply (get_autostart _) = Result Bool
Reply (lock _) = Unit
Reply (unlock _) = Unit
Reply (free _) = Unit
Reply is_alive = Result Bool
Reply get_hostname = Result Text
Reply get_node_info = Result NodeInfo
Reply host_cpu_stats = Result NodeCpuStats
Reply host_memory_stats = Result NodeMemoryStats
Reply new_stream = Result ℕ
Reply now = ℕ
Reply context_error = Option Error
Reply (list_all_domains _) = Result (List ℕ)
Reply (get_id _) = Result ℕ
Reply (get_info _) = Result GuestInfo
Reply (get_cpu_stats _) = Result (List GuestCpuStats)
Reply (memory_stats _) = Result (List MemoryStat)
Reply (get_xml _) = Result Text
Reply (block_stats _ _) = Result BlockCounters
Reply (interface_stats _ _) = Result InterfaceCounters
Reply (list_interface_addresses _ _) = Result (List GuestInterface)
Reply (screenshot _ _) = Result Text
Reply (recv_all _) = List ℕ × Result (Unit {0})
Reply (abort _) = Unit
Reply (free_stream _) = Unit
Reply (snapshot_current _) = Result ℕ
Reply (list_all_snapshots _) = Result (List ℕ)
Reply (create_snapshot_xml _ _ _) = Result ℕ
Reply (snapshot_lookup_by_name _ _) = Result ℕ
Reply (snapshot_name _) = Result Text
Reply (snapshot_xml _) = Result Text
Reply (free_snapshot _) = Unit
Reply _ = Result (Unit {0})

abbrev pub Binding : Type 0
Binding = (history : List Op) (op : Op) → Reply op

-- A computation threads the operations that were asked so far.
abbrev pub L : Type 0 → Type 0
L A = List Op → A × List Op

infixl 5 ◌>>=◌ ◌>>◌
unfoldable pub ◌>>=◌ : {A B : Type 0} → L A → (A → L B) → L B
◌>>=◌ m k ops = let (a, ops') = m ops in k a ops'

abbrev pub ◌>>◌ : {A B : Type 0} → L A → L B → L B
m >> k = m >>= λ _. k

abbrev pub pure : {A : Type 0} → A → L A
pure a ops = (a, ops)

abbrev pub request : Binding → (op : Op) → L (Reply op)
request binding op ops = (binding ops op, ops ++ op ∷ [])

-- `if err != nil { return …, fmt.Errorf(…) }`, and else what follows.
abbrev pub or_return :
    {A B : Type 0} → (Error → Error) → Result A → (A → L (Result B)) → L (Result B)
or_return context (ok a) next = next a
or_return context (err e) next = pure (err (context e))

-- `fmt.Errorf("before %q after: %w", name, err)`.
abbrev pub about : Text → Text → Text → Error → Error
about before name after e = wrap (lit before ∷ quoted name ∷ lit after ∷ []) e []
