-- ===== src/Hypervisor/Reads.antt =====
-- internal/hypervisor/libvirt.go: the reads of the host and of domains.
mod Described
pub use Described.{
  because, if_set, set_if_set, described_host, list_flags, described_info, address_source,
  address_family, described_address, described_interface, interfaces_error,
}
unfoldable pub use Described.{map_set, host_cpu, host_memory}
use libvirt_rest_api.Base.{
  ℕ, ◌+◌, ◌%◌, ◌^◌, Bool, not, ◌||◌, List, [], ◌∷◌, Option, none, some, Text, text, text_eq,
  if◌then◌else◌, ℤ, negsuc, map,
}
use Prim.Native.String.{String}
use libvirt_rest_api.Errors.{
  Error, Result, ok, err, is_code, unsupported, no_support, operation_unsupported, fail, wrap, lit,
  quoted, plain_error, lit_of,
}
use libvirt_rest_api.Values.{
  Gauge, NodeInfo, NodeCpuStats, NodeMemoryStats, GuestInfo, GuestInterface, GuestAddress,
  AddressType, ipv4, ipv6, other_type, AddressSource, source_lease, source_agent, source_arp,
  ListFlags, list_all, list_active, list_inactive,
}
use libvirt_rest_api.Service.{
  Host, HostStats, CpuStats, Domain, DomainInfo, DomainFilter, domain_all, domain_active,
  domain_inactive, Autostart, IpAddress, DomainInterface, DomainInterfaces, state_name,
  interface_source_agent, interface_source_arp,
}
use libvirt_rest_api.Hypervisor.{
  Binding, L, ◌>>=◌, pure, request, or_return, about, is_alive, get_hostname, get_node_info,
  host_cpu_stats, host_memory_stats, now, list_all_domains, get_id, get_info, get_autostart,
  list_interface_addresses, free,
}
use libvirt_rest_api.Hypervisor.Lookup.{domain_identity, normalize_domain_id}
use libvirt_rest_api.Hypervisor.Power.{with_domain, check_active, check_state}

module _ (binding : Binding) where
  unfoldable pub ready_read : L (Result (Unit {0}))
  ready_read = request binding is_alive >>= λ alive.
      or_return (because "check libvirt connection: ") alive (λ living. pure (
        if not living then err (plain_error (lit_of "libvirt connection is not alive")) else ok tt))

  unfoldable pub host_read : L (Result Host)
  host_read = request binding get_hostname >>= λ named.
      or_return (because "get hypervisor hostname: ") named (λ name.
        request binding get_node_info >>= λ informed.
        or_return (because "get hypervisor information: ") informed
          (λ info. pure (ok (described_host name info))))

  unfoldable pub host_stats_read : L (Result HostStats)
  unfolding host_cpu host_memory
  host_stats_read = request binding host_cpu_stats >>= λ given.
      or_return (because "get host CPU statistics: ") given (λ cpu.
        request binding host_memory_stats >>= λ given.
        or_return (because "get host memory statistics: ") given (λ memory.
          request binding now >>= λ sampled_at. pure (
            ok (record {
              sampled_at = sampled_at;
              cpu = host_cpu cpu;
              memory_kib = host_memory memory;
            }))))

  -- The id of a domain that is active, and -1 of another.
  unfoldable pub numeric_id : Text → ℕ → Bool → L (Result ℤ)
  unfolding normalize_domain_id
  numeric_id name domain active =
      let asked = request binding (get_id domain) >>= λ given.
      or_return (about (text "get domain ") name (text " ID: ")) given
        (λ id. pure (ok (normalize_domain_id id))) in
      if active then asked else pure (ok (negsuc 0))

  -- The part of `domainSummary` after the identity.
  unfoldable pub summary_of : ℕ → Text × Text → L (Result Domain)
  unfolding numeric_id
  summary_of domain (name, uuid) = check_state binding name domain (λ state.
      check_active binding name domain (λ active. numeric_id name domain active >>= λ numbered.
      or_return (λ e. e) numbered
        (λ id. pure (
          ok (record {
            name = name;
            uuid = uuid;
            id = id;
            state = state_name state;
            active = active;
          })))))

  unfoldable pub domain_summary : ℕ → L (Result Domain)
  unfolding summary_of
  domain_summary domain =
      domain_identity binding domain >>= λ identity. or_return (λ e. e) identity (summary_of domain)

  -- The loop over the domains.
  unfoldable pub all_summaries : List ℕ → L (Result (List Domain))
  unfolding domain_summary
  all_summaries [] = pure (ok [])
  all_summaries (domain ∷ domains) = domain_summary domain >>= λ given.
      or_return (λ e. e) given
        (λ summary. all_summaries domains >>= λ others.
          or_return (λ e. e) others (λ rest. pure (ok (summary ∷ rest))))

  unfoldable pub free_domains : List ℕ → L (Unit {0})
  free_domains [] = pure tt
  free_domains (domain ∷ domains) = request binding (free domain) >>= λ _. free_domains domains

  unfoldable pub summaries : List ℕ → L (Result (List Domain))
  unfolding all_summaries free_domains
  summaries domains = all_summaries domains >>= λ result. free_domains domains >>= λ _. pure result

  unfoldable pub list_domains_read : DomainFilter → L (Result (List Domain))
  unfolding summaries
  list_domains_read filter = request binding (list_all_domains (list_flags filter)) >>= λ given.
      or_return (because "list domains: ") given summaries

  unfoldable pub domain_read : Text → L (Result DomainInfo)
  unfolding with_domain domain_summary
  domain_read identifier = with_domain binding identifier (λ domain.
      domain_summary domain >>= λ given.
      or_return (λ e. e) given
        (λ summary. request binding (get_info domain) >>= λ informed.
          or_return (about (text "get domain ") identifier (text " information: ")) informed
            (λ info. pure (ok (described_info summary info)))))

  -- The lookup of a domain and its identity.
  unfoldable pub with_identity :
      {A : Type 0} → Text → (Text → Text → ℕ → L (Result A)) → L (Result A)
  unfolding with_domain
  with_identity identifier body = with_domain binding identifier (λ domain.
      domain_identity binding domain >>= λ identity.
      or_return (λ e. e) identity (λ (name, uuid). body name uuid domain))

  unfoldable pub domain_interfaces_read : Text → Text → L (Result DomainInterfaces)
  unfolding with_identity
  domain_interfaces_read identifier source = with_identity identifier (λ name uuid domain.
      request binding (list_interface_addresses domain (address_source source)) >>= λ given.
      or_return (interfaces_error source name) given (λ items. pure (
        ok (record {
          name = name;
          uuid = uuid;
          source = source;
          interfaces = map described_interface items;
        }))))

  unfoldable pub autostart_read : Text → L (Result Autostart)
  unfolding with_identity
  autostart_read identifier = with_identity identifier (λ name uuid domain.
      request binding (get_autostart domain) >>= λ given.
      or_return (about (text "get domain ") name (text " autostart: ")) given
        (λ enabled. pure (ok (record { name = name; uuid = uuid; enabled = enabled }))))
