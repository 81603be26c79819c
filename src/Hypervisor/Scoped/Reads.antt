-- ===== src/Hypervisor/Scoped/Reads.antt =====
-- internal/hypervisor/libvirt.go: the reads ask for no operation beyond the scope for reading.
use libvirt_rest_api.Base.{arith, ℕ, ◌≤◌, Bool, List, [], ◌∷◌, Text}
use libvirt_rest_api.Errors.{Result}
use libvirt_rest_api.Service.{DomainFilter}
use libvirt_rest_api.Hypervisor.{
  Op, Reply, Binding, L, ◌>>=◌, request, is_alive, get_hostname, get_node_info, host_cpu_stats,
  host_memory_stats, now, list_all_domains, get_id, get_info, get_autostart,
  list_interface_addresses, free,
}
use libvirt_rest_api.Hypervisor.Within.{
  Within, Within-pure, Within-request, Within-bind, Within-if, Within-or_return,
}
use libvirt_rest_api.Hypervisor.Reads.{
  ready_read, host_read, host_stats_read, numeric_id, summary_of, domain_summary, all_summaries,
  free_domains, summaries, list_domains_read, list_flags, domain_read, with_identity,
  domain_interfaces_read, address_source, autostart_read,
}
use libvirt_rest_api.Hypervisor.Scoped.{
  At, domain_identity-Scoped, with_domain-Scoped, check_active-Scoped, check_state-Scoped,
}

module _ (binding : Binding) (n : ℕ) where
  -- A request that is allowed, and what follows it.
  pub request-Scoped :
      (op : Op) {B : Type 0} {next : Reply op → L B}
      → At n op
      → ((reply : Reply op) → Within (At n) (next reply))
      → Within (At n) (request binding op >>= next)
  request-Scoped op h k = Within-bind (Within-request binding op h) k

  pub ready_read-Scoped : Within (At n) (ready_read binding)
  unfolding ready_read
  ready_read-Scoped =
      request-Scoped is_alive (omega arith)
        (λ alive. Within-or_return _ alive (λ living. Within-pure _))

  module _ (read : 1 ≤ n) where
    pub host_read-Scoped : Within (At n) (host_read binding)
    unfolding host_read
    host_read-Scoped = request-Scoped get_hostname read (λ named. Within-or_return _ named (λ name.
        request-Scoped get_node_info read
          (λ informed. Within-or_return _ informed (λ info. Within-pure _))))

    pub host_stats_read-Scoped : Within (At n) (host_stats_read binding)
    unfolding host_stats_read
    host_stats_read-Scoped = request-Scoped host_cpu_stats read (λ given.
        Within-or_return _ given (λ cpu. request-Scoped host_memory_stats read (λ given'.
          Within-or_return _ given'
            (λ memory. request-Scoped now read (λ sampled_at. Within-pure _)))))

    numeric_id-Scoped :
        (name : Text) (domain : ℕ) (active : Bool)
        → Within (At n) (numeric_id binding name domain active)
    unfolding numeric_id
    numeric_id-Scoped name domain active =
        Within-if active
          (request-Scoped (get_id domain) read
            (λ given. Within-or_return _ given (λ id. Within-pure _)))
          (Within-pure _)

    domain_summary-Scoped : (domain : ℕ) → Within (At n) (domain_summary binding domain)
    unfolding domain_summary summary_of
    domain_summary-Scoped domain =
        Within-bind (domain_identity-Scoped binding n read domain) (λ identity.
          Within-or_return _ identity (λ (name, uuid).
            check_state-Scoped binding n read name domain (λ state.
              check_active-Scoped binding n read name domain (λ active.
                Within-bind (numeric_id-Scoped name domain active)
                  (λ numbered. Within-or_return _ numbered (λ id. Within-pure _))))))

    all_summaries-Scoped : (domains : List ℕ) → Within (At n) (all_summaries binding domains)
    unfolding all_summaries
    all_summaries-Scoped [] = Within-pure _
    all_summaries-Scoped (domain ∷ domains) = Within-bind (domain_summary-Scoped domain) (λ given.
        Within-or_return _ given (λ summary.
          Within-bind (all_summaries-Scoped domains)
            (λ others. Within-or_return _ others (λ rest. Within-pure _))))

    free_domains-Scoped : (domains : List ℕ) → Within (At n) (free_domains binding domains)
    unfolding free_domains
    free_domains-Scoped [] = Within-pure _
    free_domains-Scoped (domain ∷ domains) =
        request-Scoped (free domain) read (λ _. free_domains-Scoped domains)

    pub list_domains_read-Scoped :
        (filter : DomainFilter) → Within (At n) (list_domains_read binding filter)
    unfolding list_domains_read summaries
    list_domains_read-Scoped filter =
        request-Scoped (list_all_domains (list_flags filter)) read (λ given.
          Within-or_return _ given (λ domains.
            Within-bind (all_summaries-Scoped domains)
              (λ result. Within-bind (free_domains-Scoped domains) (λ _. Within-pure _))))

    pub domain_read-Scoped : (identifier : Text) → Within (At n) (domain_read binding identifier)
    unfolding domain_read
    domain_read-Scoped identifier = with_domain-Scoped binding n read identifier (λ domain.
        Within-bind (domain_summary-Scoped domain) (λ given. Within-or_return _ given (λ summary.
          request-Scoped (get_info domain) read
            (λ informed. Within-or_return _ informed (λ info. Within-pure _)))))

    pub with_identity-Scoped :
        {A : Type 0} (identifier : Text) {body : Text → Text → ℕ → L (Result A)}
        → ((name uuid : Text) (domain : ℕ) → Within (At n) (body name uuid domain))
        → Within (At n) (with_identity binding identifier body)
    unfolding with_identity
    with_identity-Scoped identifier h = with_domain-Scoped binding n read identifier (λ domain.
        Within-bind (domain_identity-Scoped binding n read domain)
          (λ identity. Within-or_return _ identity (λ (name, uuid). h name uuid domain)))

    pub domain_interfaces_read-Scoped :
        (identifier source : Text)
        → Within (At n) (domain_interfaces_read binding identifier source)
    unfolding domain_interfaces_read
    domain_interfaces_read-Scoped identifier source =
        with_identity-Scoped identifier (λ name uuid domain.
          request-Scoped (list_interface_addresses domain (address_source source)) read
            (λ given. Within-or_return _ given (λ items. Within-pure _)))

    pub autostart_read-Scoped :
        (identifier : Text) → Within (At n) (autostart_read binding identifier)
    unfolding autostart_read
    autostart_read-Scoped identifier = with_identity-Scoped identifier (λ name uuid domain.
        request-Scoped (get_autostart domain) read
          (λ given. Within-or_return _ given (λ enabled. Within-pure _)))
