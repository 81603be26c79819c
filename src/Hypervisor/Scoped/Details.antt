-- ===== src/Hypervisor/Scoped/Details.antt =====
-- internal/hypervisor/libvirt.go: statistics, XML, viewer and screenshot ask for no operation beyond
-- the scope for reading.
use libvirt_rest_api.Base.{ℕ, ◌≤◌, not, List, [], ◌∷◌, Text, Option, none, some, ℤ}
use libvirt_rest_api.Errors.{Error, Result, ok, err}
use libvirt_rest_api.Hypervisor.{
  Binding, now, get_cpu_stats, memory_stats, get_xml, block_stats, interface_stats, new_stream,
  screenshot, recv_all, context_error, finish, abort, free_stream, free,
}
use libvirt_rest_api.Hypervisor.Within.{
  Within, Within-pure, Within-request, Within-bind, Within-if, Within-or_return,
}
use libvirt_rest_api.Hypervisor.Stats.{
  DecodeTargets, device_targets, all_blocks, all_networks, device_stats, stats_of_active,
  domain_stats_read,
}
use libvirt_rest_api.Hypervisor.Display.{
  DecodeGraphics, domain_xml_read, viewer_from_xml, viewer_read, end_transfer, transfer, captured,
  on_stream, screenshot_read,
}
use libvirt_rest_api.Hypervisor.Scoped.{
  At, lookup_domain-Scoped, with_domain-Scoped, check_active-Scoped, check_state-Scoped,
}
use libvirt_rest_api.Hypervisor.Scoped.Reads.{request-Scoped, with_identity-Scoped}

module _ (binding : Binding) (n : ℕ) (read : 1 ≤ n) where
  module _ (decode : DecodeTargets) where
    all_blocks-Scoped :
        (name : Text) (domain : ℕ) (devices : List Text)
        → Within (At n) (all_blocks binding decode name domain devices)
    unfolding all_blocks
    all_blocks-Scoped name domain [] = Within-pure _
    all_blocks-Scoped name domain (device ∷ devices) =
        request-Scoped binding n (block_stats domain device) read (λ given.
          Within-or_return _ given (λ stats.
            Within-bind (all_blocks-Scoped name domain devices)
              (λ others. Within-or_return _ others (λ rest. Within-pure _))))

    all_networks-Scoped :
        (name : Text) (domain : ℕ) (devices : List Text)
        → Within (At n) (all_networks binding decode name domain devices)
    unfolding all_networks
    all_networks-Scoped name domain [] = Within-pure _
    all_networks-Scoped name domain (device ∷ devices) =
        request-Scoped binding n (interface_stats domain device) read (λ given.
          Within-or_return _ given (λ stats.
            Within-bind (all_networks-Scoped name domain devices)
              (λ others. Within-or_return _ others (λ rest. Within-pure _))))

    stats_of_active-Scoped :
        (name uuid : Text) (domain : ℕ) (state : ℤ)
        → Within (At n) (stats_of_active binding decode name uuid domain state)
    unfolding stats_of_active device_targets device_stats
    stats_of_active-Scoped name uuid domain state = request-Scoped binding n now read (λ sampled_at.
        request-Scoped binding n (get_cpu_stats domain) read (λ given.
          Within-or_return _ given (λ cpu.
            request-Scoped binding n (memory_stats domain) read (λ given'.
              Within-or_return _ given' (λ memory.
                Within-bind
                  (request-Scoped binding n (get_xml domain) read
                    (λ xml. Within-or_return _ xml (λ description. Within-pure _)))
                  (λ targets. Within-or_return _ targets (λ (disks, interfaces).
                    Within-bind (all_blocks-Scoped name domain disks) (λ blocks.
                      Within-or_return _ blocks (λ disk_stats.
                        Within-bind (all_networks-Scoped name domain interfaces)
                          (λ networks. Within-or_return _ networks (λ nets. Within-pure _)))))))))))

    pub domain_stats_read-Scoped :
        (identifier : Text) → Within (At n) (domain_stats_read binding decode identifier)
    unfolding domain_stats_read
    domain_stats_read-Scoped identifier =
        with_identity-Scoped binding n read identifier (λ name uuid domain.
          check_active-Scoped binding n read name domain (λ active.
            Within-if (not active) (Within-pure _) (
              check_state-Scoped binding n read name domain
                (stats_of_active-Scoped name uuid domain))))

  pub domain_xml_read-Scoped :
      (identifier : Text) → Within (At n) (domain_xml_read binding identifier)
  unfolding domain_xml_read
  domain_xml_read-Scoped identifier = with_domain-Scoped binding n read identifier (λ domain.
      request-Scoped binding n (get_xml domain) read
        (λ given. Within-or_return _ given (λ description. Within-pure _)))

  pub viewer_read-Scoped :
      (decode : DecodeGraphics) (identifier : Text)
      → Within (At n) (viewer_read binding decode identifier)
  unfolding viewer_read
  viewer_read-Scoped decode identifier = Within-bind (domain_xml_read-Scoped identifier) (λ given.
      Within-or_return _ given (λ description.
        Within-or_return _ (viewer_from_xml decode description) (λ viewer. Within-pure _)))

  end_transfer-Scoped :
      (stream : ℕ) (outcome : Result (Unit {0})) (ended : Option Error)
      → Within (At n) (end_transfer binding stream outcome ended)
  unfolding end_transfer
  end_transfer-Scoped stream (ok _) none =
      request-Scoped binding n (finish stream) read (λ _. Within-pure _)
  end_transfer-Scoped stream (err _) none = Within-request binding (abort stream) read
  end_transfer-Scoped stream (ok _) (some _) = Within-request binding (abort stream) read
  end_transfer-Scoped stream (err _) (some _) = Within-request binding (abort stream) read

  transfer-Scoped : (domain stream : ℕ) → Within (At n) (transfer binding domain stream)
  unfolding transfer
  transfer-Scoped domain stream =
      request-Scoped binding n (recv_all stream) read (λ (image, outcome).
        request-Scoped binding n context_error read (λ ended.
          Within-bind (end_transfer-Scoped stream outcome ended) (λ _.
            request-Scoped binding n (free domain) read
              (λ _. request-Scoped binding n (free_stream stream) read (λ _. Within-pure _)))))

  captured-Scoped :
      (identifier : Text) (domain stream : ℕ) (answer : Result Text)
      → Within (At n) (captured binding identifier domain stream answer)
  unfolding captured
  captured-Scoped identifier domain stream (err e) =
      request-Scoped binding n (free_stream stream) read
        (λ _. request-Scoped binding n (free domain) read (λ _. Within-pure _))
  captured-Scoped identifier domain stream (ok mime) =
      Within-bind (transfer-Scoped domain stream) (λ image. Within-pure _)

  on_stream-Scoped :
      (identifier : Text) (domain : ℕ) (answer : Result ℕ)
      → Within (At n) (on_stream binding identifier domain answer)
  unfolding on_stream
  on_stream-Scoped identifier domain (err e) =
      request-Scoped binding n (free domain) read (λ _. Within-pure _)
  on_stream-Scoped identifier domain (ok stream) =
      request-Scoped binding n (screenshot domain stream) read
        (captured-Scoped identifier domain stream)

  pub screenshot_read-Scoped :
      (identifier : Text) → Within (At n) (screenshot_read binding identifier)
  unfolding screenshot_read
  screenshot_read-Scoped identifier =
      Within-bind (lookup_domain-Scoped binding n read identifier) (λ found.
        Within-or_return _ found
          (λ domain. request-Scoped binding n new_stream read (on_stream-Scoped identifier domain)))
