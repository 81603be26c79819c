-- ===== src/System/Authorized.antt =====
-- The server over libvirt: what a request may cause there.
use libvirt_rest_api.Base.{
  ℕ, ◌≡◌, ◌≤◌, refl, sym, ap, ◌∙◌, List, [], ◌∷◌, ◌++◌, All, All-append, append_assoc, append-nil,
  some, arith,
}
use libvirt_rest_api.Service.{
  Call, ready, host, host_stats, list_domains, subscribe, cancel, domain, domain_stats, autostart,
  list_snapshots, domain_xml, viewer, screenshot, start, pause, resume, reset, stop,
  domain_interfaces, set_autostart, create_snapshot, revert_snapshot, delete_snapshot, shutdown,
  reboot,
}
use libvirt_rest_api.Api.Http.{Request, Handler, State, final}
use libvirt_rest_api.Api.Auth.{Scope, Server, rank}
use libvirt_rest_api.Api.Auth.Guard.{Open, authorization}
use libvirt_rest_api.Api.Decode.{Json}
use libvirt_rest_api.Api.Routes.Table.{new_server}
use libvirt_rest_api.Api.Keeps.Valid.{call_scope}
use libvirt_rest_api.Api.Safety.{Granted, server_calls_authorized}
use libvirt_rest_api.Hypervisor.{Op, Binding}
use libvirt_rest_api.Hypervisor.Within.{Within, Within-pure, Asked}
use libvirt_rest_api.Hypervisor.Scoped.{op_scope, At}
use libvirt_rest_api.Hypervisor.Scoped.Reads.{
  ready_read-Scoped, host_read-Scoped, host_stats_read-Scoped, list_domains_read-Scoped,
  domain_read-Scoped, domain_interfaces_read-Scoped, autostart_read-Scoped,
}
use libvirt_rest_api.Hypervisor.Scoped.Details.{
  domain_stats_read-Scoped, domain_xml_read-Scoped, viewer_read-Scoped, screenshot_read-Scoped,
}
use libvirt_rest_api.Hypervisor.Scoped.Power.{
  start-Scoped, shutdown-Scoped, reboot-Scoped, pause-Scoped, resume-Scoped, reset-Scoped,
  stop-Scoped, set_autostart-Scoped,
}
use libvirt_rest_api.Hypervisor.Scoped.Snapshots.{
  list_snapshots_read-Scoped, create_snapshot-Scoped, revert_snapshot-Scoped,
  delete_snapshot-Scoped,
}
use libvirt_rest_api.System.{Tools, perform, operations_after, libvirt_service}

one_le_one : 1 ≤ 1
one_le_one = omega arith

two_le_two : 2 ≤ 2
two_le_two = omega arith

one_le_three : 1 ≤ 3
one_le_three = omega arith

two_le_three : 2 ≤ 3
two_le_three = omega arith

three_le_three : 3 ≤ 3
three_le_three = omega arith

module _ (binding : Binding) (tools : Tools) where
  -- Each method asks for no operation beyond the scope of its call.
  pub perform-Scoped :
      (call : Call) → Within (At (rank (call_scope call))) (perform binding tools call)
  unfolding perform
  perform-Scoped ready = ready_read-Scoped binding 0
  perform-Scoped host = host_read-Scoped binding 1 one_le_one
  perform-Scoped host_stats = host_stats_read-Scoped binding 1 one_le_one
  perform-Scoped (list_domains filter) = list_domains_read-Scoped binding 1 one_le_one filter
  perform-Scoped (subscribe cursor) = Within-pure _
  perform-Scoped cancel = Within-pure _
  perform-Scoped (domain i) = domain_read-Scoped binding 1 one_le_one i
  perform-Scoped (domain_stats i) = domain_stats_read-Scoped binding 1 one_le_one tools.targets i
  perform-Scoped (autostart i) = autostart_read-Scoped binding 1 one_le_one i
  perform-Scoped (list_snapshots i) =
      list_snapshots_read-Scoped binding 1 one_le_one tools.snapshots tools.sort i
  perform-Scoped (domain_xml i) = domain_xml_read-Scoped binding 1 one_le_one i
  perform-Scoped (viewer i) = viewer_read-Scoped binding 1 one_le_one tools.graphics i
  perform-Scoped (screenshot i) = screenshot_read-Scoped binding 1 one_le_one i
  perform-Scoped (start i) = start-Scoped binding 2 two_le_two i
  perform-Scoped (pause i) = pause-Scoped binding 2 two_le_two i
  perform-Scoped (resume i) = resume-Scoped binding 2 two_le_two i
  perform-Scoped (reset i) = reset-Scoped binding 3 two_le_three three_le_three i
  perform-Scoped (stop i) = stop-Scoped binding 3 two_le_three three_le_three i
  perform-Scoped (domain_interfaces i source) =
      domain_interfaces_read-Scoped binding 1 one_le_one i source
  perform-Scoped (set_autostart i enabled) =
      set_autostart-Scoped binding 3 two_le_three three_le_three i enabled
  perform-Scoped (create_snapshot i r) =
      create_snapshot-Scoped binding 3 one_le_three three_le_three tools.snapshots i r
  perform-Scoped (revert_snapshot i name r) =
      revert_snapshot-Scoped binding 3 one_le_three three_le_three i name r
  perform-Scoped (delete_snapshot i name children) =
      delete_snapshot-Scoped binding 3 one_le_three three_le_three i name children
  perform-Scoped (shutdown i mode) = shutdown-Scoped binding 2 two_le_two i mode
  perform-Scoped (reboot i mode) = reboot-Scoped binding 2 two_le_two i mode

  operations_after-append :
      (first next : List Call) (ops : List Op)
      → operations_after binding tools (first ++ next) ops
        ≡ operations_after binding tools next (operations_after binding tools first ops)
  unfolding operations_after
  operations_after-append [] next ops = refl
  operations_after-append (call ∷ first) next ops =
      operations_after-append first next (perform binding tools call ops).1

  module _ (Warranted : Call → Type 0) (Permitted : Op → Type 0)
      (covered : (call : Call)
        → Warranted call
        → (op : Op) → At (rank (call_scope call)) op
        → Permitted op) where
    All-covered :
        (call : Call)
        → Warranted call
        → (ops : List Op) → All (At (rank (call_scope call))) ops
        → All Permitted ops
    All-covered call w [] h = tt
    All-covered call w (op ∷ ops) h = (covered call w op h.0, All-covered call w ops h.1)

    operations_after-Asked :
        (calls : List Call) (old : List Op)
        → All Warranted calls
        → Asked Permitted old (operations_after binding tools calls old)
    unfolding operations_after
    operations_after-Asked [] old h = record {
      made = [];
      history = sym (append-nil old);
      allowed = tt;
    }
    operations_after-Asked (call ∷ calls) old h =
        let first = (perform-Scoped call).within old in
        let rest = operations_after-Asked calls (perform binding tools call old).1 h.1 in
        record {
          made = first.made ++ rest.made;
          history =
              rest.history
              ∙ (ap (λ ops. ops ++ rest.made) first.history
                  ∙ append_assoc old first.made rest.made);
          allowed =
              All-append Permitted first.made rest.made
                (All-covered call h.0 first.made first.allowed) rest.allowed;
        }

-- The request's token grants a scope that covers the operation, or the scope is public, or the
-- server has no credentials.
pub record Covered {B : Type 0} (s : Server) (r : Request B) (op : Op) : Type 0 where
  pub scope : Scope
  pub granted : Open s scope (authorization r)
  pub enough : rank (op_scope op) ≤ rank scope

module _ (binding : Binding) (tools : Tools) {B : Type 0} (json : Json B) (limit : ℕ → B → B)
    (s : Server) (serve : Handler B)
    (built : new_server (libvirt_service binding tools) json limit s ≡ some serve) (r : Request B)
    (st : State) where
  -- Whatever libvirt answers, each operation that a request causes there is one for which the
  -- request's token grants enough: to change the power of a domain the scope for control, to stop
  -- or to reset one, to set its autostart or to change its snapshots that of an administrator, and
  -- to look at one that for reading; unless the server has no credentials.
  pub libvirt_operations_authorized :
      Asked
        (Covered s r)
        (operations_after binding tools st.calls [])
        (operations_after binding tools (final (serve r st)).calls [])
  libvirt_operations_authorized =
      let since =
        server_calls_authorized (libvirt_service binding tools) json limit s serve built r st in
      let asked =
        operations_after-Asked binding tools (Granted s r) (Covered s r)
          (λ call g op h. record { scope = call_scope call; granted = g; enough = h }) since.made
          (operations_after binding tools st.calls []) since.allowed in
      record {
        made = asked.made;
        history =
            ap (λ calls. operations_after binding tools calls []) since.history
            ∙ (operations_after-append binding tools st.calls since.made [] ∙ asked.history);
        allowed = asked.allowed;
      }
