-- ===== src/Tests/KernelRuns.antt =====
-- The theorem on the daemon over netlink, at a world that is the list of the routes replaced so far.
use nixos_wanwatch.Prelude.{
  ℕ, ◌≡◌, ◌∙◌, arith, refl, Bool, true, none, some, List, [], ◌∷◌, String, ok, All,
}
use nixos_wanwatch.Prelude.Int.{pos}
use nixos_wanwatch.Prelude.Dict.{lookup}
use nixos_wanwatch.Prelude.Text.{str_eq}
use nixos_wanwatch.Selector
use nixos_wanwatch.Rtnl.Event.{LinkEvent, carrier_up, up}
use nixos_wanwatch.Apply.Route.{KernelRoute}
use nixos_wanwatch.Daemon.{Outside, new_daemon}
use nixos_wanwatch.Daemon.Kernel.{Interface, Netlink, KernelError, netlink_kernel}
use nixos_wanwatch.Daemon.Kernel.Sound.{LibraryKeeps, serve-IsSound}
use nixos_wanwatch.Daemon.Loop.{Message, link_event, probe_result, prime, serve}
use nixos_wanwatch.Tests.HealthRuns.{counts, result}
use nixos_wanwatch.Tests.DaemonRuns.{config}
use nixos_wanwatch.Tests.ApplyRuns.{empty_rule}

abbrev Replaced : Type 0
Replaced = List KernelRoute

abbrev eth0 : Interface
eth0 = record { name = "eth0"; index = pos 3 }

abbrev netlink : Netlink Replaced String ℕ
netlink = record {
  interface_by_name = λ name w. (ok eth0, w);
  addrs = λ i w. (ok [], w);
  is_global_unicast = λ ip. true;
  replace = λ r w. (none, r ∷ w);
  new_rule = empty_rule;
  list_rules = λ f w. (ok [], w);
  add_rule = λ r w. (none, w);
  delete_rule = λ r w. (none, w);
  is_exist = λ e. true;
  filtered_delete = λ ip w. (none, w);
  reply_dst_filter = λ ip. ok 0;
  dump_delete = λ n f w. (0, none, w);
}

-- Its part of the kernel is that of netlink.
abbrev beside : Outside counts Replaced (KernelError String)
beside = record {
  ensure_rule = λ r w. (0, none, w);
  if_index = λ name w. (ok (pos 3), w);
  write_route = λ r w. (none, w);
  interface_addrs = λ name w. (ok [], w);
  flush_conntrack = λ fam ip w. (none, w);
  notify = λ h w. (true, w);
  close_hooks = λ w. w;
  write_state = λ s w. (none, w);
  cancelled = λ w. Bool.false;
  now = λ w. 0;
  version = "1.0";
  is_v4 = λ bytes. true;
  equal_ip = λ a b. Bool.false;
  ip_text = λ bytes. "192.0.2.1";
  itoa = λ n. "0";
}

-- Every route was for the one table.
abbrev InTable : Replaced → Type 0
InTable = All (λ r. r.table ≡ pos 100)

replaced-InTable :
    (name : String) (g : Selector.Group)
    → lookup str_eq name config.groups ≡ some g
    → g.table ≡ pos 100
unfolding lookup
replaced-InTable name g h = ground (arith, h)

library-Keeps : LibraryKeeps netlink beside config InTable
library-Keeps = record {
  replace_keeps = λ d r w ((name, g, own, same), ((t, _), _, _, _)) q.
      (t ∙ same ∙ replaced-InTable name g own, q);
  by_name_keeps = λ name w q. q;
  addrs_keep = λ i w q. q;
  delete_keeps = λ ip w q. q;
  dump_keeps = λ n f w q. q;
  state_keeps = λ s w q. q;
  notify_keeps = λ h w q. q;
  close_keeps = λ w q. q;
}

abbrev plugged : LinkEvent
plugged = record { name = "eth0"; carrier = carrier_up; operstate = up }

-- The primary comes up.
abbrev messages : List (Message counts)
messages = link_event plugged ∷ probe_result (result true) ∷ []

serve-IsSound_example :
    let kernel = netlink_kernel netlink beside in
    InTable
      (serve kernel messages (
        prime kernel
          (record { links = plugged ∷ []; routes = [] })
          (new_daemon counts config 0, record { metrics = []; world = [] }))).1.world
serve-IsSound_example =
    serve-IsSound netlink beside config InTable library-Keeps 0
      (record { links = plugged ∷ []; routes = [] }) messages (record { metrics = []; world = [] })
      (refl, tt) tt
