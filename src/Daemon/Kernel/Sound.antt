-- ===== src/Daemon/Kernel/Sound.antt =====
-- The daemon over netlink (daemon/cmd/wanwatchd/kernel.go with daemon/internal/apply): which changes of
-- the routing tables it can make.
use nixos_wanwatch.Prelude.{ℕ, ◌≡◌, sym, subst, inl, inr, Bool, List, String, Result, ok, err, All}
use nixos_wanwatch.Prelude.Int.{ℤ}
use nixos_wanwatch.Probe.Float.{Floats}
use nixos_wanwatch.Rtnl.Event.{Ip}
use nixos_wanwatch.Config.Types.{Config}
use nixos_wanwatch.Apply.Route.{
  DefaultRoute, KernelRoute, IsRouteOf, write_default, Wrote, write_default_lem,
}
use nixos_wanwatch.Apply.Conntrack.World.{flush_by_source-Leaves}
use nixos_wanwatch.State.{State, HookContext}
use nixos_wanwatch.Daemon.{Outside, Env, new_daemon}
use nixos_wanwatch.Daemon.World.{Keeps}
use nixos_wanwatch.Daemon.Handlers.World.{IsOwn}
use nixos_wanwatch.Daemon.Kernel.{
  Addr, Interface, Netlink, KernelError, index_of, interface_index, filtered, addrs_of,
  interface_addrs, netlink_kernel,
}
use nixos_wanwatch.Daemon.Loop.{Message, StartupSnapshot, prime, serve}
use nixos_wanwatch.Daemon.Loop.Tables.{serve-Keeps}

-- The kernel route of a default route for a configured Group's table: the table and the interface index
-- are positive and the Family is known, and it goes by the link or by a gateway of its Family.
abbrev pub IsSound : (List ℕ → Bool) → Config → DefaultRoute → KernelRoute → Type 0
IsSound is_v4 cfg d r = IsOwn cfg d × IsRouteOf is_v4 d r

-- What the library does keeps `Q`, but of the replaces of routes only those of a sound one need to.
pub record LibraryKeeps {fl : Floats} {W E Filter : Type 0} (nl : Netlink W E Filter)
    (out : Outside fl W (KernelError E)) (cfg : Config) (Q : W → Type 0) : Type 0 where
  pub replace_keeps :
      (d : DefaultRoute) (r : KernelRoute) (w : W)
      → IsSound out.is_v4 cfg d r
      → Q w
      → Q (nl.replace r w).1
  pub by_name_keeps : (name : String) (w : W) → Q w → Q (nl.interface_by_name name w).1
  pub addrs_keep : (i : Interface) (w : W) → Q w → Q (nl.addrs i w).1
  pub delete_keeps : (ip : Ip) (w : W) → Q w → Q (nl.filtered_delete ip w).1
  pub dump_keeps : (n : ℤ) (f : Filter) (w : W) → Q w → Q (nl.dump_delete n f w).2
  pub state_keeps : (s : State fl) (w : W) → Q w → Q (out.write_state s w).1
  pub notify_keeps : (h : HookContext) (w : W) → Q w → Q (out.notify h w).1
  pub close_keeps : (w : W) → Q w → Q (out.close_hooks w)

module _ {fl : Floats} {W E Filter : Type 0} (nl : Netlink W E Filter)
    (out : Outside fl W (KernelError E)) (cfg : Config) (Q : W → Type 0)
    (k : LibraryKeeps nl out cfg Q) where
  index_of-Keeps : (name : String) (x : Result E Interface × W) → Q x.1 → Q (index_of nl name x).1
  index_of-Keeps name (err e, w) q = q
  index_of-Keeps name (ok i, w) q = q

  filtered-Keeps : (name : String) (x : Result E (List Addr) × W) → Q x.1 → Q (filtered nl name x).1
  filtered-Keeps name (err e, w) q = q
  filtered-Keeps name (ok xs, w) q = q

  addrs_of-Keeps : (name : String) (x : Result E Interface × W) → Q x.1 → Q (addrs_of nl name x).1
  addrs_of-Keeps name (err e, w) q = q
  addrs_of-Keeps name (ok i, w) q = filtered-Keeps name (nl.addrs i w) (k.addrs_keep i w q)

  write_default-Keeps :
      (d : DefaultRoute) (w : W)
      → IsOwn cfg d
      → Q w
      → Q (write_default out.is_v4 nl.replace out.cancelled d w).1
  unfolding Wrote
  write_default-Keeps d w own q = elim (write_default_lem out.is_v4 nl.replace out.cancelled d w) [
    | inl (e, _) ↦ subst Q (sym e) q
    | inr (r, of, e, _) ↦ subst Q (sym e) (k.replace_keeps d r w (own, of) q)
  ]

  netlink_kernel-Keeps : Keeps (netlink_kernel nl out) Q (IsOwn cfg)
  unfolding netlink_kernel interface_index interface_addrs
  netlink_kernel-Keeps = record {
    write_keeps = λ r w own q. write_default-Keeps r w own q;
    index_keeps =
        λ name w q. index_of-Keeps name (nl.interface_by_name name w) (k.by_name_keeps name w q);
    addrs_keep =
        λ name w q. addrs_of-Keeps name (nl.interface_by_name name w) (k.by_name_keeps name w q);
    flush_keeps = λ fam ip w q.
        flush_by_source-Leaves out.is_v4 nl.filtered_delete nl.reply_dst_filter nl.dump_delete
          out.cancelled Q k.delete_keeps k.dump_keeps fam ip w q;
    state_keeps = λ s w q. k.state_keeps s w q;
    notify_keeps = λ h w q. k.notify_keeps h w q;
    close_keeps = λ w q. k.close_keeps w q;
  }

  -- Whatever messages the daemon takes over netlink, from the start of its event loop until it returns,
  -- it changes the routing tables only by replacing default routes in the tables of its configured
  -- Groups, each with a positive table and interface index and a known Family, by the link or by a
  -- gateway of its Family: what such a replace and every other call of the library, the Hooks and the
  -- State file keep true of the world is true at the end, where the Groups of the configuration stand
  -- under their names.
  pub serve-IsSound :
      (started : ℕ) (snapshot : StartupSnapshot) (ms : List (Message fl)) (env : Env W)
      → All (λ e. e.1.name ≡ e.0) cfg.groups
      → Q env.world
      → let kernel = netlink_kernel nl out in
        Q (serve kernel ms (prime kernel snapshot (new_daemon fl cfg started, env))).1.world
  serve-IsSound started snapshot ms env a q =
      serve-Keeps (netlink_kernel nl out) Q cfg netlink_kernel-Keeps started snapshot ms env a q
