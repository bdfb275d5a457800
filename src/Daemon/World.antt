-- ===== src/Daemon/World.antt =====
-- What daemon/cmd/wanwatchd/daemon.go does to the world outside of the daemon.
use nixos_wanwatch.Prelude.{String}
use nixos_wanwatch.Probe.Family.{Family}
use nixos_wanwatch.Probe.Float.{Floats}
use nixos_wanwatch.Rtnl.Event.{Ip}
use nixos_wanwatch.Apply.Route.{DefaultRoute}
use nixos_wanwatch.State.{State, HookContext}
use nixos_wanwatch.Daemon.{Outside}

-- What is outside keeps `Q`, and of the writes of routes those of a `May` route do.
pub record Keeps {fl : Floats} {W E : Type 0} (out : Outside fl W E) (Q : W → Type 0)
    (May : DefaultRoute → Type 0) : Type 0 where
  pub write_keeps : (r : DefaultRoute) (w : W) → May r → Q w → Q (out.write_route r w).1
  pub index_keeps : (name : String) (w : W) → Q w → Q (out.if_index name w).1
  pub addrs_keep : (name : String) (w : W) → Q w → Q (out.interface_addrs name w).1
  pub flush_keeps : (fam : Family) (ip : Ip) (w : W) → Q w → Q (out.flush_conntrack fam ip w).1
  pub state_keeps : (s : State fl) (w : W) → Q w → Q (out.write_state s w).1
  pub notify_keeps : (h : HookContext) (w : W) → Q w → Q (out.notify h w).1
  pub close_keeps : (w : W) → Q w → Q (out.close_hooks w)
