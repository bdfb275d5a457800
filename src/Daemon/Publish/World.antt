-- ===== src/Daemon/Publish/World.antt =====
-- What publishDecision of daemon/cmd/wanwatchd/daemon.go does to the world outside.
use nixos_wanwatch.Prelude.{ℕ, Option, none, some, List, [], ◌∷◌, String, Result, ok, err}
use nixos_wanwatch.Prelude.Dict.{lookup}
use nixos_wanwatch.Prelude.Text.{str_eq}
use nixos_wanwatch.Probe.Float.{Floats}
use nixos_wanwatch.Selector
use nixos_wanwatch.Selector.{Active}
use nixos_wanwatch.Decision.{Commit, Event, event}
use nixos_wanwatch.Rtnl.Event.{Ip}
use nixos_wanwatch.Config.Types as Types
use nixos_wanwatch.Apply.Route.{DefaultRoute}
use nixos_wanwatch.Daemon.{Metric, Outside, Env, Daemon}
use nixos_wanwatch.Daemon.Publish.{
  ip_family, flushed, flush_each, flush_addresses, flush_wan, flush_vacated_conntrack, state_of,
  published, write_state_snapshot, hook_context, notify_hooks, flush_target, vacate, flush_some,
  notify_some, publish_commit, publish_decision,
}
use nixos_wanwatch.Daemon.World.{Keeps}

module _ {fl : Floats} {W E : Type 0} {out : Outside fl W E} {Q : W → Type 0}
    {May : DefaultRoute → Type 0} (k : Keeps out Q May) where
  flushed-Keeps :
      (group : String) (ms : List Metric) (x : Option E × W)
      → Q x.1
      → Q (flushed out group ms x).world
  flushed-Keeps group ms (none, w) q = q
  flushed-Keeps group ms (some e, w) q = q

  flush_each-Keeps :
      (group : String) (ips : List Ip) (env : Env W)
      → Q env.world
      → Q (flush_each out group ips env).world
  unfolding flush_each
  flush_each-Keeps group [] env q = q
  flush_each-Keeps group (ip ∷ ips) env q =
      let x = out.flush_conntrack (ip_family out ip) ip env.world in
      flush_each-Keeps group ips (flushed out group env.metrics x)
        (flushed-Keeps group env.metrics x (k.flush_keeps (ip_family out ip) ip env.world q))

  flush_addresses-Keeps :
      (group : String) (ms : List Metric) (x : Result E (List Ip) × W)
      → Q x.1
      → Q (flush_addresses out group ms x).world
  unfolding flush_addresses
  flush_addresses-Keeps group ms (err e, w) q = q
  flush_addresses-Keeps group ms (ok ips, w) q =
      flush_each-Keeps group ips (record { metrics = ms; world = w }) q

  flush_wan-Keeps :
      (group : String) (o : Option Types.Wan) (env : Env W)
      → Q env.world
      → Q (flush_wan out group o env).world
  unfolding flush_wan
  flush_wan-Keeps group none env q = q
  flush_wan-Keeps group (some wan) env q =
      flush_addresses-Keeps group env.metrics (out.interface_addrs wan.interface env.world)
        (k.addrs_keep wan.interface env.world q)

  flush_some-Keeps :
      (d : Daemon fl) (g : Selector.Group) (o : Option Active) (env : Env W)
      → Q env.world
      → Q (flush_some out d g o env).world
  unfolding flush_vacated_conntrack
  flush_some-Keeps d g none env q = q
  flush_some-Keeps d g (some old) env q =
      flush_wan-Keeps g.name (lookup str_eq old.wan d.cfg.wans) env q

  published-Keeps : (ms : List Metric) (x : Option E × W) → Q x.1 → Q (published out ms x).world
  published-Keeps ms (none, w) q = q
  published-Keeps ms (some e, w) q = q

  pub write_state_snapshot-Keeps :
      (at : Option ℕ) (d : Daemon fl) (env : Env W)
      → Q env.world
      → Q (write_state_snapshot out at d env).world
  unfolding write_state_snapshot
  write_state_snapshot-Keeps at d env q =
      published-Keeps env.metrics (out.write_state (state_of out at d) env.world)
        (k.state_keeps (state_of out at d) env.world q)

  notify_some-Keeps :
      (d : Daemon fl) (g : Selector.Group) (o : Option Event) (c : Commit) (env : Env W)
      → Q env.world
      → Q (notify_some out d g o c env).world
  unfolding notify_hooks
  notify_some-Keeps d g none c env q = q
  notify_some-Keeps d g (some e) c env q = k.notify_keeps (hook_context out d g e c) env.world q

  -- A publication writes no route.
  pub publish_decision-Keeps :
      (g : Selector.Group) (o : Option Commit) (d : Daemon fl) (env : Env W)
      → Q env.world
      → Q (publish_decision out g o d env).1.world
  unfolding publish_decision publish_commit
  publish_decision-Keeps g none d env q = q
  publish_decision-Keeps g (some c) d env q =
      let d' = record d { vacated = vacate (event c) g.name c d.vacated } in
      let flushes =
        flush_some out d' g (flush_target (event c) c (lookup str_eq g.name d.vacated)) env in
      notify_some-Keeps d' g (event c) c (write_state_snapshot out (some c.at) d' flushes) (
        write_state_snapshot-Keeps (some c.at) d' flushes
          (flush_some-Keeps d' g (flush_target (event c) c (lookup str_eq g.name d.vacated)) env q))
