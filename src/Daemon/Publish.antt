-- ===== src/Daemon/Publish.antt =====
-- publishDecision of daemon/cmd/wanwatchd/daemon.go and what it calls: the flush of conntrack entries,
-- the State snapshot and the Hooks.
pub mod World
use nixos_wanwatch.Prelude.{
  ℕ, Option, none, some, List, [], ◌∷◌, ◌++◌, map, String, Result, ok, err, if◌then◌else◌,
}
use nixos_wanwatch.Prelude.Int.{ℤ, pos}
use nixos_wanwatch.Prelude.Dict.{lookup, insert, delete}
use nixos_wanwatch.Prelude.Text.{str_eq}
use nixos_wanwatch.Probe.Family.{Family, v4, v6}
use nixos_wanwatch.Probe.Float.{Floats}
use nixos_wanwatch.Selector
use nixos_wanwatch.Selector.{Active}
use nixos_wanwatch.Decision
use nixos_wanwatch.Decision.{Commit, Event, up, down, switch, event}
use nixos_wanwatch.Rtnl.Event.{Ip}
use nixos_wanwatch.Config.Types as Types
use nixos_wanwatch.Config.Types.{families}
use nixos_wanwatch.Health.Wans.Snapshot
use nixos_wanwatch.Health.Wans.Snapshot.{family_text}
use nixos_wanwatch.State
use nixos_wanwatch.State.{HookContext}
use nixos_wanwatch.Daemon.{
  Metric, apply_op_errors_inc, state_publications_inc, Outside, Env, GatewayCache, Daemon,
}
use nixos_wanwatch.Daemon.Gateways.{address, gateway_string}

abbrev interface_of : Option Types.Wan → String
interface_of none = ""
interface_of (some wan) = wan.interface

unfoldable pub interface_for : List (String × Types.Wan) → Active → String
interface_for wans a = if a.has then interface_of (lookup str_eq a.wan wans) else ""

abbrev families_of : (ℤ → String) → Option Types.Wan → List String
families_of itoa none = []
families_of itoa (some wan) = map (family_text itoa) (families wan.probe.targets)

unfoldable pub probed_families_for : (ℤ → String) → List (String × Types.Wan) → Active → List String
unfolding family_text
probed_families_for itoa wans a = if a.has then families_of itoa (lookup str_eq a.wan wans) else []

-- The WAN whose entries `publishDecision` flushes, given what the Group's last `down` vacated.
abbrev moved_from : Option Active → Commit → Option Active
moved_from none c = none
moved_from (some old) c = if str_eq old.wan c.new.wan then none else some old

unfoldable pub flush_target : Option Event → Commit → Option Active → Option Active
flush_target (some switch) c v = some c.old
flush_target (some down) c v = none
flush_target (some up) c v = moved_from v c
flush_target none c v = none

-- What `publishDecision` leaves of the vacated WANs.
unfoldable pub vacate :
    Option Event → String → Commit → List (String × Active) → List (String × Active)
vacate (some down) name c v = insert str_eq name c.old v
vacate (some up) name c v = delete str_eq name v
vacate (some switch) name c v = v
vacate none name c v = v

module _ {fl : Floats} {W E : Type 0} (out : Outside fl W E) where
  -- IPv4 unless `To4` says otherwise; nil is not IPv4.
  abbrev pub ip_family : Ip → Family
  ip_family none = v6
  ip_family (some bytes) = if out.is_v4 bytes then v4 else v6

  abbrev flushed : String → List Metric → Option E × W → Env W
  flushed group ms (none, w) = record { metrics = ms; world = w }
  flushed group ms (some e, w) = record {
    metrics = ms ++ apply_op_errors_inc group "conntrack_flush" ∷ [];
    world = w;
  }

  pub flush_each : String → List Ip → Env W → Env W
  flush_each group [] env = env
  flush_each group (ip ∷ ips) env =
      flush_each group ips
        (flushed group env.metrics (out.flush_conntrack (ip_family ip) ip env.world))

  flush_addresses : String → List Metric → Result E (List Ip) × W → Env W
  unfolding flush_each
  flush_addresses group ms (err e, w) = record {
    metrics = ms ++ apply_op_errors_inc group "conntrack_flush" ∷ [];
    world = w;
  }
  flush_addresses group ms (ok ips, w) = flush_each group ips (record { metrics = ms; world = w })

  flush_wan : String → Option Types.Wan → Env W → Env W
  unfolding flush_addresses
  flush_wan group none env = env
  flush_wan group (some wan) env =
      flush_addresses group env.metrics (out.interface_addrs wan.interface env.world)

  unfoldable pub flush_vacated_conntrack : Daemon fl → Selector.Group → Active → Env W → Env W
  unfolding flush_wan
  flush_vacated_conntrack d g old env = flush_wan g.name (lookup str_eq old.wan d.cfg.wans) env

  with_gateways : GatewayCache → State.Wan fl → State.Wan fl
  unfolding address
  with_gateways gateways wan = record wan {
    gateways = record {
      v4_gateway = address out.ip_text wan.interface v4 gateways;
      v6_gateway = address out.ip_text wan.interface v6 gateways;
    };
  }

  -- The snapshot; the Writer sets the schema.
  unfoldable pub state_of : Option ℕ → Daemon fl → State.State fl
  unfolding with_gateways Decision.snapshot Snapshot.snapshot
  state_of at d = record {
    schema = pos 0;
    version = out.version;
    started_at = d.started_at;
    updated_at = at;
    wans = map (λ e. (e.0, with_gateways d.gateways e.1)) (Snapshot.snapshot fl out.itoa d.health);
    groups = map (λ e. (e.0, Decision.snapshot e.1)) d.groups;
  }

  abbrev published : List Metric → Option E × W → Env W
  published ms (none, w) = record { metrics = ms ++ state_publications_inc ∷ []; world = w }
  published ms (some e, w) = record { metrics = ms; world = w }

  unfoldable pub write_state_snapshot : Option ℕ → Daemon fl → Env W → Env W
  unfolding state_of
  write_state_snapshot at d env = published env.metrics (out.write_state (state_of at d) env.world)

  unfoldable pub hook_context : Daemon fl → Selector.Group → Event → Commit → HookContext
  unfolding interface_for probed_families_for gateway_string
  hook_context d g e c =
      let old = interface_for d.cfg.wans c.old in
      let new = interface_for d.cfg.wans c.new in
      record {
        event = e;
        group = g.name;
        wan_old = c.old.wan;
        wan_new = c.new.wan;
        interface_old = old;
        interface_new = new;
        gateway_v4_old = gateway_string out.ip_text old v4 d.gateways;
        gateway_v4_new = gateway_string out.ip_text new v4 d.gateways;
        gateway_v6_old = gateway_string out.ip_text old v6 d.gateways;
        gateway_v6_new = gateway_string out.ip_text new v6 d.gateways;
        families_old = probed_families_for out.itoa d.cfg.wans c.old;
        families_new = probed_families_for out.itoa d.cfg.wans c.new;
        table = g.table;
        mark = g.mark;
        timestamp = some c.at;
      }

  unfoldable pub notify_hooks : Daemon fl → Selector.Group → Event → Commit → Env W → Env W
  unfolding hook_context
  notify_hooks d g e c env = record env { world = (out.notify (hook_context d g e c) env.world).1 }

  abbrev pub flush_some : Daemon fl → Selector.Group → Option Active → Env W → Env W
  flush_some d g none env = env
  flush_some d g (some old) env = flush_vacated_conntrack d g old env

  abbrev pub notify_some : Daemon fl → Selector.Group → Option Event → Commit → Env W → Env W
  notify_some d g none c env = env
  notify_some d g (some e) c env = notify_hooks d g e c env

  publish_commit : Selector.Group → Commit → Daemon fl → Env W → Daemon fl × Env W
  unfolding event flush_target vacate flush_vacated_conntrack write_state_snapshot notify_hooks
  publish_commit g c d env =
      let d' = record d { vacated = vacate (event c) g.name c d.vacated } in
      (
        d',
        notify_some d' g (event c) c (
            write_state_snapshot (some c.at) d'
              (flush_some d' g (flush_target (event c) c (lookup str_eq g.name d.vacated)) env)),
      )

  unfoldable pub publish_decision :
      Selector.Group → Option Commit → Daemon fl → Env W → Daemon fl × Env W
  unfolding publish_commit
  publish_decision g none d env = (d, env)
  publish_decision g (some c) d env = publish_commit g c d env
