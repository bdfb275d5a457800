-- ===== src/Daemon.antt =====
-- daemon/cmd/wanwatchd: the daemon's state (daemon.go), the kernel and the other things outside of it
-- (kernel.go), and what runs it.
pub mod Gateways
pub mod Routes
pub mod Publish
pub mod Handlers
pub mod Loop
pub mod Process
pub mod Watchdog
pub mod Kernel
pub mod Start
pub mod Probers
pub mod World
use nixos_wanwatch.Prelude.{ℕ, Bool, Option, none, some, List, [], ◌∷◌, map, String, Result}
use nixos_wanwatch.Prelude.Int.{ℤ}
use nixos_wanwatch.Prelude.Dict.{lookup}
use nixos_wanwatch.Prelude.Text.{str_eq}
use nixos_wanwatch.Probe.Family.{Family}
use nixos_wanwatch.Probe.Float.{Floats}
use nixos_wanwatch.Selector
use nixos_wanwatch.Selector.{Active}
use nixos_wanwatch.Decision
use nixos_wanwatch.Decision.{new_group}
use nixos_wanwatch.Rtnl.Event.{Ip}
use nixos_wanwatch.Config.Types as Types
use nixos_wanwatch.Config.Types.{Config}
use nixos_wanwatch.Health.Wans.{Wans, new_wans}
use nixos_wanwatch.Apply.Route.{DefaultRoute}
use nixos_wanwatch.Apply.Rule.{FwmarkRule}
use nixos_wanwatch.State.{State, HookContext}

-- A counter or histogram of the daemon's own in the metrics registry, with its labels.
pub data Metric : Type 0 where
  apply_op_errors_inc : (group op : String) → Metric
  apply_route_errors_inc : (group family : String) → Metric
  apply_route_duration_observe : (group family : String) (started ended : ℕ) → Metric
  state_publications_inc : Metric

-- What the daemon reaches through interfaces, over a world `W`: the `kernel`, the `hookSink`, the
-- State Writer, the context and the clock. An `Option E` is an error, `none` for nil. The result of a
-- flush is only logged, and is left out. The last fields are of the packages net and strconv.
pub record Outside (fl : Floats) (W E : Type 0) : Type 0 where
  pub ensure_rule : FwmarkRule → W → ℕ × Option E × W
  pub if_index : String → W → Result E ℤ × W
  pub write_route : DefaultRoute → W → Option E × W
  pub interface_addrs : String → W → Result E (List Ip) × W
  pub flush_conntrack : Family → Ip → W → Option E × W
  pub notify : HookContext → W → Bool × W
  pub close_hooks : W → W
  pub write_state : State fl → W → Option E × W
  pub cancelled : W → Bool
  pub now : W → ℕ
  pub version : String
  pub is_v4 : List ℕ → Bool
  pub equal_ip : Ip → Ip → Bool
  pub ip_text : List ℕ → String
  pub itoa : ℤ → String

-- The world with what was written to the registry, oldest first.
pub record Env (W : Type 0) : Type 0 where
  pub metrics : List Metric
  pub world : W

pub record GatewayKey : Type 0 where
  pub iface : String
  pub family : Family

-- A missing entry is no known default route; an entry `none` is a scope-link one.
pub record GatewayCache : Type 0 where
  pub entries : List (GatewayKey × Ip)

pub record Daemon (fl : Floats) : Type 0 where
  pub cfg : Config
  pub health : Wans fl
  pub groups : List (String × Decision.Group)
  pub gateways : GatewayCache
  pub vacated : List (String × Active)
  pub started_at : ℕ

abbrev pub new_gateway_cache : GatewayCache
new_gateway_cache = record { entries = [] }

-- `started` is the time when the daemon is built.
unfoldable pub new_daemon : (fl : Floats) → Config → ℕ → Daemon fl
unfolding new_wans new_group
new_daemon fl cfg started = record {
  cfg = cfg;
  health = new_wans fl cfg.wans;
  groups = map (λ e. (e.0, new_group e.1)) cfg.groups;
  gateways = new_gateway_cache;
  vacated = [];
  started_at = started;
}
