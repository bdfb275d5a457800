-- ===== src/Tests/DaemonRuns.antt =====
-- The theorems on the daemon, at two WANs and one Group.
use nixos_wanwatch.Prelude.{
  ℕ, ltb, ◌+◌, ◌≡◌, refl, Bool, true, false, Option, none, some, List, [], ◌∷◌, String, ok,
  if◌then◌else◌, ◌&&◌,
}
use nixos_wanwatch.Prelude.Int.{pos}
use nixos_wanwatch.Prelude.Dict.{lookup, insert}
use nixos_wanwatch.Prelude.Text.{str_eq}
use nixos_wanwatch.Probe.Family.{v4, eq_family}
use nixos_wanwatch.Selector
use nixos_wanwatch.Selector.{Member, MemberHealth}
use nixos_wanwatch.Decision
use nixos_wanwatch.Decision.{recompute}
use nixos_wanwatch.Daemon.Publish.{publish_decision}
use nixos_wanwatch.Decision.Traces.{Call, recompute_call, answer}
use nixos_wanwatch.Config.Types as Types
use nixos_wanwatch.Config.Types.{Config}
use nixos_wanwatch.Rtnl.Event.{carrier_down, down, LinkEvent, RouteEvent, add}
use nixos_wanwatch.Daemon.{Outside, Env, Daemon, new_daemon}
use nixos_wanwatch.Daemon.Gateways.{get}
use nixos_wanwatch.Daemon.Routes.{group_apply}
use nixos_wanwatch.Daemon.Handlers.{ask, handle_route_event}
use nixos_wanwatch.Daemon.Handlers.Kept.{IsKept, ask-IsKept}
use nixos_wanwatch.Daemon.Handlers.Flushes.{Effects, ask-Effects}
use nixos_wanwatch.Daemon.Handlers.Frame.{handle_route_event-get}
use nixos_wanwatch.Daemon.Loop.{link_event, serve, prime}
use nixos_wanwatch.Daemon.Loop.Kept.{new_daemon-IsKept, serve-IsKept}
use nixos_wanwatch.Tests.HealthRuns.{counts}

-- The world counts the calls, and `limit` cancels it.
abbrev pub outside : ℕ → Outside counts ℕ String
outside limit = record {
  ensure_rule = λ r w. (0, none, w + 1);
  if_index = λ name w. (ok (pos 3), w + 1);
  write_route = λ r w. (none, w + 1);
  interface_addrs = λ name w. (ok (some (192 ∷ 0 ∷ 2 ∷ 1 ∷ []) ∷ []), w + 1);
  flush_conntrack = λ fam ip w. (none, w + 1);
  notify = λ h w. (true, w + 1);
  close_hooks = λ w. w + 1;
  write_state = λ s w. (none, w + 1);
  cancelled = λ w. ltb limit w;
  now = λ w. w;
  version = "1.0";
  is_v4 = λ bytes. true;
  equal_ip = λ a b. false;
  ip_text = λ bytes. "192.0.2.1";
  itoa = λ n. "0";
}

abbrev pub never : Outside counts ℕ String
never = record (outside 0) { cancelled = λ w. false }

abbrev wan : String → String → Types.Wan
wan name iface = record {
  name = name;
  interface = iface;
  point_to_point = true;
  probe = record {
    method = "icmp";
    targets = record { v4_targets = "192.0.2.9" ∷ []; v6_targets = [] };
    interval_ms = pos 500;
    timeout_ms = pos 400;
    window_size = pos 2;
    thresholds = record {
      loss_pct_down = pos 30;
      loss_pct_up = pos 10;
      rtt_ms_down = pos 500;
      rtt_ms_up = pos 250;
    };
    hysteresis = record { consecutive_down = pos 2; consecutive_up = pos 3 };
    family_health_policy = "all";
  };
}

abbrev primary : Member
primary = record { wan = "primary"; priority = pos 1 }

abbrev backup : Member
backup = record { wan = "backup"; priority = pos 2 }

abbrev home : Selector.Group
home = record {
  name = "home";
  strategy = "primary-backup";
  table = pos 100;
  mark = pos 7;
  members = ("primary", primary) ∷ ("backup", backup) ∷ [];
}

abbrev pub config : Config
config = record {
  schema = pos 1;
  global = record {
    state_path = "/run/wanwatch/state.json";
    hooks_dir = "/etc/wanwatch/hooks";
    metrics_socket = "/run/wanwatch/metrics.sock";
    log_level = "info";
    hook_timeout_ms = pos 5000;
  };
  wans = ("primary", wan "primary" "eth0") ∷ ("backup", wan "backup" "eth1") ∷ [];
  groups = ("home", home) ∷ [];
}

abbrev fresh : Daemon counts
fresh = new_daemon counts config 0

abbrev start : Env ℕ
start = record { metrics = []; world = 0 }

abbrev members : Bool → Bool → List MemberHealth
members p b =
    record { member = primary; healthy = p } ∷ record { member = backup; healthy = b } ∷ []

-- Health has changed.
abbrev recomputed : Bool → Bool → Call
recomputed p b = recompute_call (members p b) "health"

-- The primary came up and went down again.
abbrev was_up : Daemon counts × Env ℕ
was_up = ask never "home" home (recomputed true false) (fresh, start)

abbrev went_down : Daemon counts × Env ℕ
went_down = ask never "home" home (recomputed false false) was_up

went_down-IsKept : IsKept went_down.0
went_down-IsKept = ask-IsKept never "home" home (recomputed false false) was_up.0 was_up.1 refl (
    ask-IsKept never "home" home (recomputed true false) fresh start refl
      (new_daemon-IsKept counts config 0 (refl, tt)))

abbrev in_map : Option Decision.Group → Decision.Group
in_map (some gr) = gr
in_map none = Decision.new_group home

abbrev vacant : Decision.Group
vacant = in_map (lookup str_eq "home" went_down.0.groups)

-- The backup takes over from the vacated primary.
ask-Effects_example :
    Effects never home vacant went_down.0
      (answer
        (group_apply never went_down.0 vacant.cfg)
        (λ e. never.now e.world)
        (recomputed false true)
        vacant
        went_down.1)
      (ask never "home" home (recomputed false true) went_down)
unfolding ask new_daemon lookup answer recompute publish_decision group_apply Selector.select
    Selector.primary_backup Selector.preferred insert
ask-Effects_example =
    ask-Effects never home vacant (recomputed false true) went_down.0 went_down.1 refl
      went_down-IsKept

-- The primary's carrier goes down.
abbrev unplugged : LinkEvent
unplugged = record { name = "eth0"; carrier = carrier_down; operstate = down }

serve-IsKept_example :
    IsKept
      (serve never (link_event unplugged ∷ []) (
        prime never
          (record { links = unplugged ∷ []; routes = [] })
          (new_daemon counts config 0, start))).0
serve-IsKept_example =
    serve-IsKept never config 0 (record { links = unplugged ∷ []; routes = [] })
      (link_event unplugged ∷ []) start (refl, tt)

abbrev learned : RouteEvent
learned = record { op = add; iface = "eth1"; family = v4; gateway = some (192 ∷ 0 ∷ 2 ∷ 7 ∷ []) }

handle_route_event-get_example :
    let (d', _) = handle_route_event never learned (fresh, start) in
    (get "eth1" v4 d'.gateways ≡ (
      if str_eq "eth1" "eth1" && eq_family v4 v4
      then some learned.gateway
      else get "eth1" v4 fresh.gateways))
    × (d'.health ≡ fresh.health)
handle_route_event-get_example = handle_route_event-get never learned "eth1" v4 fresh start
