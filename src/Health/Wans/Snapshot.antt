-- ===== src/Health/Wans/Snapshot.antt =====
-- Snapshot of daemon/internal/health/health.go, with the texts that it shows (probe/icmp.go,
-- rtnl/event.go). `itoa` prints an integer.
use Prim.Native.String.{◌++◌}
use nixos_wanwatch.Prelude.{none, List, map, String}
use nixos_wanwatch.Prelude.Int.{ℤ}
use nixos_wanwatch.Probe.Family.{Family, v4, v6, other}
use nixos_wanwatch.Probe.Float.{Floats}
use nixos_wanwatch.Rtnl.Event.{
  Carrier, carrier_unknown, carrier_down, carrier_up, Operstate, unknown, not_present, down,
  lower_layer_down, up, testing, dormant, other,
}
use nixos_wanwatch.State
use nixos_wanwatch.State.{FamilyHealth}
use nixos_wanwatch.Health.Wans.{seconds, FamilyState, WanState, Wans, is_healthy, known_operstate}

unfoldable pub family_text : (ℤ → String) → Family → String
family_text itoa v4 = "v4"
family_text itoa v6 = "v6"
family_text itoa (other n) = "Family(" ++ itoa n ++ ")"

abbrev pub carrier_text : Carrier → String
carrier_text carrier_up = "up"
carrier_text carrier_down = "down"
carrier_text carrier_unknown = "unknown"

unfoldable pub operstate_text : (ℤ → String) → Operstate → String
operstate_text itoa unknown = "unknown"
operstate_text itoa not_present = "notpresent"
operstate_text itoa down = "down"
operstate_text itoa lower_layer_down = "lowerlayerdown"
operstate_text itoa testing = "testing"
operstate_text itoa dormant = "dormant"
operstate_text itoa up = "up"
operstate_text itoa (other n) = "operstate(" ++ itoa n ++ ")"

module _ (fl : Floats) (itoa : ℤ → String) where
  pub family_health : FamilyState fl → FamilyHealth fl
  family_health fs = record {
    healthy = fs.healthy;
    rtt_seconds = seconds fl fs.stats.rtt_micros;
    jitter_seconds = seconds fl fs.stats.jitter;
    loss_ratio = fs.stats.loss_ratio;
    targets = fs.targets;
  }

  pub wan_snapshot : WanState fl → State.Wan fl
  unfolding family_text operstate_text is_healthy
  wan_snapshot ws = record {
    interface = ws.cfg.interface;
    carrier = carrier_text ws.carrier;
    operstate = operstate_text itoa (known_operstate ws.operstate);
    healthy = is_healthy fl ws;
    gateways = record { v4_gateway = none; v6_gateway = none };
    families = map (λ e. (family_text itoa e.0, family_health e.1)) ws.families;
  }

  unfoldable pub snapshot : Wans fl → List (String × State.Wan fl)
  unfolding wan_snapshot
  snapshot w = map (λ e. (e.0, wan_snapshot e.1)) w.by_name
