-- ===== src/Tests/HealthRuns.antt =====
-- The theorems on Health, at a WAN with one probed Family.
use nixos_wanwatch.Prelude.{
  ℕ, ◌+◌, ◌-◌, ◌*◌, ◌/◌, ◌≡◌, ◌↔◌, ◌⊎◌, ◌++◌, refl, Bool, true, false, not, none, some, [], ◌∷◌,
  map, String, arith, In, replicate,
}
use nixos_wanwatch.Prelude.Int.{pos}
use nixos_wanwatch.Prelude.Dict.{lookup}
use nixos_wanwatch.Probe.Family.{v4}
use nixos_wanwatch.Probe.Float.{Floats}
use nixos_wanwatch.Probe.Aggregate.{FamilyStats}
use nixos_wanwatch.Config.Types as Types
use nixos_wanwatch.Rtnl.Event.{carrier_up, carrier_down, up, down, LinkEvent}
use nixos_wanwatch.Health.Hysteresis.{Hysteresis, seed}
use nixos_wanwatch.Health.Hysteresis.Runs.{IsValid, limit}
use nixos_wanwatch.Health.Hysteresis.Traces.{observe_all, flaps_are_suppressed, full_run_decides}
use nixos_wanwatch.Health.Wans.{FamilyState, WanState, Wans, ProbeResult, probe, healthy_wan}
use nixos_wanwatch.Health.Wans.Links.{link}
use nixos_wanwatch.Health.Wans.ProbeLaws.{Names, probe_flips}
use nixos_wanwatch.Health.Wans.{is_healthy}
use nixos_wanwatch.Prelude.{◌≢◌}
use nixos_wanwatch.Health.Wans.LinkLaws.{Updated, link-Flips}

abbrev pub counts : Floats
counts = record {
  Float = ℕ;
  of_u64 = λ n. n;
  add_float = λ a b. a + b;
  sub_float = λ a b. a - b;
  mul_float = λ a b. a * b;
  div_float = λ a b. a / b;
  sqrt = λ a. a;
  to_u64 = λ a. a;
  nearest = λ n d. n / d;
}

-- Three good cycles make it healthy, two bad ones unhealthy.
abbrev cold : Hysteresis
cold = record {
  healthy_count = pos 0;
  unhealthy_count = pos 0;
  healthy = false;
  consecutive_up = pos 3;
  consecutive_down = pos 2;
}

cold-IsValid : IsValid 3 2 cold
cold-IsValid = record {
  ups = refl;
  downs = refl;
  up_pos = omega arith;
  down_pos = omega arith;
  up_int = omega arith;
  down_int = omega arith;
  counts = refl;
  short = omega arith;
}

flaps_example : (observe_all (seed cold true) (false ∷ true ∷ false ∷ [])).healthy ≡ true
flaps_example = flaps_are_suppressed true (false ∷ true ∷ false ∷ []) cold-IsValid (omega arith)

full_run_example :
    (observe_all cold (false ∷ true ∷ [] ++ replicate (limit 3 2 false) true)).healthy ≡ true
full_run_example = full_run_decides true (false ∷ true ∷ []) cold-IsValid

abbrev thresholds : Types.Thresholds
thresholds = record {
  loss_pct_down = pos 30;
  loss_pct_up = pos 10;
  rtt_ms_down = pos 500;
  rtt_ms_up = pos 250;
}

abbrev hysteresis_of_config : Types.Hysteresis
hysteresis_of_config = record { consecutive_down = pos 2; consecutive_up = pos 3 }

abbrev stats_of : Bool → FamilyStats counts
stats_of filled = record {
  rtt_micros = some 20_000;
  jitter = none;
  exact_loss = some (record { num = 0; den = 4 });
  loss_ratio = some 0;
  window_filled = filled;
  per_target = [];
}

abbrev cfg : String → String → Types.Wan
cfg name policy = record {
  name = name;
  interface = "ppp0";
  point_to_point = true;
  probe = record {
    method = "icmp";
    targets = record { v4_targets = "192.0.2.1" ∷ []; v6_targets = [] };
    interval_ms = pos 500;
    timeout_ms = pos 1000;
    window_size = pos 4;
    thresholds = thresholds;
    hysteresis = hysteresis_of_config;
    family_health_policy = policy;
  };
}

abbrev uncooked : FamilyState counts
uncooked = record {
  targets = "192.0.2.1" ∷ [];
  stats = stats_of false;
  hyst = cold;
  healthy = false;
  cooked = false;
}

abbrev wan : String → WanState counts
wan policy = record {
  name = "primary";
  cfg = cfg "primary" policy;
  carrier = carrier_up;
  operstate = up;
  families = (v4, uncooked) ∷ [];
}

abbrev wans : Wans counts
wans = record { by_name = ("primary", wan "any") ∷ []; metrics = [] }

abbrev pub result : Bool → ProbeResult counts
result filled = record { wan = "primary"; family = v4; stats = stats_of filled }

names : (filled : Bool) → Names counts wans (result filled) (wan "any") uncooked
unfolding lookup
names filled = record { wan_known = refl; family_known = refl }

probe_flips_example :
    ((probe counts wans (result true)).1.flipped ≡ "primary" ∷ [])
      × (healthy_wan counts (probe counts wans (result true)).0 "primary"
          ≡ not (healthy_wan counts wans "primary"))
    ⊎ ((probe counts wans (result true)).1.flipped ≡ [])
      × (healthy_wan counts (probe counts wans (result true)).0 "primary"
          ≡ healthy_wan counts wans "primary")
probe_flips_example = probe_flips counts (names true)

abbrev cable_pulled : LinkEvent
cable_pulled = record { name = "ppp0"; carrier = carrier_down; operstate = down }

link-Flips_example :
    (update : WanState counts → WanState counts) × ((ws : WanState counts)
      → Updated counts cable_pulled ws (update ws))
    × ((link counts wans cable_pulled).0.by_name ≡ map (λ x. (x.0, update x.1)) wans.by_name)
    × (In "primary" (link counts wans cable_pulled).1.flipped ↔ (
        (x : String × WanState counts) × In x wans.by_name
        × (is_healthy counts (update x.1) ≢ is_healthy counts x.1)
        × ("primary" ≡ x.1.name)))
link-Flips_example = link-Flips counts wans cable_pulled "primary"
