-- ===== src/Health/Wans.antt =====
-- The WANs of daemon/internal/health/health.go: carrier, Family votes, probe results and
-- what a Group reads.
pub mod Links
pub mod Snapshot
pub mod Policy
pub mod ProbeLaws
pub mod LinkLaws
use nixos_wanwatch.Prelude.{
  ℕ, ◌≡◌, Bool, true, false, not, ◌&&◌, ◌||◌, Option, none, some, List, [], ◌∷◌, ◌++◌, map, String,
  ◌==◌, ltb, if◌then◌else◌, count_if, length,
}
use nixos_wanwatch.Prelude.Int.{ℤ, pos, negsuc}
use nixos_wanwatch.Prelude.Text.{str_eq, str_le}
use nixos_wanwatch.Prelude.Dict.{lookup, insert}
use nixos_wanwatch.Prelude.Sort.{sort_by}
use nixos_wanwatch.Probe.Family.{Family, eq_family}
use nixos_wanwatch.Probe.Float.{Floats}
use nixos_wanwatch.Probe.Aggregate.{FamilyStats, TargetStats, no_stats}
use nixos_wanwatch.Config.Types as Types
use nixos_wanwatch.Config.Types.{families, targets_for}
use nixos_wanwatch.Rtnl.Event.{
  Carrier, carrier_unknown, carrier_down, carrier_up, Operstate, unknown, not_present, down,
  lower_layer_down, up, testing, dormant, other, eq_carrier, eq_operstate, LinkEvent,
}
use nixos_wanwatch.Health.Hysteresis.{Hysteresis, new_hysteresis, observe, seed}
use nixos_wanwatch.Health.Thresholds.{evaluate_thresholds}
use nixos_wanwatch.Selector
use nixos_wanwatch.Selector.{MemberHealth, Member}

pub record Change : Type 0 where
  pub flipped : List String
  pub republish : Bool

abbrev pub no_change : Change
no_change = record { flipped = []; republish = false }

-- `carrierValue`
abbrev pub carrier_value : Carrier → ℤ
carrier_value carrier_up = pos 1
carrier_value carrier_down = pos 0
carrier_value carrier_unknown = negsuc 0

abbrev pub operstates : List Operstate
operstates = up ∷ down ∷ dormant ∷ lower_layer_down ∷ not_present ∷ testing ∷ unknown ∷ []

abbrev pub known_operstate : Operstate → Operstate
known_operstate (other n) = unknown
known_operstate o = o

-- The explicit "down-ish" operstates.
abbrev pub is_downish : Operstate → Bool
is_downish down = true
is_downish lower_layer_down = true
is_downish not_present = true
is_downish _ = false

module _ (fl : Floats) where
  -- A gauge that is set or a counter that is raised, with its labels. `none` is the gauge value NaN.
  pub data Metric : Type 0 where
    carrier_set : String → ℤ → Metric
    operstate_set : String → Operstate → Bool → Metric
    carrier_changes_inc : String → Metric
    wan_healthy_set : String → Bool → Metric
    family_healthy_set : String → Family → Bool → Metric
    rtt_set : String → Family → Option fl.Float → Metric
    jitter_set : String → Family → Option fl.Float → Metric
    loss_set : String → Family → Option fl.Float → Metric
    target_rtt_set : String → Family → String → Option fl.Float → Metric

  abbrev pub seconds : Option ℕ → Option fl.Float
  seconds none = none
  seconds (some micros) = some (fl.div_float (fl.of_u64 micros) (fl.of_u64 1_000_000))

  pub record FamilyState : Type 0 where
    pub targets : List String
    pub stats : FamilyStats fl
    pub hyst : Hysteresis
    pub healthy : Bool
    pub cooked : Bool

  pub record WanState : Type 0 where
    pub name : String
    pub cfg : Types.Wan
    pub carrier : Carrier
    pub operstate : Operstate
    pub families : List (Family × FamilyState)

  pub record Wans : Type 0 where
    pub by_name : List (String × WanState)
    pub metrics : List Metric  -- what was written to the registry, oldest first

  unfoldable pub is_carrier_up : WanState → Bool
  is_carrier_up ws =
      if eq_carrier ws.carrier carrier_down
      then false
      else if is_downish ws.operstate
      then false
      else eq_carrier ws.carrier carrier_up || eq_operstate ws.operstate up

  -- An uncooked Family votes healthy.
  abbrev pub votes : Family × FamilyState → Bool
  votes e = not e.1.cooked || e.1.healthy

  unfoldable pub combine_families : WanState → Bool
  combine_families ws =
      let healthy = count_if votes ws.families in
      if length ws.families == 0
      then false
      else if str_eq ws.cfg.probe.family_health_policy "any"
      then ltb 0 healthy
      else healthy == length ws.families

  unfoldable pub is_healthy : WanState → Bool
  unfolding is_carrier_up combine_families
  is_healthy ws = is_carrier_up ws && combine_families ws

  -- The Family after a full window: its threshold verdict goes through Hysteresis, or seeds it.
  unfoldable pub judged : Types.Thresholds → FamilyState → FamilyStats fl → FamilyState
  judged t fs stats =
      let raw = evaluate_thresholds fl (fs.healthy || not fs.cooked) stats t in
      let hyst = if fs.cooked then observe fs.hyst raw else seed fs.hyst raw in
      record fs { hyst = hyst; cooked = true; healthy = hyst.healthy }

  abbrev pub set_family : WanState → Family → FamilyState → WanState
  set_family ws fam fs = record ws { families = insert eq_family fam fs ws.families }

  unfoldable pub fold :
      WanState → Family → FamilyState → FamilyStats fl → Change × WanState × FamilyState
  fold ws fam fs stats =
      let prev = is_healthy ws in
      let fs' = judged ws.cfg.probe.thresholds fs stats in
      let ws' = set_family ws fam fs' in
      let changed = not fs'.healthy && fs.healthy || fs'.healthy && not fs.healthy in
      let flips = not (is_healthy ws') && prev || is_healthy ws' && not prev in
      (
        record {
          flipped = if flips then ws.name ∷ [] else [];
          republish = not fs.cooked || changed;
        },
        ws',
        fs',
      )

  pub record ProbeResult : Type 0 where
    pub wan : String
    pub family : Family
    pub stats : FamilyStats fl

  target_metrics : String → Family → List (TargetStats fl) → List Metric
  target_metrics wan fam = map (λ t. target_rtt_set wan fam t.target (seconds t.rtt_micros))

  pub record_stats : String → Family → FamilyStats fl → List Metric
  unfolding target_metrics
  record_stats wan fam stats =
      rtt_set wan fam (seconds stats.rtt_micros)
      ∷ jitter_set wan fam (seconds stats.jitter)
      ∷ loss_set wan fam stats.loss_ratio
      ∷ target_metrics wan fam stats.per_target

  pub record_link : WanState → List Metric
  record_link ws =
      carrier_set ws.name (carrier_value ws.carrier)
      ∷ map (λ o. operstate_set ws.name o (eq_operstate o (known_operstate ws.operstate)))
          operstates

  pub record_probe : WanState → ProbeResult → Bool → List Metric
  unfolding record_stats is_healthy
  record_probe ws r healthy =
      record_stats ws.name r.family r.stats
      ++ family_healthy_set ws.name r.family healthy ∷ wan_healthy_set ws.name (is_healthy ws) ∷ []

  new_family : List String → Types.Hysteresis → FamilyState
  new_family targets h = record {
    targets = targets;
    stats = record (no_stats fl) {
      per_target =
          map
            (λ t. record {
              target = t;
              rtt_micros = none;
              jitter = none;
              exact_loss = none;
              loss_ratio = none;
            })
            targets;
    };
    hyst = new_hysteresis h.consecutive_up h.consecutive_down;
    healthy = false;
    cooked = false;
  }

  unfoldable pub new_wan : String × Types.Wan → WanState
  unfolding new_family
  new_wan (name, cfg) = record {
    name = name;
    cfg = cfg;
    carrier = carrier_unknown;
    operstate = unknown;
    families =
        map (λ fam. (fam, new_family (targets_for cfg.probe.targets fam) cfg.probe.hysteresis))
          (families cfg.probe.targets);
  }

  stats_metrics : String → List (Family × FamilyState) → List Metric
  unfolding record_stats
  stats_metrics name [] = []
  stats_metrics name ((fam, fs) ∷ rest) = record_stats name fam fs.stats ++ stats_metrics name rest

  new_metrics : List (String × Types.Wan) → List Metric
  unfolding new_wan stats_metrics record_link
  new_metrics [] = []
  new_metrics (e ∷ cfgs) =
      let ws = new_wan e in stats_metrics e.0 ws.families ++ record_link ws ++ new_metrics cfgs

  unfoldable pub new_wans : List (String × Types.Wan) → Wans
  unfolding new_wan new_metrics
  new_wans cfgs = record { by_name = map (λ e. (e.0, new_wan e)) cfgs; metrics = new_metrics cfgs }

  -- The entries of the map are pointers: the WAN is changed where it stands.
  pub probe_family : Wans → WanState → ProbeResult → Option FamilyState → Wans × Change
  probe_family w ws r none = (w, no_change)
  probe_family w ws r (some old) =
      let fs = record old { stats = r.stats } in
      let told = set_family ws r.family fs in
      let (c, ws', fs') =
        (if fs.cooked || r.stats.window_filled
          then fold told r.family fs r.stats
          else (no_change, told, fs)) in
      (
        record {
          by_name = insert str_eq r.wan ws' w.by_name;
          metrics = w.metrics ++ record_probe ws' r fs'.healthy;
        },
        c,
      )

  probe_wan : Wans → ProbeResult → Option WanState → Wans × Change
  unfolding probe_family
  probe_wan w r none = (w, no_change)
  probe_wan w r (some ws) = probe_family w ws r (lookup eq_family r.family ws.families)

  unfoldable pub probe : Wans → ProbeResult → Wans × Change
  unfolding probe_wan
  probe w r = probe_wan w r (lookup str_eq r.wan w.by_name)

  -- An unknown WAN is unhealthy.
  abbrev pub health_of : Option WanState → Bool
  health_of none = false
  health_of (some ws) = is_healthy ws

  unfoldable pub healthy_wan : Wans → String → Bool
  healthy_wan w name = health_of (lookup str_eq name w.by_name)

  abbrev pub by_wan : MemberHealth → MemberHealth → Bool
  by_wan a b = str_le a.member.wan b.member.wan

  unfoldable pub member_health : Wans → Selector.Group → List MemberHealth
  member_health w g =
      sort_by by_wan (map (λ m. record { member = m.1; healthy = healthy_wan w m.1.wan }) g.members)
