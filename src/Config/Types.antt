-- ===== src/Config/Types.antt =====
-- The structs of daemon/internal/config/config.go. A Go map is an association list.
use nixos_wanwatch.Prelude.{Bool, List, [], ◌∷◌, ◌++◌, String}
use nixos_wanwatch.Prelude.Int.{ℤ}
use nixos_wanwatch.Probe.Family.{Family, v4, v6, other}
use nixos_wanwatch.Selector.{Group}

pub record Targets : Type 0 where
  pub v4_targets : List String
  pub v6_targets : List String

pub record Thresholds : Type 0 where
  pub loss_pct_down : ℤ
  pub loss_pct_up : ℤ
  pub rtt_ms_down : ℤ
  pub rtt_ms_up : ℤ

pub record Hysteresis : Type 0 where
  pub consecutive_down : ℤ
  pub consecutive_up : ℤ

pub record Probe : Type 0 where
  pub method : String
  pub targets : Targets
  pub interval_ms : ℤ
  pub timeout_ms : ℤ
  pub window_size : ℤ
  pub thresholds : Thresholds
  pub hysteresis : Hysteresis
  pub family_health_policy : String

pub record Wan : Type 0 where
  pub name : String
  pub interface : String
  pub point_to_point : Bool
  pub probe : Probe

pub record Global : Type 0 where
  pub state_path : String
  pub hooks_dir : String
  pub metrics_socket : String
  pub log_level : String
  pub hook_timeout_ms : ℤ

pub record Config : Type 0 where
  pub schema : ℤ
  pub global : Global
  pub wans : List (String × Wan)
  pub groups : List (String × Group)

abbrev pub if_any : List String → List Family → List Family
if_any [] fams = []
if_any (_ ∷ _) fams = fams

-- The Families with a target, v4 first.
abbrev pub families : Targets → List Family
families t = if_any t.v4_targets (v4 ∷ []) ++ if_any t.v6_targets (v6 ∷ [])

abbrev pub targets_for : Targets → Family → List String
targets_for t v4 = t.v4_targets
targets_for t v6 = t.v6_targets
targets_for t (other n) = []
