-- ===== src/Health/Hysteresis.antt =====
-- daemon/internal/health/hysteresis.go: the consecutive-cycle state machine.
pub mod Runs
pub mod Traces
use nixos_wanwatch.Prelude.{Bool, true, false, not, ◌&&◌, if◌then◌else◌, List, [], ◌∷◌, foldl}
use nixos_wanwatch.Prelude.Int.{ℤ, pos, ltb_ℤ, leb_ℤ, inc}

pub record Hysteresis : Type 0 where
  pub healthy_count : ℤ
  pub unhealthy_count : ℤ
  pub healthy : Bool
  pub consecutive_up : ℤ
  pub consecutive_down : ℤ

abbrev at_least_one : ℤ → ℤ
at_least_one n = if ltb_ℤ n (pos 1) then pos 1 else n

unfoldable pub new_hysteresis : ℤ → ℤ → Hysteresis
new_hysteresis up down = record {
  healthy_count = pos 0;
  unhealthy_count = pos 0;
  healthy = false;
  consecutive_up = at_least_one up;
  consecutive_down = at_least_one down;
}

-- The verdict returned is the field `healthy` of the new state.
unfoldable pub observe : Hysteresis → Bool → Hysteresis
observe h true =
    let count = inc h.healthy_count in
    record h {
      unhealthy_count = pos 0;
      healthy_count = count;
      healthy = if not h.healthy && leb_ℤ h.consecutive_up count then true else h.healthy;
    }
observe h false =
    let count = inc h.unhealthy_count in
    record h {
      healthy_count = pos 0;
      unhealthy_count = count;
      healthy = if h.healthy && leb_ℤ h.consecutive_down count then false else h.healthy;
    }

unfoldable pub seed : Hysteresis → Bool → Hysteresis
seed h observed = record h { healthy = observed; healthy_count = pos 0; unhealthy_count = pos 0 }
