-- ===== src/State.antt =====
-- daemon/internal/state: what the daemon publishes of itself (state.go) and tells Hooks (hooks.go).
-- A pointer is an `Option`, a time a number with `none` for the zero time.
pub mod Writer
pub mod Hooks
pub mod Notifier
use nixos_wanwatch.Prelude.{ℕ, Bool, Option, List, String}
use nixos_wanwatch.Prelude.Int.{ℤ}
use nixos_wanwatch.Probe.Float.{Floats}
use nixos_wanwatch.Decision.{Event, up, down, switch, Snapshot}

pub record Gateways : Type 0 where
  pub v4_gateway : Option String
  pub v6_gateway : Option String

module _ (fl : Floats) where
  pub record FamilyHealth : Type 0 where
    pub healthy : Bool
    pub rtt_seconds : Option fl.Float
    pub jitter_seconds : Option fl.Float
    pub loss_ratio : Option fl.Float
    pub targets : List String

  pub record Wan : Type 0 where
    pub interface : String
    pub carrier : String
    pub operstate : String
    pub healthy : Bool
    pub gateways : Gateways
    pub families : List (String × FamilyHealth)

  pub record State : Type 0 where
    pub schema : ℤ
    pub version : String
    pub started_at : ℕ
    pub updated_at : Option ℕ
    pub wans : List (String × Wan)
    pub groups : List (String × Snapshot)

-- The text of an `Event`.
abbrev pub event_text : Event → String
event_text up = "up"
event_text down = "down"
event_text switch = "switch"

pub record HookContext : Type 0 where
  pub event : Event
  pub group : String
  pub wan_old : String
  pub wan_new : String
  pub interface_old : String
  pub interface_new : String
  pub gateway_v4_old : String
  pub gateway_v4_new : String
  pub gateway_v6_old : String
  pub gateway_v6_new : String
  pub families_old : List String
  pub families_new : List String
  pub table : ℤ
  pub mark : ℤ
  pub timestamp : Option ℕ
