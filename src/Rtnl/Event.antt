-- ===== src/Rtnl/Event.antt =====
-- daemon/internal/rtnl/event.go: the observations that the subscribers deliver.
use nixos_wanwatch.Prelude.{ℕ, Bool, true, false, Option, List, String}
use nixos_wanwatch.Prelude.Int.{ℤ, eq_ℤ}
use nixos_wanwatch.Probe.Family.{Family}

pub data Carrier : Type 0 where
  carrier_unknown carrier_down carrier_up : Carrier

-- `other n` is a kernel value outside the seven of IF_OPER_*.
pub data Operstate : Type 0 where
  unknown not_present down lower_layer_down testing dormant up : Operstate
  other : ℤ → Operstate

abbrev pub eq_carrier : Carrier → Carrier → Bool
eq_carrier carrier_unknown carrier_unknown = true
eq_carrier carrier_down carrier_down = true
eq_carrier carrier_up carrier_up = true
eq_carrier _ _ = false

abbrev pub eq_operstate : Operstate → Operstate → Bool
eq_operstate unknown unknown = true
eq_operstate not_present not_present = true
eq_operstate down down = true
eq_operstate lower_layer_down lower_layer_down = true
eq_operstate testing testing = true
eq_operstate dormant dormant = true
eq_operstate up up = true
eq_operstate (other a) (other b) = eq_ℤ a b
eq_operstate _ _ = false

pub record LinkEvent : Type 0 where
  pub name : String
  pub carrier : Carrier
  pub operstate : Operstate

pub data RouteEventOp : Type 0 where
  add del : RouteEventOp

-- `net.IP`: `none` is nil, and otherwise the bytes.
abbrev pub Ip : Type 0
Ip = Option (List ℕ)

pub record RouteEvent : Type 0 where
  pub op : RouteEventOp
  pub iface : String
  pub family : Family
  pub gateway : Ip
