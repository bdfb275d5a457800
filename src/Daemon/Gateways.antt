-- ===== src/Daemon/Gateways.antt =====
-- daemon/cmd/wanwatchd/gateway.go: the gateways that the kernel's main table gives.
use nixos_wanwatch.Prelude.{
  ℕ, ◌≡◌, Bool, ◌&&◌, Option, none, some, List, String, if◌then◌else◌, arith,
}
use nixos_wanwatch.Prelude.Dict.{lookup, insert, delete, IsEquality, lookup-insert, lookup-delete}
use nixos_wanwatch.Prelude.Text.{str_eq}
use nixos_wanwatch.Probe.Family.{Family, eq_family, eq_family_iff}
use nixos_wanwatch.Rtnl.Event.{Ip}
use nixos_wanwatch.Daemon.{GatewayKey, GatewayCache}
use text.Mathlib.TextEquality.{eq_iff}

abbrev pub eq_key : GatewayKey → GatewayKey → Bool
eq_key a b = str_eq a.iface b.iface && eq_family a.family b.family

pub eq_key_iff : IsEquality eq_key
eq_key_iff a b = ground (arith, eq_iff a.iface b.iface, eq_family_iff a.family b.family)

abbrev key : String → Family → GatewayKey
key iface fam = record { iface = iface; family = fam }

unfoldable pub set : String → Family → Ip → GatewayCache → GatewayCache
set iface fam gw c = record { entries = insert eq_key (key iface fam) gw c.entries }

unfoldable pub clear : String → Family → GatewayCache → GatewayCache
clear iface fam c = record { entries = delete eq_key (key iface fam) c.entries }

unfoldable pub get : String → Family → GatewayCache → Option Ip
get iface fam c = lookup eq_key (key iface fam) c.entries

-- A missing entry and a scope-link one have no address.
abbrev text_of : (List ℕ → String) → Option Ip → Option String
text_of ip_text none = none
text_of ip_text (some none) = none
text_of ip_text (some (some bytes)) = some (ip_text bytes)

unfoldable pub address : (List ℕ → String) → String → Family → GatewayCache → Option String
unfolding get
address ip_text iface fam c = text_of ip_text (get iface fam c)

abbrev or_empty : Option String → String
or_empty none = ""
or_empty (some s) = s

-- `gatewayCache.string`
unfoldable pub gateway_string : (List ℕ → String) → String → Family → GatewayCache → String
unfolding address
gateway_string ip_text iface fam c = or_empty (address ip_text iface fam c)

pub get-set :
    (iface iface' : String) (fam fam' : Family) (gw : Ip) (c : GatewayCache)
    → get iface' fam' (set iface fam gw c)
      ≡ (if eq_key (key iface fam) (key iface' fam') then some gw else get iface' fam' c)
unfolding get set
get-set iface iface' fam fam' gw c =
    lookup-insert eq_key eq_key_iff (key iface fam) (key iface' fam') gw c.entries

pub get-clear :
    (iface iface' : String) (fam fam' : Family) (c : GatewayCache)
    → get iface' fam' (clear iface fam c)
      ≡ (if eq_key (key iface fam) (key iface' fam') then none else get iface' fam' c)
unfolding get clear
get-clear iface iface' fam fam' c =
    lookup-delete eq_key eq_key_iff (key iface fam) (key iface' fam') c.entries
