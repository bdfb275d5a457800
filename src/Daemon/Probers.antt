-- ===== src/Daemon/Probers.antt =====
-- The Pingers that the daemon starts (daemon/cmd/wanwatchd/probers.go). The start of a key's search for
-- an identifier is a parameter, as in Probe/Ident.
pub mod Started
use nixos_wanwatch.Prelude.{
  ℕ, Bool, false, Option, none, some, List, [], ◌∷◌, ◌++◌, map, String, Result, ok, ◌>>=◌,
}
use nixos_wanwatch.Prelude.Int.{ℤ, pos, times_int64}
use nixos_wanwatch.Prelude.Dict.{lookup}
use nixos_wanwatch.Prelude.Text.{str_eq, str_le}
use nixos_wanwatch.Prelude.Sort.{sort_by}
use nixos_wanwatch.Probe.Family.{Family}
use nixos_wanwatch.Probe.Ident.{IdentKey, IdentError, Idents, same_ident, allocate_idents}
use nixos_wanwatch.Probe.Pinger.{Pinger}
use nixos_wanwatch.Config.Types.{Config, Wan, families, targets_for}

-- `identKeysFor`, on the WANs sorted by name.
abbrev by_name : String × Wan → String × Wan → Bool
by_name a b = str_le a.0 b.0

abbrev key_of : String → Family → IdentKey
key_of name fam = record { wan = name; family = fam }

keys_of : List (String × Wan) → List IdentKey
keys_of [] = []
keys_of ((name, wan) ∷ wans) = map (key_of name) (families wan.probe.targets) ++ keys_of wans

unfoldable pub ident_keys_for : Config → List IdentKey
unfolding keys_of
ident_keys_for cfg = keys_of (sort_by by_name cfg.wans)

-- Go's zero value, for a missing key.
abbrev zero_wan : Wan
zero_wan = record {
  name = "";
  interface = "";
  point_to_point = false;
  probe = record {
    method = "";
    targets = record { v4_targets = []; v6_targets = [] };
    interval_ms = pos 0;
    timeout_ms = pos 0;
    window_size = pos 0;
    thresholds = record {
      loss_pct_down = pos 0;
      loss_pct_up = pos 0;
      rtt_ms_down = pos 0;
      rtt_ms_up = pos 0;
    };
    hysteresis = record { consecutive_down = pos 0; consecutive_up = pos 0 };
    family_health_policy = "";
  };
}

abbrev or_zero_wan : Option Wan → Wan
or_zero_wan none = zero_wan
or_zero_wan (some w) = w

abbrev or_zero : Option ℕ → ℕ
or_zero none = 0
or_zero (some i) = i

unfoldable pub pinger_of : Config → Idents → IdentKey → Pinger
pinger_of cfg idents k =
    let wan = or_zero_wan (lookup str_eq k.wan cfg.wans) in
    record {
      wan = k.wan;
      family = k.family;
      interface = wan.interface;
      targets = targets_for wan.probe.targets k.family;
      ident = or_zero (lookup same_ident k idents);
      interval = times_int64 1_000_000 wan.probe.interval_ms;
      timeout = times_int64 1_000_000 wan.probe.timeout_ms;
      window_size = wan.probe.window_size;
    }

-- The Pingers whose `Run` is started.
unfoldable pub start_probers : (IdentKey → ℕ) → Config → Result IdentError (List Pinger)
unfolding ident_keys_for pinger_of allocate_idents
start_probers initial_ident cfg = allocate_idents initial_ident (ident_keys_for cfg) >>= λ idents.
    ok (map (pinger_of cfg idents) (ident_keys_for cfg))
