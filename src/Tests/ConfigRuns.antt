-- ===== src/Tests/ConfigRuns.antt =====
-- The theorem on `Load`, at a configuration with one WAN and one Group.
use nixos_wanwatch.Config.Load.{load, IsAccepted, load_iff}
use nixos_wanwatch.Prelude.{
  Bool, Result, err, if◌then◌else◌, ◌≡◌, ◌↔◌, true, false, not, none, some, [], ◌∷◌, String, ok,
}
use nixos_wanwatch.Prelude.Int.{pos}
use nixos_wanwatch.Prelude.Text.{str_eq}
use nixos_wanwatch.Config.Types.{Config, Wan}
use nixos_wanwatch.Config.Validate.{Netip}

-- An address is its text, and only one text is none.
abbrev netip : Netip
netip = record {
  Addr = String;
  parse_addr = λ s. elim (str_eq s "nonsense") [ true ↦ none | false ↦ some s ];
  zone = λ a. "";
  is_4 = λ a. str_eq a "192.0.2.1";
  is_6 = λ a. not (str_eq a "192.0.2.1");
  is_4_in_6 = λ a. false;
  same_addr = str_eq;
}

abbrev pub config : Config
config = record {
  schema = pos 1;
  global = record {
    state_path = "/run/wanwatch/state.json";
    hooks_dir = "/etc/wanwatch/hooks";
    metrics_socket = "/run/wanwatch/metrics.sock";
    log_level = "info";
    hook_timeout_ms = pos 5000;
  };
  wans = ("primary", wan) ∷ [];
  groups =
      (
        "home",
        record {
          name = "home";
          strategy = "primary-backup";
          table = pos 100;
          mark = pos 7;
          members = ("primary", record { wan = "primary"; priority = pos 1 }) ∷ [];
        },
      )
      ∷ [];
}
  where
    wan : Wan
    wan = record {
      name = "primary";
      interface = "ppp0";
      point_to_point = true;
      probe = record {
        method = "icmp";
        targets = record { v4_targets = "192.0.2.1" ∷ []; v6_targets = "2001:db8::1" ∷ [] };
        interval_ms = pos 500;
        timeout_ms = pos 1000;
        window_size = pos 4;
        thresholds = record {
          loss_pct_down = pos 30;
          loss_pct_up = pos 10;
          rtt_ms_down = pos 500;
          rtt_ms_up = pos 250;
        };
        hysteresis = record { consecutive_down = pos 2; consecutive_up = pos 3 };
        family_health_policy = "any";
      };
    }

-- The text of a file is whether it can be decoded.
abbrev read_file : String → Result String Bool
read_file path = ok true

abbrev decode : Bool → Result String (Config × Bool)
decode json = if json then ok (config, true) else err "unexpected end"

load_example :
    (load netip read_file decode (λ rest. rest) "/etc/wanwatch/config.json" ≡ ok config) ↔ (
      (json : Bool) × (read_file "/etc/wanwatch/config.json" ≡ ok json)
      × IsAccepted netip read_file decode (λ rest. rest) json config)
load_example = load_iff netip read_file decode (λ rest. rest) "/etc/wanwatch/config.json" config
