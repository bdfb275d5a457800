-- ===== src/Config/Validate.antt =====
-- daemon/internal/config/config.go: `Validate` and the checks below it, with `Parse` after the JSON
-- decoder. The package net/netip is a parameter.
pub mod Accepts
pub mod WellFormed
use nixos_wanwatch.Prelude.{
  ℕ, ◌+◌, Bool, true, false, not, ◌&&◌, ◌||◌, Option, none, some, List, [], ◌∷◌, String, Result, ok,
  err, ◌>>◌, ◌>>=◌, refuse_if, any, if◌then◌else◌,
}
use nixos_wanwatch.Prelude.Int.{ℤ, pos, leb_ℤ, ltb_ℤ, eq_ℤ}
use nixos_wanwatch.Prelude.Text.{str_eq}
use nixos_wanwatch.Prelude.Dict.{lookup}
use nixos_wanwatch.Probe.Family.{Family, v4, v6}
use nixos_wanwatch.Selector.{Group, Member, known_strategies}
use nixos_wanwatch.Config.Types.{Targets, Thresholds, Hysteresis, Probe, Wan, Global, Config}

-- What `Validate` uses of net/netip: `none` is the error of `ParseAddr`, and `same_addr` is `==`.
pub record Netip : Type 1 where
  pub Addr : Type 0
  pub parse_addr : String → Option Addr
  pub zone : Addr → String
  pub is_4 : Addr → Bool
  pub is_6 : Addr → Bool
  pub is_4_in_6 : Addr → Bool
  pub same_addr : Addr → Addr → Bool

-- One constructor for each message, with the keys and positions that it names.
pub data Invalid : Type 0 where
  no_state_path no_hooks_dir no_metrics_socket bad_hook_timeout : Invalid
  wan_name no_interface bad_method no_targets bad_interval bad_timeout bad_window bad_policy :
      String → Invalid
  not_address has_zone wrong_family is_mapped : String → Family → ℕ → Invalid
  duplicate : String → Family → ℕ → ℕ → Invalid
  bad_loss_down bad_loss_up loss_order bad_rtt rtt_order bad_consecutive_up bad_consecutive_down :
      String → Invalid
  group_name bad_strategy bad_table bad_mark no_members : String → Invalid
  member_wan unknown_member : String → String → Invalid

pub data ParseError : Type 0 where
  schema_mismatch : ℤ → ParseError
  invalid : Invalid → ParseError

abbrev pub Check : Type 0
Check = Result Invalid (Unit {0})

-- The loop over a map or a slice: the first failure is returned.
abbrev pub each {ℓ} : {A : Type ℓ} → (A → Check) → List A → Check
each check [] = ok tt
each check (x ∷ xs) = check x >> each check xs

pub validate_thresholds : String → Thresholds → Check
validate_thresholds wan t =
    refuse_if (ltb_ℤ t.loss_pct_down (pos 0) || ltb_ℤ (pos 100) t.loss_pct_down) (bad_loss_down wan)
    >> refuse_if (ltb_ℤ t.loss_pct_up (pos 0) || ltb_ℤ (pos 100) t.loss_pct_up) (bad_loss_up wan)
    >> refuse_if (leb_ℤ t.loss_pct_down t.loss_pct_up) (loss_order wan)
    >> refuse_if (leb_ℤ t.rtt_ms_up (pos 0) || leb_ℤ t.rtt_ms_down (pos 0)) (bad_rtt wan)
    >> refuse_if (leb_ℤ t.rtt_ms_down t.rtt_ms_up) (rtt_order wan)

pub validate_hysteresis : String → Hysteresis → Check
validate_hysteresis wan h =
    refuse_if (ltb_ℤ h.consecutive_up (pos 1)) (bad_consecutive_up wan)
    >> refuse_if (ltb_ℤ h.consecutive_down (pos 1)) (bad_consecutive_down wan)

abbrev pub is_declared : Option Wan → Bool
is_declared none = false
is_declared (some _) = true

-- A Member under its key in the Group's map.
pub validate_member : String → List (String × Wan) → String × Member → Check
validate_member key wans (wan, m) =
    refuse_if (not (str_eq m.wan wan)) (member_wan key wan)
    >> refuse_if (not (is_declared (lookup str_eq wan wans))) (unknown_member key wan)

abbrev pub is_empty {ℓ} : {A : Type ℓ} → List A → Bool
is_empty [] = true
is_empty (_ ∷ _) = false

pub validate_group : List (String × Wan) → String × Group → Check
unfolding validate_member
validate_group wans (key, g) =
    refuse_if (not (str_eq g.name key)) (group_name key)
    >> refuse_if (not (any (λ s. str_eq s g.strategy) known_strategies)) (bad_strategy key)
    >> refuse_if (leb_ℤ g.table (pos 0)) (bad_table key)
    >> refuse_if (leb_ℤ g.mark (pos 0)) (bad_mark key)
    >> refuse_if (is_empty g.members) (no_members key)
    >> each (validate_member key wans) g.members

pub validate_global : Global → Check
validate_global g =
    refuse_if (str_eq g.state_path "") no_state_path
    >> refuse_if (str_eq g.hooks_dir "") no_hooks_dir
    >> refuse_if (str_eq g.metrics_socket "") no_metrics_socket
    >> refuse_if (leb_ℤ g.hook_timeout_ms (pos 0)) bad_hook_timeout

abbrev pub supported_schema : ℤ
supported_schema = pos 1

module _ (net : Netip) where
  -- `holds`
  abbrev pub is_of : Family → net.Addr → Bool
  is_of v6 a = net.is_6 a
  is_of f a = net.is_4 a

  -- An address against the ones seen before it: `none` is a new one.
  abbrev pub refuse_seen : String → Family → ℕ → Option ℕ → Check
  refuse_seen wan f i none = ok tt
  refuse_seen wan f i (some first) = err (duplicate wan f i first)

  abbrev pub check_addr : String → Family → ℕ → List (net.Addr × ℕ) → net.Addr → Check
  check_addr wan f i seen a =
      refuse_if (not (str_eq (net.zone a) "")) (has_zone wan f i)
      >> refuse_if (not (is_of f a)) (wrong_family wan f i)
      >> refuse_if (net.is_4_in_6 a) (is_mapped wan f i)
      >> refuse_seen wan f i (lookup net.same_addr a seen)

  -- The checks of one Target, with the address that it is.
  abbrev pub check_target :
      String → Family → ℕ → List (net.Addr × ℕ) → Option net.Addr → Result Invalid net.Addr
  check_target wan f i seen none = err (not_address wan f i)
  check_target wan f i seen (some a) = check_addr wan f i seen a >> ok a

  -- The loop of `validateTargetBucket` from index `i` on, with the map `seen`.
  pub validate_from : String → Family → ℕ → List (net.Addr × ℕ) → List String → Check
  validate_from wan f i seen [] = ok tt
  validate_from wan f i seen (t ∷ ts) = check_target wan f i seen (net.parse_addr t) >>= λ a.
      validate_from wan f (i + 1) ((a, i) ∷ seen) ts

  pub validate_target_bucket : String → Family → List String → Check
  unfolding validate_from
  validate_target_bucket wan f targets = validate_from wan f 0 [] targets

  pub validate_targets : String → Targets → Check
  unfolding validate_target_bucket
  validate_targets wan t =
      validate_target_bucket wan v4 t.v4_targets >> validate_target_bucket wan v6 t.v6_targets

  pub validate_probe : String → Probe → Check
  unfolding validate_targets validate_thresholds validate_hysteresis
  validate_probe wan p =
      refuse_if (not (str_eq p.method "icmp")) (bad_method wan)
      >> refuse_if (is_empty p.targets.v4_targets && is_empty p.targets.v6_targets) (no_targets wan)
      >> validate_targets wan p.targets
      >> refuse_if (leb_ℤ p.interval_ms (pos 0)) (bad_interval wan)
      >> refuse_if (leb_ℤ p.timeout_ms (pos 0)) (bad_timeout wan)
      >> refuse_if (leb_ℤ p.window_size (pos 0)) (bad_window wan)
      >> refuse_if
          (not (str_eq p.family_health_policy "all" || str_eq p.family_health_policy "any"))
          (bad_policy wan)
      >> validate_thresholds wan p.thresholds
      >> validate_hysteresis wan p.hysteresis

  pub validate_wan : String × Wan → Check
  unfolding validate_probe
  validate_wan (key, w) =
      refuse_if (not (str_eq w.name key)) (wan_name key)
      >> refuse_if (str_eq w.interface "") (no_interface key)
      >> validate_probe key w.probe

  pub validate : Config → Check
  unfolding validate_global validate_wan validate_group
  validate c =
      validate_global c.global >> each validate_wan c.wans >> each (validate_group c.wans) c.groups

  abbrev checked : Config → Check → Result ParseError Config
  checked c (ok _) = ok c
  checked c (err e) = err (invalid e)

  -- `Parse` once the JSON is decoded.
  pub parse_decoded : Config → Result ParseError Config
  unfolding validate
  parse_decoded c =
      if eq_ℤ c.schema supported_schema
      then checked c (validate c)
      else err (schema_mismatch c.schema)
