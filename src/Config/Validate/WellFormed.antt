-- ===== src/Config/Validate/WellFormed.antt =====
-- The whole of `Validate` against a description of a well-formed configuration.
use text.Mathlib.TextEquality.{eq_iff}
use nixos_wanwatch.Prelude.{
  ◌≡◌, ◌≢◌, ◌↔◌, Bool, true, false, not, ◌&&◌, ◌||◌, List, String, ok, err, ◌>>◌, refuse_if, All,
  arith, if◌then◌else◌, ◌⊎◌,
}
use nixos_wanwatch.Prelude.Int.{ℤ, pos, leb_ℤ, ltb_ℤ, eq_ℤ, eq_ℤ_iff}
use nixos_wanwatch.Prelude.Text.{str_eq}
use nixos_wanwatch.Probe.Family.{v4, v6}
use nixos_wanwatch.Config.Types.{Targets, Thresholds, Probe, Wan, Global, Config}
use nixos_wanwatch.Config.Validate.{
  Netip, Invalid, Check, each, validate_global, is_empty, validate_targets, validate_probe,
  validate_wan, validate, parse_decoded, supported_schema, checked, ParseError, schema_mismatch,
}
use nixos_wanwatch.Config.Validate.Accepts.{
  Accepts, both, each-All, All-iff, validate_thresholds_iff, validate_hysteresis_iff,
  validate_group_iff, validate_target_bucket_iff, AreDistinct, IsGroup,
}

-- Two checks in a row, each with what it accepts.
also {ℓ κ} :
    {P : Type ℓ} {Q : Type κ} {m k : Check}
    → Accepts m ↔ P
    → Accepts k ↔ Q
    → Accepts (m >> k) ↔ (P × Q)
also {m = m} {k = k} (a, b) (c, d) =
    let (f, g) = both m k in ((λ h. (a (f h).0, c (f h).1)), (λ (x, y). g (b x, d y)))

positive :
    (n : ℤ) (e : Invalid) → Accepts (refuse_if (leb_ℤ n (pos 0)) e) ↔ (ltb_ℤ (pos 0) n ≡ true)
positive n e = ground arith

text_is : (a b : String) (e : Invalid) → Accepts (refuse_if (not (str_eq a b)) e) ↔ (a ≡ b)
text_is a b e = ground (arith, eq_iff a b)

text_is_not : (a b : String) (e : Invalid) → Accepts (refuse_if (str_eq a b) e) ↔ (a ≢ b)
text_is_not a b e = ground (arith, eq_iff a b)

unrefused : (b : Bool) (e : Invalid) → Accepts (refuse_if b e) ↔ (b ≡ false)
unrefused b e = ground arith

text_in :
    (a b c : String) (e : Invalid)
    → Accepts (refuse_if (not (str_eq a b || str_eq a c)) e) ↔ ((a ≡ b) ⊎ (a ≡ c))
text_in a b c e = ground (arith, eq_iff a b, eq_iff a c)

abbrev pub IsGlobal : Global → Type 0
IsGlobal g =
    (g.state_path ≢ "")
    × (g.hooks_dir ≢ "")
    × (g.metrics_socket ≢ "")
    × (ltb_ℤ (pos 0) g.hook_timeout_ms ≡ true)

global_iff : (g : Global) → Accepts (validate_global g) ↔ IsGlobal g
unfolding validate_global
global_iff g =
    ground (arith, eq_iff g.state_path "", eq_iff g.hooks_dir "", eq_iff g.metrics_socket "")

abbrev pub AreThresholds : Thresholds → Type 0
AreThresholds t =
    (leb_ℤ (pos 0) t.loss_pct_up ≡ true)
    × (ltb_ℤ t.loss_pct_up t.loss_pct_down ≡ true)
    × (leb_ℤ t.loss_pct_down (pos 100) ≡ true)
    × (ltb_ℤ (pos 0) t.rtt_ms_up ≡ true)
    × (ltb_ℤ t.rtt_ms_up t.rtt_ms_down ≡ true)

module _ (net : Netip) where
  abbrev pub AreTargets : Targets → Type 0
  AreTargets t =
      ((xs : List net.Addr) × AreDistinct net v4 t.v4_targets xs)
      × ((xs : List net.Addr) × AreDistinct net v6 t.v6_targets xs)

  targets_iff : (key : String) (t : Targets) → Accepts (validate_targets net key t) ↔ AreTargets t
  unfolding validate_targets
  targets_iff key t =
      also (validate_target_bucket_iff net key v4 t.v4_targets)
        (validate_target_bucket_iff net key v6 t.v6_targets)

  abbrev pub IsProbe : Probe → Type 0
  IsProbe p =
      (p.method ≡ "icmp")
      × (is_empty p.targets.v4_targets && is_empty p.targets.v6_targets ≡ false)
      × AreTargets p.targets
      × (ltb_ℤ (pos 0) p.interval_ms ≡ true)
      × (ltb_ℤ (pos 0) p.timeout_ms ≡ true)
      × (ltb_ℤ (pos 0) p.window_size ≡ true)
      × ((p.family_health_policy ≡ "all") ⊎ (p.family_health_policy ≡ "any"))
      × AreThresholds p.thresholds
      × (leb_ℤ (pos 1) p.hysteresis.consecutive_up ≡ true)
      × (leb_ℤ (pos 1) p.hysteresis.consecutive_down ≡ true)

  probe_iff : (key : String) (p : Probe) → Accepts (validate_probe net key p) ↔ IsProbe p
  unfolding validate_probe
  probe_iff key p =
      let (f, g) =
        also
          (also
            (also
              (also
                (also
                  (also
                    (also (also (text_is p.method "icmp" _) (unrefused _ _))
                      (targets_iff key p.targets))
                    (positive p.interval_ms _))
                  (positive p.timeout_ms _))
                (positive p.window_size _))
              (text_in p.family_health_policy "all" "any" _))
            (validate_thresholds_iff key p.thresholds))
          (validate_hysteresis_iff key p.hysteresis) in
      (
        (λ h.
            let ((((((((m, n), t), i), o), w), fp), th), hy) = f h in
            (m, n, t, i, o, w, fp, th, hy.0, hy.1)),
        (λ (m, n, t, i, o, w, fp, th, u, d). g ((((((((m, n), t), i), o), w), fp), th), (u, d))),
      )

  abbrev pub IsWan : String × Wan → Type 0
  IsWan (key, w) = (w.name ≡ key) × (w.interface ≢ "") × IsProbe w.probe

  wan_iff : (e : String × Wan) → Accepts (validate_wan net e) ↔ IsWan e
  unfolding validate_wan
  wan_iff (key, w) =
      let (f, g) =
        also (also (text_is w.name key _) (text_is_not w.interface "" _)) (probe_iff key w.probe) in
      ((λ h. let ((n, i), p) = f h in (n, i, p)), (λ (n, i, p). g ((n, i), p)))

  abbrev pub IsWellFormed : Config → Type 0
  IsWellFormed c = IsGlobal c.global × All IsWan c.wans × All (IsGroup c.wans) c.groups

  each_iff {ℓ κ} :
      {A : Type ℓ} {P : A → Type κ} {f : A → Check}
      → ((x : A) → Accepts (f x) ↔ P x)
      → (xs : List A) → Accepts (each f xs) ↔ All P xs
  each_iff {f = f} e xs =
      let (a, b) = each-All f xs in let (c, d) = All-iff e xs in ((λ h. c (a h)), (λ h. b (d h)))

  -- `Validate` accepts a configuration exactly when it is well-formed: non-empty paths, names that
  -- are the keys, Targets that are distinct literals of their Families, positive times and counts,
  -- ordered thresholds, and Groups of known Strategy over declared WANs.
  pub validate_iff : (c : Config) → Accepts (validate net c) ↔ IsWellFormed c
  unfolding validate
  validate_iff c =
      let (f, g) =
        also (also (global_iff c.global) (each_iff wan_iff c.wans))
          (each_iff (validate_group_iff c.wans) c.groups) in
      ((λ h. let ((a, b), d) = f h in (a, b, d)), (λ (a, b, d). g ((a, b), d)))

  returned :
      (c d : Config) (b : Bool) (v : Check) (e : ParseError)
      → ((if b then checked net c v else err e) ≡ ok d) ↔ ((c ≡ d) × (b ≡ true) × Accepts v)
  returned c d true (ok tt) e = ground arith
  returned c d true (err x) e = ground arith
  returned c d false v e = ground arith

  -- A decoded configuration is returned exactly when its schema is the supported one and it is
  -- well-formed, and it is returned unchanged.
  pub parse_decoded_iff :
      (c d : Config)
      → (parse_decoded net c ≡ ok d) ↔ ((c ≡ d) × (c.schema ≡ supported_schema) × IsWellFormed c)
  unfolding parse_decoded
  parse_decoded_iff c d =
      let (f, g) =
        returned c d (eq_ℤ c.schema supported_schema) (validate net c) (schema_mismatch c.schema) in
      let (a, b) = validate_iff c in
      let (s, t) = eq_ℤ_iff c.schema supported_schema in
      ((λ h. let (x, y, z) = f h in (x, s y, a z)), (λ (x, y, z). g (x, t y, b z)))
