-- ===== src/Apply/Rule.antt =====
-- daemon/internal/apply/rule.go: one fwmark rule for each Group and Family.
pub mod Table
use nixos_wanwatch.Prelude.{
  ℕ, ◌+◌, ◌-◌, ◌%◌, ◌^◌, ◌≡◌, refl, Bool, true, false, not, ◌&&◌, ◌||◌, Option, none, some, List,
  [], ◌∷◌, String, Result, ok, err, ◌>>◌, refuse_if, if◌then◌else◌, keep, ◌==◌, ==_iff,
}
use nixos_wanwatch.Prelude.Int.{ℤ, pos, negsuc, leb_ℤ, eq_ℤ, eq_ℤ_iff}
use nixos_wanwatch.Prelude.Text.{str_eq}
use nixos_wanwatch.Prelude.Sort.{sort_by}
use nixos_wanwatch.Probe.Family.{Family}
use nixos_wanwatch.Apply.{
  ApplyError, invalid_family, invalid_table, invalid_mark, Check, valid_family, number,
}

pub record FwmarkRule : Type 0 where
  pub family : Family
  pub mark : ℤ
  pub table : ℤ

-- The fields of a netlink rule that the daemon reads or sets. Of a pointer that is only compared with
-- nil, the field says whether it is there.
pub record Rule : Type 0 where
  pub family : ℤ
  pub mark : ℕ
  pub mask : Option ℕ
  pub table : ℤ
  pub priority : ℤ
  pub protocol : ℕ
  pub has_src : Bool
  pub has_dst : Bool
  pub iif_name : String
  pub oif_name : String
  pub invert : Bool
  pub tos : ℕ
  pub tun_id : ℕ
  pub ip_proto : ℤ
  pub has_sport : Bool
  pub has_dport : Bool
  pub has_uid_range : Bool
  pub goto : ℤ
  pub suppress_prefixlen : ℤ
  pub suppress_ifgroup : ℤ

abbrev pub full_mask : ℕ
full_mask = 4_294_967_295

-- `uint32(n)`
abbrev pub u32 : ℤ → ℕ
u32 (pos n) = n % 2 ^ 32
u32 (negsuc n) = full_mask - n % 2 ^ 32

abbrev is_full : Option ℕ → Bool
is_full none = false
is_full (some m) = m == full_mask

unfoldable pub has_other_selector : Rule → Bool
has_other_selector k =
    k.has_src
    || k.has_dst
    || not (str_eq k.iif_name "")
    || not (str_eq k.oif_name "")
    || k.invert
    || not (k.tos == 0)
    || not (k.tun_id == 0)
    || not (eq_ℤ k.ip_proto (pos 0))
    || k.has_sport
    || k.has_dport
    || k.has_uid_range
    || not (eq_ℤ k.goto (negsuc 0))
    || not (eq_ℤ k.suppress_prefixlen (negsuc 0))
    || not (eq_ℤ k.suppress_ifgroup (negsuc 0))

unfoldable pub matches_rule : Rule → FwmarkRule → Bool
unfolding has_other_selector
matches_rule k r =
    eq_ℤ k.family (number r.family)
    && k.mark == u32 r.mark
    && is_full k.mask
    && eq_ℤ k.table r.table
    && not (has_other_selector k)

unfoldable pub validate_rule : FwmarkRule → Check
validate_rule r =
    refuse_if (not (valid_family r.family)) (invalid_family r.family)
    >> refuse_if (leb_ℤ r.mark (pos 0)) (invalid_mark r.mark)
    >> refuse_if (leb_ℤ r.table (pos 0)) (invalid_table r.table)

pub data RuleError (E : Type 0) : Type 0 where
  context_done : RuleError E
  invalid : ApplyError → RuleError E
  list_failed add_failed delete_failed : E → RuleError E

-- The count returned, and the error if there is one.
abbrev pub Ensured : Type 0 → Type 0 → Type 0
Ensured W E = ℕ × Option (RuleError E) × W

abbrev pub by_priority : Rule → Rule → Bool
by_priority a b = leb_ℤ a.priority b.priority

-- `new_rule` is `netlink.NewRule`.
unfoldable pub build_rule : Rule → FwmarkRule → Rule
build_rule new_rule r = record new_rule {
  family = number r.family;
  mark = u32 r.mark;
  mask = some full_mask;
  table = r.table;
  protocol = 4;
}

-- Where a new rule has no selector, the rule that is added is one that a later call matches.
pub matches_rule-build_rule :
    (new_rule : Rule) (r : FwmarkRule)
    → has_other_selector new_rule ≡ false
    → matches_rule (build_rule new_rule r) r ≡ true
unfolding matches_rule build_rule has_other_selector
matches_rule-build_rule new_rule r h =
    let same_family : eq_ℤ (number r.family) (number r.family) ≡ true =
      (eq_ℤ_iff (number r.family) (number r.family)).1 refl in
    let same_table : eq_ℤ r.table r.table ≡ true = (eq_ℤ_iff r.table r.table).1 refl in
    let same_mark : (u32 r.mark == u32 r.mark) ≡ true = (==_iff (u32 r.mark) (u32 r.mark)).1 refl in
    rw (same_family, same_table, same_mark, h) refl

-- `new_rule` is `netlink.NewRule`, `ops` the seam of the netlink calls, and `is_exist` the test for
-- EEXIST.
module _ {W E : Type 0} (new_rule : Rule) (list : ℤ → W → Result E (List Rule) × W)
    (add del : Rule → W → Option E × W) (is_exist : E → Bool) (cancelled : W → Bool) where
  -- The loop over the copies after the first, with the number removed so far.
  pub delete_copies : List Rule → ℕ → W → Ensured W E
  delete_copies [] removed w = (removed, none, w)
  delete_copies (k ∷ ks) removed w =
      let (e, w') = del k w in
      elim e [
        | none ↦ delete_copies ks (removed + 1) w'
        | some x ↦ (removed, some (delete_failed x), w')
      ]

  abbrev added : Option E × W → Ensured W E
  added (none, w) = (0, none, w)
  added (some e, w) = if is_exist e then (0, none, w) else (0, some (add_failed e), w)

  -- With the matching rules, sorted: none is added to, and of several the first is kept.
  abbrev settle : FwmarkRule → List Rule → W → Ensured W E
  settle r [] w = added (add (build_rule new_rule r) w)
  settle r (k ∷ copies) w = delete_copies copies 0 w

  abbrev listed : FwmarkRule → Result E (List Rule) × W → Ensured W E
  listed r (err e, w) = (0, some (list_failed e), w)
  listed r (ok rules, w) =
      if cancelled w
      then (0, some context_done, w)
      else settle r (sort_by by_priority (keep (λ k. matches_rule k r) rules)) w

  abbrev valid : FwmarkRule → W → Check → Ensured W E
  valid r w (err e) = (0, some (invalid e), w)
  valid r w (ok _) = listed r (list (number r.family) w)

  unfoldable pub ensure_rule : FwmarkRule → W → Ensured W E
  unfolding validate_rule matches_rule delete_copies build_rule
  ensure_rule r w = if cancelled w then (0, some context_done, w) else valid r w (validate_rule r)
