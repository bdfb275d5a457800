-- ===== src/Apply/Route.antt =====
-- daemon/internal/apply/route.go: the default route of a Selection. The replacer of routes is a
-- parameter over a world `W`, and `cancelled` reads the context.
use nixos_wanwatch.Prelude.{
  ap, ◌∙◌, ◌↔◌, ℕ, ◌≡◌, refl, ◌⊎◌, Bool, true, false, not, Option, none, some, List, ok, err, ◌>>◌,
  refuse_if, if◌then◌else◌, if_holds, arith, inl, inr,
}
use nixos_wanwatch.Prelude.Int.{ℤ, pos, leb_ℤ, ltb_ℤ}
use nixos_wanwatch.Probe.Family.{Family, v4, v6, other, eq_family}
use nixos_wanwatch.Rtnl.Event.{Ip}
use nixos_wanwatch.Apply.{
  ApplyError, invalid_family, invalid_table, invalid_index, unwanted_gateway, Check, valid_family,
  number, validate_family_ip,
}

pub record DefaultRoute : Type 0 where
  pub family : Family
  pub table : ℤ
  pub gateway : Ip
  pub if_index : ℤ
  pub point_to_point : Bool

-- The fields that `buildRoute` sets on a netlink route: the destination is the all-zero network of a
-- Family, and `scope_link` is RT_SCOPE_LINK.
pub record KernelRoute : Type 0 where
  pub family : ℤ
  pub table : ℤ
  pub link_index : ℤ
  pub scope_link : Bool
  pub dst : Option Family
  pub gw : Ip

abbrev pub default_destination : Family → Family
default_destination v6 = v6
default_destination f = v4

pub build_route : DefaultRoute → KernelRoute
build_route d =
    if d.point_to_point
    then record {
      family = number d.family;
      table = d.table;
      link_index = d.if_index;
      scope_link = true;
      dst = some (default_destination d.family);
      gw = none;
    }
    else record {
      family = number d.family;
      table = d.table;
      link_index = d.if_index;
      scope_link = false;
      dst = none;
      gw = d.gateway;
    }

abbrev is_nil : Ip → Bool
is_nil none = true
is_nil (some _) = false

unfoldable pub validate_default_route : (List ℕ → Bool) → DefaultRoute → Check
validate_default_route is_v4 d =
    refuse_if (leb_ℤ d.table (pos 0)) (invalid_table d.table)
    >> refuse_if (leb_ℤ d.if_index (pos 0)) (invalid_index d.if_index)
    >> (if d.point_to_point
        then refuse_if (not (is_nil d.gateway)) (unwanted_gateway d.gateway)
          >> refuse_if (not (valid_family d.family)) (invalid_family d.family)
        else validate_family_ip is_v4 d.family d.gateway)

pub data WriteError (E : Type 0) : Type 0 where
  context_done : WriteError E
  invalid : ApplyError → WriteError E
  replace_failed : E → WriteError E

module _ {W E : Type 0} (is_v4 : List ℕ → Bool) (replace : KernelRoute → W → Option E × W)
    (cancelled : W → Bool) where
  abbrev replaced : Option E × W → Option (WriteError E) × W
  replaced (none, w) = (none, w)
  replaced (some e, w) = (some (replace_failed e), w)

  abbrev checked : DefaultRoute → W → Check → Option (WriteError E) × W
  checked d w (ok _) = replaced (replace (build_route d) w)
  checked d w (err e) = (some (invalid e), w)

  -- `none` is success.
  pub write_default : DefaultRoute → W → Option (WriteError E) × W
  unfolding validate_default_route
  write_default d w =
      if cancelled w then (some context_done, w) else checked d w (validate_default_route is_v4 d)

-- A route that goes by the link or by a gateway of its Family, and not by both.
abbrev pub HasWay : (List ℕ → Bool) → DefaultRoute → KernelRoute → Type 0
HasWay is_v4 d k =
    (k.dst ≡ some d.family) × (k.gw ≡ none) × (k.scope_link ≡ true) × (d.gateway ≡ none)
    ⊎ ((b : List ℕ) × (k.gw ≡ some b)
        × (is_v4 b ≡ eq_family d.family v4)
        × (k.dst ≡ none)
        × (k.scope_link ≡ false)
        × (d.gateway ≡ some b))

table_pos :
    (is_v4 : List ℕ → Bool) (d : DefaultRoute)
    → validate_default_route is_v4 d ≡ ok tt
    → ltb_ℤ (pos 0) d.table ≡ true
unfolding validate_default_route
table_pos is_v4 d h = ground arith

index_pos :
    (is_v4 : List ℕ → Bool) (d : DefaultRoute)
    → validate_default_route is_v4 d ≡ ok tt
    → ltb_ℤ (pos 0) d.if_index ≡ true
unfolding validate_default_route
index_pos is_v4 d h = ground arith

family_valid :
    (is_v4 : List ℕ → Bool) (d : DefaultRoute)
    → validate_default_route is_v4 d ≡ ok tt
    → valid_family d.family ≡ true
unfolding validate_default_route validate_family_ip
family_valid is_v4 d h = ground arith

way :
    (is_v4 : List ℕ → Bool) (family : Family) (gateway : Ip) (table if_index : ℤ) (ptp : Bool)
    → let d : DefaultRoute = record {
      family = family;
      table = table;
      gateway = gateway;
      if_index = if_index;
      point_to_point = ptp;
    } in
      validate_default_route is_v4 d ≡ ok tt → HasWay is_v4 d (build_route d)
unfolding validate_default_route build_route validate_family_ip
way is_v4 v4 none t i true h = inl (refl, refl, refl, refl)
way is_v4 v6 none t i true h = inl (refl, refl, refl, refl)
way is_v4 (other n) none t i true h = ground arith
way is_v4 f (some b) t i true h = ground arith
way is_v4 f none t i false h = ground arith
way is_v4 v4 (some b) t i false h = inr (b, refl, ground arith, refl, refl, refl)
way is_v4 v6 (some b) t i false h = inr (b, refl, ground arith, refl, refl, refl)
way is_v4 (other n) (some b) t i false h = ground arith

-- The kernel route of a default route: of its table, interface index and Family, which are positive,
-- positive and known, and by the link or by a gateway of its Family, and not by both.
abbrev pub IsRouteOf : (List ℕ → Bool) → DefaultRoute → KernelRoute → Type 0
IsRouteOf is_v4 d k =
    ((k.table ≡ d.table) × (ltb_ℤ (pos 0) k.table ≡ true))
    × ((k.link_index ≡ d.if_index) × (ltb_ℤ (pos 0) k.link_index ≡ true))
    × ((k.family ≡ number d.family) × (valid_family d.family ≡ true))
    × HasWay is_v4 d k

build_route_lem :
    (d : DefaultRoute)
    → ((build_route d).table ≡ d.table)
      × ((build_route d).link_index ≡ d.if_index)
      × ((build_route d).family ≡ number d.family)
unfolding build_route
build_route_lem d =
    if_holds
      (λ (r : KernelRoute).
        (r.table ≡ d.table) × (r.link_index ≡ d.if_index) × (r.family ≡ number d.family))
      d.point_to_point (λ e. (refl, refl, refl)) (λ e. (refl, refl, refl))

-- What is built of a default route that passes the checks.
pub validate_default_route_lem :
    (is_v4 : List ℕ → Bool) (d : DefaultRoute)
    → validate_default_route is_v4 d ≡ ok tt
    → IsRouteOf is_v4 d (build_route d)
validate_default_route_lem is_v4 d h =
    let (t, i, f) = build_route_lem d in
    (
      (t, ap (ltb_ℤ (pos 0)) t ∙ table_pos is_v4 d h),
      (i, ap (ltb_ℤ (pos 0)) i ∙ index_pos is_v4 d h),
      (f, family_valid is_v4 d h),
      way is_v4 d.family d.gateway d.table d.if_index d.point_to_point h,
    )

module _ {W E : Type 0} (is_v4 : List ℕ → Bool) (replace : KernelRoute → W → Option E × W)
    (cancelled : W → Bool) where
  -- Nothing was changed and an error is reported, or one route was replaced, and an error is reported
  -- exactly if the kernel refused it.
  unfoldable pub Wrote : DefaultRoute → W → Option (WriteError E) × W → Type 0
  Wrote d w (e, w') =
      (w' ≡ w) × ((x : WriteError E) × (e ≡ some x))
      ⊎ ((k : KernelRoute) × IsRouteOf is_v4 d k
          × (w' ≡ (replace k w).1)
          × ((e ≡ none) ↔ ((replace k w).0 ≡ none)))

  pub write_default_lem :
      (d : DefaultRoute) (w : W) → Wrote d w (write_default is_v4 replace cancelled d w)
  unfolding write_default Wrote
  write_default_lem d w =
      if_holds (Wrote d w) (cancelled w) (λ c. inl (refl, (context_done, refl)))
        (λ c. of (validate_default_route is_v4 d) refl)
    where
      world :
          (x : Option E × W)
          → let (e, v) = replaced is_v4 replace cancelled x in
            (v ≡ x.1) × ((e ≡ none) ↔ (x.0 ≡ none))
      world (none, v) = (refl, (λ h. refl, λ h. refl))
      world (some e, v) = (refl, (λ h. ground (arith, h), λ h. ground (arith, h)))

      of :
          (v : Check)
          → validate_default_route is_v4 d ≡ v
          → Wrote d w (checked is_v4 replace cancelled d w v)
      of (err e) q = inl (refl, (invalid e, refl))
      of (ok _) q =
          let (same, told) = world (replace (build_route d) w) in
          inr (build_route d, validate_default_route_lem is_v4 d q, same, told)
