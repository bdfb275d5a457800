-- ===== src/Daemon/Routes/Due.antt =====
-- The routes that applyRoutes of daemon/cmd/wanwatchd/daemon.go writes, and when it fails.
use nixos_wanwatch.Prelude.{
  ◌≢◌, ◌⊎◌, inl, inr, if_holds, ℕ, suc, ◌≡◌, ◌↔◌, refl, ◌∙◌, ap, Bool, true, false, Option, none,
  some, List, [], ◌∷◌, String, err, if◌then◌else◌, arith,
}
use nixos_wanwatch.Prelude.Int.{ℤ}
use nixos_wanwatch.Prelude.Dict.{lookup}
use nixos_wanwatch.Prelude.Text.{str_eq}
use nixos_wanwatch.Probe.Family.{Family}
use nixos_wanwatch.Probe.Float.{Floats}
use nixos_wanwatch.Selector
use nixos_wanwatch.Config.Types as Types
use nixos_wanwatch.Apply.Route.{DefaultRoute}
use nixos_wanwatch.Daemon.{apply_op_errors_inc, Outside, Env, GatewayCache, Daemon}
use nixos_wanwatch.Daemon.Gateways.{get}
use nixos_wanwatch.Rtnl.Event.{Ip}
use nixos_wanwatch.Daemon.Routes.{
  RoutesError, unknown_wan, no_index, add_metric, by_gateway, route_for, contains, write_one,
  with_index, with_wan, apply_routes,
}

-- The routes of the Families that the WAN probes and that have one.
unfoldable pub due :
    List Family → (Family → Option DefaultRoute) → List Family → List (Family × DefaultRoute)
due probed route [] = []
due probed route (fam ∷ fams) =
    let rest = due probed route fams in
    if contains probed fam
    then elim (route fam) [ none ↦ rest | some r ↦ (fam, r) ∷ rest ]
    else rest

-- The route of a Family: by the link of a point-to-point interface, else by the cached gateway, and none
-- where none is cached.
abbrev pub Goes :
    GatewayCache → Types.Wan → Selector.Group → ℤ → Family → Option DefaultRoute → Type 0
Goes gateways wan g i fam o =
    (wan.point_to_point ≡ true)
      × (o
          ≡ some (record {
            family = fam;
            table = g.table;
            gateway = none;
            if_index = i;
            point_to_point = true;
          }))
    ⊎ (wan.point_to_point ≡ false)
      × (((b : List ℕ) × (get wan.interface fam gateways ≡ some (some b))
            × (o
                ≡ some (record {
                  family = fam;
                  table = g.table;
                  gateway = some b;
                  if_index = i;
                  point_to_point = false;
                })))
          ⊎ ((b : List ℕ) → get wan.interface fam gateways ≢ some (some b)) × (o ≡ none))

by_gateway-Goes :
    (gateways : GatewayCache) (wan : Types.Wan) (g : Selector.Group) (i : ℤ) (fam : Family)
    (o : Option Ip)
    → get wan.interface fam gateways ≡ o
    → wan.point_to_point ≡ false
    → Goes gateways wan g i fam (by_gateway g i fam o)
by_gateway-Goes gateways wan g i fam none e p = inr (p, inr (λ b h. ground (arith, e, h), refl))
by_gateway-Goes gateways wan g i fam (some none) e p =
    inr (p, inr (λ b h. ground (arith, e, h), refl))
by_gateway-Goes gateways wan g i fam (some (some b)) e p = inr (p, inl (b, e, refl))

pub route_for-Goes :
    (gateways : GatewayCache) (wan : Types.Wan) (g : Selector.Group) (i : ℤ) (fam : Family)
    → Goes gateways wan g i fam (route_for gateways wan g i fam)
unfolding route_for
route_for-Goes gateways wan g i fam =
    if_holds (Goes gateways wan g i fam) wan.point_to_point (λ e. inl (e, refl))
      (λ e. by_gateway-Goes gateways wan g i fam (get wan.interface fam gateways) refl e)

module _ {fl : Floats} {W E : Type 0} (out : Outside fl W E) where
  abbrev count : Bool → ℕ → ℕ
  count true n = suc n
  count false n = n

  -- Every route in order, whatever the others' writes gave, and how many failed.
  pub write_all : Selector.Group → List (Family × DefaultRoute) → ℕ × Env W → ℕ × Env W
  write_all g [] s = s
  write_all g ((fam, r) ∷ rs) (n, env) =
      let (bad, env') = write_one out g fam (some r) env in write_all g rs (count bad n, env')

  step_all : Selector.Group → Family → Bool → Option DefaultRoute → ℕ × Env W → ℕ × Env W
  step_all g fam false o s = s
  step_all g fam true none s = s
  step_all g fam true (some r) (n, env) =
      let (bad, env') = write_one out g fam (some r) env in (count bad n, env')

  -- The context stands before each of the writes and after the last.
  unfoldable pub Live : Selector.Group → List (Family × DefaultRoute) → ℕ × Env W → Type 0
  Live g [] (n, env) = out.cancelled env.world ≡ false
  Live g ((fam, r) ∷ rs) (n, env) =
      (out.cancelled env.world ≡ false)
      × (let (bad, env') = write_one out g fam (some r) env in Live g rs (count bad n, env'))

  abbrev pub Says : Option (RoutesError E) × Env W → ℕ × Env W → Type 0
  Says (e, env) (n, env') = (env ≡ env') × ((e ≡ none) ↔ (n ≡ 0))

  -- An Apply of an unknown WAN, or of one whose interface has no index, fails and writes no route.
  pub apply_routes_refused :
      (d : Daemon fl) (g : Selector.Group) (selection : String) (fams : List Family) (env : Env W)
      → (lookup str_eq selection d.cfg.wans ≡ none
          → apply_routes out d g selection fams env ≡ (some (unknown_wan selection), env))
        × ((wan : Types.Wan) (e : E)
            → lookup str_eq selection d.cfg.wans ≡ some wan
            → (out.if_index wan.interface env.world).0 ≡ err e
            → apply_routes out d g selection fams env ≡ (
              some (no_index wan.interface e),
              add_metric
                  (apply_op_errors_inc g.name "ifindex_lookup")
                  (record env { world = (out.if_index wan.interface env.world).1 }),
            ))
  unfolding apply_routes with_wan with_index
  apply_routes_refused d g selection fams env = (
    λ h. ap (with_wan out d.gateways g selection fams env) h,
    λ wan e h r.
        ap (with_wan out d.gateways g selection fams env) h
        ∙ ap
            (λ r.
              with_index out d.gateways g wan fams env.metrics
                (r, (out.if_index wan.interface env.world).1))
            r,
  )
