-- ===== src/Daemon/Routes.antt =====
-- applyRoutes of daemon/cmd/wanwatchd/daemon.go: the default routes of a Selection.
pub mod Due
pub mod World
use nixos_wanwatch.Prelude.{
  ℕ, zero, suc, Bool, true, false, not, Option, none, some, List, [], ◌∷◌, ◌++◌, String, any,
  Result, ok, err, ◌>>=◌, if◌then◌else◌,
}
use nixos_wanwatch.Prelude.Int.{ℤ}
use nixos_wanwatch.Prelude.Dict.{lookup}
use nixos_wanwatch.Prelude.Text.{str_eq}
use nixos_wanwatch.Probe.Family.{Family, eq_family}
use nixos_wanwatch.Probe.Float.{Floats}
use nixos_wanwatch.Selector
use nixos_wanwatch.Rtnl.Event.{Ip}
use nixos_wanwatch.Config.Types as Types
use nixos_wanwatch.Config.Types.{families}
use nixos_wanwatch.Apply.Route.{DefaultRoute}
use nixos_wanwatch.Health.Wans.Snapshot.{family_text}
use nixos_wanwatch.Daemon.{
  Metric, apply_op_errors_inc, apply_route_errors_inc, apply_route_duration_observe, Outside, Env,
  GatewayCache, Daemon,
}
use nixos_wanwatch.Daemon.Gateways.{get}

-- The error of a call; `writes_failed` counts the failed writes.
pub data RoutesError (E : Type 0) : Type 0 where
  unknown_wan : String → RoutesError E
  no_index : String → E → RoutesError E
  stopped : RoutesError E
  writes_failed : ℕ → RoutesError E

abbrev by_gateway : Selector.Group → ℤ → Family → Option Ip → Option DefaultRoute
by_gateway g if_index fam none = none
by_gateway g if_index fam (some none) = none
by_gateway g if_index fam (some (some bytes)) = some (record {
  family = fam;
  table = g.table;
  gateway = some bytes;
  if_index = if_index;
  point_to_point = false;
})

-- The route that `writeOne` writes for a Family: none without a cached gateway.
unfoldable pub route_for :
    GatewayCache → Types.Wan → Selector.Group → ℤ → Family → Option DefaultRoute
unfolding get
route_for gateways wan g if_index fam =
    if wan.point_to_point
    then some (record {
      family = fam;
      table = g.table;
      gateway = none;
      if_index = if_index;
      point_to_point = true;
    })
    else by_gateway g if_index fam (get wan.interface fam gateways)

abbrev pub contains : List Family → Family → Bool
contains fams fam = any (λ f. eq_family f fam) fams

-- No Families stand for all that the WAN probes.
abbrev pub wanted : List Family → List Family → List Family
wanted probed [] = probed
wanted probed (fam ∷ fams) = fam ∷ fams

abbrev pub add_metric : {W : Type 0} → Metric → Env W → Env W
add_metric m env = record env { metrics = env.metrics ++ m ∷ [] }

module _ {fl : Floats} {W E : Type 0} (out : Outside fl W E) where
  abbrev written : String → String → ℕ → List Metric → Option E × W → Bool × Env W
  written group fam started ms (none, w) = (
    false,
    record {
      metrics = ms ++ apply_route_duration_observe group fam started (out.now w) ∷ [];
      world = w;
    },
  )
  written group fam started ms (some e, w) = (
    true,
    record {
      metrics =
          ms
          ++ apply_route_duration_observe group fam started (out.now w)
            ∷ apply_route_errors_inc group fam
            ∷ [];
      world = w;
    },
  )

  -- `writeOne`: whether the write failed. Without a route there is none.
  pub write_one : Selector.Group → Family → Option DefaultRoute → Env W → Bool × Env W
  unfolding family_text
  write_one g fam none env = (false, env)
  write_one g fam (some route) env =
      written g.name (family_text out.itoa fam) (out.now env.world) env.metrics
        (out.write_route route env.world)

  -- The number of failed writes so far, or the early return with what was written until then.
  abbrev pub Loop : Type 0
  Loop = Result (RoutesError E × Env W) (ℕ × Env W)

  module _ (probed : List Family) (g : Selector.Group) (route : Family → Option DefaultRoute) where
    pub write_family : Family → ℕ × Env W → Loop
    unfolding write_one
    write_family fam (failed, env) =
        let (bad, env') = write_one g fam (route fam) env in
        if not (contains probed fam)
        then ok (failed, env)
        else if out.cancelled env.world
        then err (stopped, env)
        else ok (if bad then suc failed else failed, env')

    pub write_each : List Family → ℕ × Env W → Loop
    unfolding write_family
    write_each [] s = ok s
    write_each (fam ∷ fams) s = write_family fam s >>= write_each fams

  abbrev pub finished : Loop → Option (RoutesError E) × Env W
  finished (ok (zero, env)) = (none, env)
  finished (ok (suc n, env)) = (some (writes_failed (suc n)), env)
  finished (err (e, env)) = (some e, env)

  pub with_index :
      GatewayCache
      → Selector.Group
      → Types.Wan
      → List Family
      → List Metric
      → Result E ℤ × W
      → Option (RoutesError E) × Env W
  unfolding write_each route_for
  with_index gateways g wan fams ms (err e, w) = (
    some (no_index wan.interface e),
    record { metrics = ms ++ apply_op_errors_inc g.name "ifindex_lookup" ∷ []; world = w },
  )
  with_index gateways g wan fams ms (ok i, w) =
      let probed = families wan.probe.targets in
      finished (
        write_each probed g (route_for gateways wan g i) (wanted probed fams)
          (0, record { metrics = ms; world = w }))

  pub with_wan :
      GatewayCache
      → Selector.Group
      → String
      → List Family
      → Env W
      → Option Types.Wan
      → Option (RoutesError E) × Env W
  unfolding with_index
  with_wan gateways g selection fams env none = (some (unknown_wan selection), env)
  with_wan gateways g selection fams env (some wan) =
      with_index gateways g wan fams env.metrics (out.if_index wan.interface env.world)

  -- `none` is success.
  unfoldable pub apply_routes :
      Daemon fl → Selector.Group → String → List Family → Env W → Option (RoutesError E) × Env W
  unfolding with_wan
  apply_routes d g selection fams env =
      with_wan d.gateways g selection fams env (lookup str_eq selection d.cfg.wans)

  abbrev failed_to : Option (RoutesError E) × Env W → Env W × Bool
  failed_to (none, env) = (env, false)
  failed_to (some e, env) = (env, true)

  -- The function that a Group gets to apply its routes.
  unfoldable pub group_apply :
      Daemon fl → Selector.Group → String → List Family → Env W → Env W × Bool
  unfolding apply_routes
  group_apply d g selection fams env = failed_to (apply_routes d g selection fams env)
