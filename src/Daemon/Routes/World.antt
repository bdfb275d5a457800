-- ===== src/Daemon/Routes/World.antt =====
-- Into which tables applyRoutes of daemon/cmd/wanwatchd/daemon.go writes.
use nixos_wanwatch.Prelude.{
  ℕ, zero, suc, ◌≡◌, refl, not, Option, none, some, List, [], ◌∷◌, String, Result, ok, err, ◌>>=◌,
  if_holds,
}
use nixos_wanwatch.Prelude.Int.{ℤ}
use nixos_wanwatch.Prelude.Dict.{lookup}
use nixos_wanwatch.Prelude.Text.{str_eq}
use nixos_wanwatch.Probe.Family.{Family}
use nixos_wanwatch.Probe.Float.{Floats}
use nixos_wanwatch.Selector
use nixos_wanwatch.Rtnl.Event.{Ip}
use nixos_wanwatch.Config.Types as Types
use nixos_wanwatch.Config.Types.{families}
use nixos_wanwatch.Apply.Route.{DefaultRoute}
use nixos_wanwatch.Daemon.{Metric, Outside, Env, GatewayCache, Daemon}
use nixos_wanwatch.Daemon.Gateways.{get}
use nixos_wanwatch.Daemon.Routes.{
  RoutesError, by_gateway, route_for, contains, wanted, written, write_one, Loop, write_family,
  write_each, finished, with_index, with_wan, apply_routes, failed_to, group_apply,
}
use nixos_wanwatch.Daemon.World.{Keeps}

-- A route is for the table.
abbrev HasTable : ℤ → Option DefaultRoute → Type 0
HasTable t none = Unit
HasTable t (some r) = r.table ≡ t

by_gateway-HasTable :
    (g : Selector.Group) (i : ℤ) (fam : Family) (o : Option Ip)
    → HasTable g.table (by_gateway g i fam o)
by_gateway-HasTable g i fam none = tt
by_gateway-HasTable g i fam (some none) = tt
by_gateway-HasTable g i fam (some (some b)) = refl

route_for-HasTable :
    (gateways : GatewayCache) (wan : Types.Wan) (g : Selector.Group) (i : ℤ) (fam : Family)
    → HasTable g.table (route_for gateways wan g i fam)
unfolding route_for
route_for-HasTable gateways wan g i fam =
    if_holds (HasTable g.table) wan.point_to_point (λ e. refl)
      (λ e. by_gateway-HasTable g i fam (get wan.interface fam gateways))

module _ {fl : Floats} {W E : Type 0} {out : Outside fl W E} {Q : W → Type 0}
    {May : DefaultRoute → Type 0} (k : Keeps out Q May) (g : Selector.Group)
    (may : (r : DefaultRoute) → r.table ≡ g.table → May r) where
  written-Keeps :
      (group fam : String) (started : ℕ) (ms : List Metric) (x : Option E × W)
      → Q x.1
      → Q (written out group fam started ms x).1.world
  written-Keeps group fam started ms (none, w) q = q
  written-Keeps group fam started ms (some e, w) q = q

  write_one-Keeps :
      (fam : Family) (o : Option DefaultRoute) (env : Env W)
      → HasTable g.table o
      → Q env.world
      → Q (write_one out g fam o env).1.world
  unfolding write_one
  write_one-Keeps fam none env h q = q
  write_one-Keeps fam (some r) env h q =
      written-Keeps g.name _ (out.now env.world) env.metrics (out.write_route r env.world)
        (k.write_keeps r env.world (may r h) q)

  abbrev Left : Loop out → Type 0
  Left (ok (n, env)) = Q env.world
  Left (err (e, env)) = Q env.world

  bind-Left :
      (l : Loop out) (f : ℕ × Env W → Loop out)
      → Left l
      → ((s : ℕ × Env W) → Q s.1.world → Left (f s))
      → Left (l >>= f)
  bind-Left (ok (n, env)) f q h = h (n, env) q
  bind-Left (err (e, env)) f q h = q

  finished-Left : (l : Loop out) → Left l → Q (finished out l).1.world
  finished-Left (ok (zero, env)) q = q
  finished-Left (ok (suc n, env)) q = q
  finished-Left (err (e, env)) q = q

  module _ (probed : List Family) (route : Family → Option DefaultRoute)
      (tables : (fam : Family) → HasTable g.table (route fam)) where
    write_family-Left :
        (fam : Family) (s : ℕ × Env W) → Q s.1.world → Left (write_family out probed g route fam s)
    unfolding write_family
    write_family-Left fam (n, env) q =
        if_holds Left (not (contains probed fam)) (λ e. q)
          (λ e.
            if_holds Left (out.cancelled env.world) (λ f. q)
              (λ f. write_one-Keeps fam (route fam) env (tables fam) q))

    write_each-Left :
        (fams : List Family) (s : ℕ × Env W)
        → Q s.1.world
        → Left (write_each out probed g route fams s)
    unfolding write_each
    write_each-Left [] s q = q
    write_each-Left (fam ∷ fams) s q =
        bind-Left (write_family out probed g route fam s) (write_each out probed g route fams)
          (write_family-Left fam s q) (λ s' q'. write_each-Left fams s' q')

  with_index-Keeps :
      (gateways : GatewayCache) (wan : Types.Wan) (fams : List Family) (ms : List Metric)
      (x : Result E ℤ × W)
      → Q x.1
      → Q (with_index out gateways g wan fams ms x).1.world
  unfolding with_index
  with_index-Keeps gateways wan fams ms (err e, w) q = q
  with_index-Keeps gateways wan fams ms (ok i, w) q =
      let probed = families wan.probe.targets in
      let route = route_for gateways wan g i in
      finished-Left
        (write_each out probed g route (wanted probed fams) (0, record { metrics = ms; world = w }))
        (write_each-Left probed route (route_for-HasTable gateways wan g i) (wanted probed fams)
          (0, record { metrics = ms; world = w }) q)

  with_wan-Keeps :
      (gateways : GatewayCache) (selection : String) (fams : List Family) (env : Env W)
      (o : Option Types.Wan)
      → Q env.world
      → Q (with_wan out gateways g selection fams env o).1.world
  unfolding with_wan
  with_wan-Keeps gateways selection fams env none q = q
  with_wan-Keeps gateways selection fams env (some wan) q =
      with_index-Keeps gateways wan fams env.metrics (out.if_index wan.interface env.world)
        (k.index_keeps wan.interface env.world q)

  failed_to-Keeps : (x : Option (RoutesError E) × Env W) → Q x.1.world → Q (failed_to out x).0.world
  failed_to-Keeps (none, env) q = q
  failed_to-Keeps (some e, env) q = q

  -- An Apply keeps what the writes into the Group's table keep.
  pub group_apply-Keeps :
      (d : Daemon fl) (selection : String) (fams : List Family) (env : Env W)
      → Q env.world
      → Q (group_apply out d g selection fams env).0.world
  unfolding group_apply apply_routes
  group_apply-Keeps d selection fams env q =
      failed_to-Keeps (apply_routes out d g selection fams env)
        (with_wan-Keeps d.gateways selection fams env (lookup str_eq selection d.cfg.wans) q)
