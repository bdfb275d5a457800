-- ===== src/Daemon/Handlers/Keeps.antt =====
-- An invariant of the daemon over the handlers of daemon/cmd/wanwatchd/daemon.go.
use nixos_wanwatch.Prelude.{
  Bool, none, List, [], ◌∷◌, String, ok, err, All, arith, any, ◌>>=◌, if◌then◌else◌,
}
use nixos_wanwatch.Prelude.Dict.{lookup}
use nixos_wanwatch.Prelude.Text.{str_eq}
use nixos_wanwatch.Probe.Float.{Floats}
use nixos_wanwatch.Selector
use nixos_wanwatch.Decision.Traces.{Call, recompute_call, probe_call, route_call}
use nixos_wanwatch.Rtnl.Event.{LinkEvent, RouteEvent}
use nixos_wanwatch.Config.Types as Types
use nixos_wanwatch.Health.Wans as Wans
use nixos_wanwatch.Health.Wans.{Change, ProbeResult}
use nixos_wanwatch.Health.Wans.Links.{link}
use nixos_wanwatch.Daemon.{Outside, Env, Daemon}
use nixos_wanwatch.Daemon.Gateways.{get}
use nixos_wanwatch.Daemon.Publish.{write_state_snapshot}
use nixos_wanwatch.Daemon.Handlers.{
  or_zero, Running, Loop, left, unless_cancelled, republish_if, ask, recompute_one, recompute_each,
  group_contains_wan, recompute_affected_groups, ask_each, retry_group_decisions, recompute_flipped,
  publish_health_change, handle_probe_result, handle_link_event, route_each, republish_after,
  gateway_changed, handle_route_event, observe_gateway, names,
}

-- `May e` says that the handlers may ask the Group of an entry of the configuration.
module _ {fl : Floats} {W E : Type 0} (out : Outside fl W E) (P : Running out → Type 0)
    (May : String × Selector.Group → Type 0)
    (may : (d : Daemon fl) (env : Env W) → P (d, env) → All May d.cfg.groups)
    (ask_keeps : (name : String) (g : Selector.Group) (call : Call) (d : Daemon fl) (env : Env W)
      → May (name, g)
      → P (d, env)
      → P (ask out name g call (d, env)))
    (own_keeps : (name : String) (call : Call) (d : Daemon fl) (env : Env W)
      → P (d, env)
      → P (ask out name (or_zero (lookup str_eq name d.cfg.groups)) call (d, env)))
    (snapshot_keeps : (d : Daemon fl) (env : Env W)
      → P (d, env)
      → P (d, write_state_snapshot out none d env)) where
  abbrev Holds : Loop out → Type 0
  Holds l = P (left out l)

  unless-Holds :
      (d : Daemon fl) (env : Env W) (next : Running out)
      → P (d, env)
      → P next
      → Holds (unless_cancelled out (d, env) next)
  unless-Holds d env next p q = ground arith

  bind-Holds :
      (l : Loop out) (f : Running out → Loop out)
      → Holds l
      → ((s : Running out) → P s → Holds (f s))
      → Holds (l >>= f)
  bind-Holds (ok s) f h k = k s h
  bind-Holds (err s) f h k = h

  if-Holds : (b : Bool) (x y : Running out) → P x → P y → P (if b then x else y)
  if-Holds b x y p q = ground arith

  recompute_each-Holds :
      (wan reason : String) (gs : List (String × Selector.Group)) (s : Running out)
      → All May gs
      → P s
      → Holds (recompute_each out wan reason gs s)
  unfolding recompute_each recompute_one
  recompute_each-Holds wan reason [] s a p = p
  recompute_each-Holds wan reason ((name, g) ∷ gs) (d, env) a p =
      let call = recompute_call (Wans.member_health fl d.health g) reason in
      bind-Holds (recompute_one out wan reason (name, g) (d, env))
        (recompute_each out wan reason gs)
        (unless-Holds d env
          (if group_contains_wan g wan then ask out name g call (d, env) else (d, env)) p
          (if-Holds (group_contains_wan g wan) (ask out name g call (d, env)) (d, env)
            (ask_keeps name g call d env a.0 p) p))
        (λ s q. recompute_each-Holds wan reason gs s a.1 q)

  recompute_affected_groups-Holds :
      (wan reason : String) (s : Running out) → P s → P (recompute_affected_groups out wan reason s)
  unfolding recompute_affected_groups
  recompute_affected_groups-Holds wan reason (d, env) p =
      recompute_each-Holds wan reason d.cfg.groups (d, env) (may d env p) p

  ask_each-Holds :
      (call : Call) (ns : List String) (s : Running out) → P s → Holds (ask_each out call ns s)
  unfolding ask_each
  ask_each-Holds call [] s p = p
  ask_each-Holds call (name ∷ ns) (d, env) p =
      bind-Holds
        (unless_cancelled out (d, env)
          (ask out name (or_zero (lookup str_eq name d.cfg.groups)) call (d, env)))
        (ask_each out call ns)
        (unless-Holds d env (ask out name (or_zero (lookup str_eq name d.cfg.groups)) call (d, env))
          p (own_keeps name call d env p))
        (λ s q. ask_each-Holds call ns s q)

  retry_group_decisions-Holds :
      (wan : String) (s : Running out) → P s → P (retry_group_decisions out wan s)
  unfolding retry_group_decisions
  retry_group_decisions-Holds wan (d, env) p =
      ask_each-Holds (probe_call wan) (names d.groups) (d, env) p

  recompute_flipped-Holds :
      (reason : String) (wans : List String) (s : Running out)
      → P s
      → P (recompute_flipped out reason wans s)
  unfolding recompute_flipped
  recompute_flipped-Holds reason [] s p = p
  recompute_flipped-Holds reason (wan ∷ wans) s p =
      recompute_flipped-Holds reason wans (recompute_affected_groups out wan reason s)
        (recompute_affected_groups-Holds wan reason s p)

  republish_if-Holds : (b : Bool) (s : Running out) → P s → P (republish_if out b s)
  republish_if-Holds b (d, env) p = ground (arith, snapshot_keeps d env p)

  pub publish_health_change-Holds :
      (c : Change) (reason : String) (s : Running out)
      → P s
      → P (publish_health_change out c reason s)
  unfolding publish_health_change
  publish_health_change-Holds c reason s p =
      republish_if-Holds c.republish (recompute_flipped out reason c.flipped s)
        (recompute_flipped-Holds reason c.flipped s p)

  route_each-Holds :
      (e : RouteEvent) (wans : List (String × Types.Wan)) (s : Running out)
      → P s
      → Holds (route_each out e wans s)
  unfolding route_each
  route_each-Holds e [] s p = p
  route_each-Holds e ((wan_name, wan) ∷ wans) (d, env) p =
      bind-Holds
        (if str_eq wan.interface e.iface
          then ask_each out (route_call wan_name e.family) (names d.groups) (d, env)
          else ok (d, env))
        (route_each out e wans)
        (ground (arith, ask_each-Holds (route_call wan_name e.family) (names d.groups) (d, env) p))
        (λ s q. route_each-Holds e wans s q)

  republish_after-Holds : (b : Bool) (l : Loop out) → Holds l → P (republish_after out b l)
  unfolding republish_after
  republish_after-Holds b (err s) p = p
  republish_after-Holds b (ok s) p = republish_if-Holds b s p

  pub handle_route_event-Holds :
      (e : RouteEvent) (d : Daemon fl) (env : Env W)
      → P (record d { gateways = observe_gateway e d.gateways }, env)
      → P (handle_route_event out e (d, env))
  unfolding handle_route_event
  handle_route_event-Holds e d env p =
      let now : Running out = (record d { gateways = observe_gateway e d.gateways }, env) in
      republish_after-Holds (gateway_changed out e (get e.iface e.family d.gateways))
        (route_each out e d.cfg.wans now) (route_each-Holds e d.cfg.wans now p)

  pub handle_probe_result-Holds :
      (r : ProbeResult fl) (d : Daemon fl) (env : Env W)
      → P (record d { health = (Wans.probe fl d.health r).0 }, env)
      → P (handle_probe_result out r (d, env))
  unfolding handle_probe_result
  handle_probe_result-Holds r d env p =
      let now : Running out = (record d { health = (Wans.probe fl d.health r).0 }, env) in
      let c = (Wans.probe fl d.health r).1 in
      let q = publish_health_change-Holds c "health" now p in
      if-Holds (any (λ wan. str_eq wan r.wan) c.flipped) (publish_health_change out c "health" now)
        (retry_group_decisions out r.wan (publish_health_change out c "health" now)) q
        (retry_group_decisions-Holds r.wan (publish_health_change out c "health" now) q)

  pub handle_link_event-Holds :
      (e : LinkEvent) (d : Daemon fl) (env : Env W)
      → P (record d { health = (link fl d.health e).0 }, env)
      → P (handle_link_event out e (d, env))
  unfolding handle_link_event
  handle_link_event-Holds e d env p =
      publish_health_change-Holds (link fl d.health e).1 "carrier"
        (record d { health = (link fl d.health e).0 }, env) p
