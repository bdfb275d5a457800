-- ===== src/Daemon/Loop/Holds.antt =====
-- An invariant of the daemon over the messages of its event loop (daemon/cmd/wanwatchd/eventloop.go).
use nixos_wanwatch.Prelude.{none, List, [], ◌∷◌, String, All, arith, ltb, length}
use nixos_wanwatch.Prelude.Dict.{lookup}
use nixos_wanwatch.Prelude.Text.{str_eq}
use nixos_wanwatch.Probe.Float.{Floats}
use nixos_wanwatch.Selector
use nixos_wanwatch.Health.Wans as Wans
use nixos_wanwatch.Health.Wans.{ProbeResult}
use nixos_wanwatch.Health.Wans.Links.{link}
use nixos_wanwatch.Daemon.{Outside, Env, Daemon, GatewayCache}
use nixos_wanwatch.Daemon.Publish.{write_state_snapshot}
use nixos_wanwatch.Decision.Traces.{Call}
use nixos_wanwatch.Daemon.Handlers.{
  or_zero, ask, Running, handle_probe_result, handle_link_event, handle_route_event,
  observe_gateway,
}
use nixos_wanwatch.Daemon.Handlers.Keeps.{
  publish_health_change-Holds, handle_probe_result-Holds, handle_link_event-Holds,
  handle_route_event-Holds,
}
use nixos_wanwatch.Daemon.Loop.{
  Message, challenge, probe_result, link_event, route_event, StartupSnapshot, learn_all, fold_links,
  event_loop, prime,
}

module _ {fl : Floats} {W E : Type 0} (out : Outside fl W E) (P : Running out → Type 0)
    (May : String × Selector.Group → Type 0)
    (may : (d : Daemon fl) (env : Env W) → P (d, env) → All May d.cfg.groups)
    (ask_keeps : (name : String) (g : Selector.Group) (call : Call) (d : Daemon fl) (env : Env W)
      → May (name, g)
      → P (d, env)
      → P (ask out name g call (d, env)))
    (own_keeps : (name : String) (call : Call) (d : Daemon fl) (env : Env W)
      → P (d, env)
      → P (ask out name (or_zero (lookup str_eq name d.cfg.groups)) call (d, env)))
    (snapshot_keeps : (d : Daemon fl) (env : Env W)
      → P (d, env)
      → P (d, write_state_snapshot out none d env))
    (observe_keeps : (d : Daemon fl) (env : Env W) (h : Wans.Wans fl) (c : GatewayCache)
      → P (d, env)
      → P (record d { health = h; gateways = c }, env)) where
  pub event_loop-Holds : (ms : List (Message fl)) (s : Running out) → P s → P (event_loop out ms s)
  unfolding event_loop
  event_loop-Holds [] s v = v
  event_loop-Holds (challenge ∷ ms) s v = event_loop-Holds ms s v
  event_loop-Holds (probe_result r ∷ ms) (d, env) v =
      let q = event_loop-Holds ms (handle_probe_result out r (d, env)) (
        handle_probe_result-Holds out P May may ask_keeps own_keeps snapshot_keeps r d env
          (observe_keeps d env (Wans.probe fl d.health r).0 d.gateways v)) in
      ground (arith, q, v)
  event_loop-Holds (link_event e ∷ ms) (d, env) v =
      let q = event_loop-Holds ms (handle_link_event out e (d, env)) (
        handle_link_event-Holds out P May may ask_keeps own_keeps snapshot_keeps e d env
          (observe_keeps d env (link fl d.health e).0 d.gateways v)) in
      ground (arith, q, v)
  event_loop-Holds (route_event e ∷ ms) (d, env) v =
      let q = event_loop-Holds ms (handle_route_event out e (d, env)) (
        handle_route_event-Holds out P May may ask_keeps own_keeps snapshot_keeps e d env
          (observe_keeps d env d.health (observe_gateway e d.gateways) v)) in
      ground (arith, q, v)

  pub prime-Holds : (snapshot : StartupSnapshot) (s : Running out) → P s → P (prime out snapshot s)
  unfolding prime
  prime-Holds snapshot (d, env) v =
      let (health, change) =
        fold_links snapshot.links d.health
          (record { flipped = []; republish = ltb 0 (length snapshot.routes) }) in
      let gateways = learn_all snapshot.routes d.gateways in
      let q =
        publish_health_change-Holds out P May may ask_keeps own_keeps snapshot_keeps change
          "carrier" (record d { health = health; gateways = gateways }, env)
          (observe_keeps d env health gateways v) in
      ground (arith, q, v)
