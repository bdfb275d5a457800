-- ===== src/Daemon/Loop.antt =====
-- Start-up (bootstrap, prime of daemon/cmd/wanwatchd/daemon.go) and the event loop (eventloop.go).
pub mod Holds
pub mod Kept
pub mod Tables
use nixos_wanwatch.Prelude.{
  ℕ, ◌||◌, Option, none, some, List, [], ◌∷◌, ◌++◌, String, ltb, length, if◌then◌else◌,
}
use nixos_wanwatch.Probe.Family.{Family, all_families}
use nixos_wanwatch.Probe.Float.{Floats}
use nixos_wanwatch.Selector
use nixos_wanwatch.Rtnl.Event.{LinkEvent, RouteEvent}
use nixos_wanwatch.Health.Wans as Wans
use nixos_wanwatch.Health.Wans.{Change, ProbeResult}
use nixos_wanwatch.Health.Wans.Links.{link}
use nixos_wanwatch.Apply.Rule.{FwmarkRule}
use nixos_wanwatch.Daemon.{Metric, apply_op_errors_inc, Outside, Env, GatewayCache, Daemon}
use nixos_wanwatch.Daemon.Gateways.{set}
use nixos_wanwatch.Daemon.Publish.{write_state_snapshot}
use nixos_wanwatch.Daemon.Handlers.{
  Running, is_cancelled, publish_health_change, handle_probe_result, handle_link_event,
  handle_route_event, reason_carrier,
}

pub record StartupSnapshot : Type 0 where
  pub links : List LinkEvent
  pub routes : List RouteEvent

-- What a `select` of the event loop takes.
pub data Message (fl : Floats) : Type 0 where
  challenge : Message fl
  probe_result : ProbeResult fl → Message fl
  link_event : LinkEvent → Message fl
  route_event : RouteEvent → Message fl

abbrev pub learn_all : List RouteEvent → GatewayCache → GatewayCache
learn_all [] c = c
learn_all (e ∷ es) c = learn_all es (set e.iface e.family e.gateway c)

pub fold_links : {fl : Floats} → List LinkEvent → Wans.Wans fl → Change → Wans.Wans fl × Change
unfolding link
fold_links [] w c = (w, c)
fold_links {fl} (e ∷ es) w c =
    let (w', d) = link fl w e in
    fold_links es w'
      (record { flipped = c.flipped ++ d.flipped; republish = c.republish || d.republish })

abbrev pub fwmark_rule : Selector.Group → Family → FwmarkRule
fwmark_rule g fam = record { family = fam; mark = g.mark; table = g.table }

module _ {fl : Floats} {W E : Type 0} (out : Outside fl W E) where
  -- The rules of one Group, then `next`.
  abbrev ensured :
      String → List Metric → ℕ × Option E × W → (Env W → Option E × Env W) → Option E × Env W
  ensured group ms (removed, none, w) next = next (record { metrics = ms; world = w })
  ensured group ms (removed, some e, w) next =
      (some e, record { metrics = ms ++ apply_op_errors_inc group "rule_install" ∷ []; world = w })

  ensure_families :
      Selector.Group → List Family → (Env W → Option E × Env W) → Env W → Option E × Env W
  ensure_families g [] next env = next env
  ensure_families g (fam ∷ fams) next env =
      ensured g.name env.metrics (out.ensure_rule (fwmark_rule g fam) env.world)
        (ensure_families g fams next)

  pub ensure_groups : List (String × Selector.Group) → Env W → Option E × Env W
  unfolding ensure_families
  ensure_groups [] env = (none, env)
  ensure_groups ((name, g) ∷ gs) env = ensure_families g all_families (ensure_groups gs) env

  abbrev first_state : Daemon fl → Option E × Env W → Option E × Env W
  first_state d (none, env) = (none, write_state_snapshot out none d env)
  first_state d (some e, env) = (some e, env)

  -- `none` is success.
  unfoldable pub bootstrap : Daemon fl → Env W → Option E × Env W
  unfolding ensure_groups write_state_snapshot
  bootstrap d env = first_state d (ensure_groups d.cfg.groups env)

  unfoldable pub prime : StartupSnapshot → Running out → Running out
  unfolding fold_links publish_health_change set
  prime snapshot (d, env) =
      let (health, change) =
        fold_links snapshot.links d.health
          (record { flipped = []; republish = ltb 0 (length snapshot.routes) }) in
      let primed = record d { gateways = learn_all snapshot.routes d.gateways; health = health } in
      if is_cancelled out env
      then (d, env)
      else publish_health_change out change reason_carrier (primed, env)

  -- The loop over the messages in the order in which `select` takes them. Only a challenge is answered
  -- without a look at the context.
  unfoldable pub event_loop : List (Message fl) → Running out → Running out
  unfolding handle_probe_result handle_link_event handle_route_event
  event_loop [] s = s
  event_loop (challenge ∷ ms) s = event_loop ms s
  event_loop (probe_result r ∷ ms) (d, env) =
      let rest = event_loop ms (handle_probe_result out r (d, env)) in
      if is_cancelled out env then (d, env) else rest
  event_loop (link_event e ∷ ms) (d, env) =
      let rest = event_loop ms (handle_link_event out e (d, env)) in
      if is_cancelled out env then (d, env) else rest
  event_loop (route_event e ∷ ms) (d, env) =
      let rest = event_loop ms (handle_route_event out e (d, env)) in
      if is_cancelled out env then (d, env) else rest

  abbrev closed : Running out → Running out
  closed (d, env) = (d, record env { world = out.close_hooks env.world })

  unfoldable pub serve : List (Message fl) → Running out → Running out
  unfolding event_loop
  serve ms s = closed (event_loop ms s)
