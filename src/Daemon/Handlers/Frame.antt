-- ===== src/Daemon/Handlers/Frame.antt =====
-- What the handlers of daemon/cmd/wanwatchd/daemon.go leave alone, and the gateways that an observed
-- route leaves (gateway.go).
use nixos_wanwatch.Prelude.{
  ◌≡◌, refl, ap, ◌∙◌, Option, none, some, List, [], ◌∷◌, String, All, arith, if◌then◌else◌, ◌&&◌,
}
use nixos_wanwatch.Prelude.Dict.{lookup, insert}
use nixos_wanwatch.Prelude.Text.{str_eq}
use nixos_wanwatch.Probe.Family.{Family, eq_family}
use nixos_wanwatch.Probe.Float.{Floats}
use nixos_wanwatch.Selector
use nixos_wanwatch.Decision
use nixos_wanwatch.Decision.{Commit}
use nixos_wanwatch.Decision.Traces.{Call, answer}
use nixos_wanwatch.Rtnl.Event.{Ip, RouteEvent, RouteEventOp, add, del}
use nixos_wanwatch.Daemon.{Outside, Env, Daemon}
use nixos_wanwatch.Daemon.Gateways.{get, get-set, get-clear}
use nixos_wanwatch.Daemon.Routes.{group_apply}
use nixos_wanwatch.Daemon.Publish.{publish_decision}
use nixos_wanwatch.Daemon.Handlers.{
  ask, answered, ask_group, or_zero, handle_route_event, observe_gateway,
}
use nixos_wanwatch.Daemon.Handlers.Keeps.{handle_route_event-Holds}

-- The same configuration, Health and gateways.
abbrev pub Observes : {fl : Floats} → Daemon fl → Daemon fl → Type 0
Observes d d' = (d'.cfg ≡ d.cfg) × (d'.health ≡ d.health) × (d'.gateways ≡ d.gateways)

no_limits : (gs : List (String × Selector.Group)) → All (λ e. Unit {0}) gs
no_limits [] = tt
no_limits (e ∷ gs) = (tt, no_limits gs)

module _ {fl : Floats} {W E : Type 0} (out : Outside fl W E) where
  publish_decision-Observes :
      (g : Selector.Group) (c : Option Commit) (d : Daemon fl) (env : Env W)
      → Observes d (publish_decision out g c d env).0
  unfolding publish_decision
  publish_decision-Observes g none d env = (refl, refl, refl)
  publish_decision-Observes g (some c) d env = (refl, refl, refl)

  ask_group-Observes :
      (name : String) (g : Selector.Group) (call : Call) (d : Daemon fl) (env : Env W)
      (o : Option Decision.Group)
      → Observes d (ask_group out name g call (d, env) o).0
  unfolding ask_group answered
  ask_group-Observes name g call d env none = (refl, refl, refl)
  ask_group-Observes name g call d env (some gr) =
      let (c, gr', env') = answer (group_apply out d gr.cfg) (λ e. out.now e.world) call gr env in
      publish_decision-Observes g c (record d { groups = insert str_eq name gr' d.groups }) env'

  pub ask-Observes :
      (d₀ : Daemon fl) (name : String) (g : Selector.Group) (call : Call) (d : Daemon fl)
      (env : Env W)
      → Observes d₀ d
      → Observes d₀ (ask out name g call (d, env)).0
  unfolding ask
  ask-Observes d₀ name g call d env (c, h, w) =
      let (c', h', w') = ask_group-Observes name g call d env (lookup str_eq name d.groups) in
      (c' ∙ c, h' ∙ h, w' ∙ w)

  handle_route_event-Observes :
      (e : RouteEvent) (d : Daemon fl) (env : Env W)
      → Observes
          (record d { gateways = observe_gateway e d.gateways })
          (handle_route_event out e (d, env)).0
  handle_route_event-Observes e d env =
      let d₀ = record d { gateways = observe_gateway e d.gateways } in
      handle_route_event-Holds out (λ s. Observes d₀ s.0) (λ e. Unit {0})
        (λ d env p. no_limits d.cfg.groups)
        (λ name g call d env m p. ask-Observes d₀ name g call d env p)
        (λ name call d env p.
          ask-Observes d₀ name (or_zero (lookup str_eq name d.cfg.groups)) call d env p)
        (λ d env p. p) e d env (refl, refl, refl)

  abbrev pub observed : RouteEventOp → Ip → Option Ip
  observed add gw = some gw
  observed del gw = none

  observe_gateway_lem :
      (e : RouteEvent) (iface : String) (fam : Family) (d : Daemon fl)
      → get iface fam (observe_gateway e d.gateways) ≡ (
          if str_eq e.iface iface && eq_family e.family fam
          then observed e.op e.gateway
          else get iface fam d.gateways)
  unfolding observe_gateway
  observe_gateway_lem e iface fam d = ground (
    arith,
    get-set e.iface iface e.family fam e.gateway d.gateways,
    get-clear e.iface iface e.family fam d.gateways,
  )

  -- After a route event, whatever its Groups did and also when they were stopped, the cache holds what
  -- the event says of its interface and Family and the same as before of every other, and WAN Health
  -- is the same.
  pub handle_route_event-get :
      (e : RouteEvent) (iface : String) (fam : Family) (d : Daemon fl) (env : Env W)
      → let (d', _) = handle_route_event out e (d, env) in
        (get iface fam d'.gateways ≡ (
          if str_eq e.iface iface && eq_family e.family fam
          then observed e.op e.gateway
          else get iface fam d.gateways))
        × (d'.health ≡ d.health)
  handle_route_event-get e iface fam d env =
      let (_, h, w) = handle_route_event-Observes e d env in
      (ap (get iface fam) w ∙ observe_gateway_lem e iface fam d, h)
