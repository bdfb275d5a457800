-- ===== src/Daemon/Handlers.antt =====
-- The handlers of daemon/cmd/wanwatchd/daemon.go, and the event loop (eventloop.go) that calls them.
pub mod Keeps
pub mod Vacated
pub mod Kept
pub mod Flushes
pub mod Frame
pub mod World
use nixos_wanwatch.Prelude.{
  Bool, true, false, not, ◌||◌, Option, none, some, List, [], ◌∷◌, map, String, any, Result, ok,
  err, ◌>>=◌, if◌then◌else◌,
}
use nixos_wanwatch.Prelude.Int.{pos}
use nixos_wanwatch.Prelude.Dict.{lookup, insert}
use nixos_wanwatch.Prelude.Text.{str_eq}
use nixos_wanwatch.Probe.Float.{Floats}
use nixos_wanwatch.Selector
use nixos_wanwatch.Decision
use nixos_wanwatch.Decision.{Commit}
use nixos_wanwatch.Decision.Traces.{Call, recompute_call, probe_call, route_call, answer}
use nixos_wanwatch.Rtnl.Event.{Ip, LinkEvent, RouteEvent, RouteEventOp, add, del}
use nixos_wanwatch.Config.Types as Types
use nixos_wanwatch.Health.Wans as Wans
use nixos_wanwatch.Health.Wans.{Change, ProbeResult, member_health}
use nixos_wanwatch.Health.Wans.Links.{link}
use nixos_wanwatch.Daemon.{Outside, Env, GatewayCache, Daemon}
use nixos_wanwatch.Daemon.Gateways.{get, set, clear}
use nixos_wanwatch.Daemon.Routes.{group_apply}
use nixos_wanwatch.Daemon.Publish.{publish_decision, write_state_snapshot}

abbrev in_map {ℓ} : {A : Type ℓ} → Option A → Bool
in_map none = false
in_map (some _) = true

unfoldable pub group_contains_wan : Selector.Group → String → Bool
unfolding lookup
group_contains_wan g wan = in_map (lookup str_eq wan g.members)

abbrev names {ℓ} : {A : Type ℓ} → List (String × A) → List String
names = map (λ e. e.0)

-- Go's zero value, for a missing key.
abbrev zero_group : Selector.Group
zero_group = record { name = ""; strategy = ""; table = pos 0; mark = pos 0; members = [] }

abbrev pub or_zero : Option Selector.Group → Selector.Group
or_zero none = zero_group
or_zero (some g) = g

abbrev pub reason_health : String
reason_health = "health"

abbrev pub reason_carrier : String
reason_carrier = "carrier"

unfoldable pub observe_gateway : RouteEvent → GatewayCache → GatewayCache
unfolding set clear
observe_gateway e c = elim e.op [
  | add ↦ set e.iface e.family e.gateway c
  | del ↦ clear e.iface e.family c
]

module _ {fl : Floats} {W E : Type 0} (out : Outside fl W E) where
  -- The daemon with the world it runs in.
  abbrev pub Running : Type 0
  Running = Daemon fl × Env W

  abbrev pub is_cancelled : Env W → Bool
  is_cancelled env = out.cancelled env.world

  answered : String → Selector.Group → Daemon fl → Option Commit × Decision.Group × Env W → Running
  unfolding publish_decision
  answered name g d (c, gr, env) =
      publish_decision out g c (record d { groups = insert str_eq name gr d.groups }) env

  -- A call of the Group `name`, which is a pointer that the map holds, and the publication of what it
  -- returns. Every name that the handlers use has a Group.
  ask_group : String → Selector.Group → Call → Running → Option Decision.Group → Running
  unfolding answered answer group_apply
  ask_group name g call s none = s
  ask_group name g call (d, env) (some gr) =
      answered name g d (answer (group_apply out d gr.cfg) (λ e. out.now e.world) call gr env)

  unfoldable pub ask : String → Selector.Group → Call → Running → Running
  unfolding ask_group
  ask name g call (d, env) = ask_group name g call (d, env) (lookup str_eq name d.groups)

  -- `err` is an early return.
  abbrev pub Loop : Type 0
  Loop = Result Running Running

  abbrev pub left : Loop → Running
  left (ok s) = s
  left (err s) = s

  abbrev unless_cancelled : Running → Running → Loop
  unless_cancelled (d, env) next = if is_cancelled env then err (d, env) else ok next

  recompute_one : String → String → String × Selector.Group → Running → Loop
  unfolding ask group_contains_wan member_health
  recompute_one wan reason (name, g) (d, env) =
      unless_cancelled (d, env)
        (if group_contains_wan g wan
          then ask name g (recompute_call (member_health fl d.health g) reason) (d, env)
          else (d, env))

  recompute_each : String → String → List (String × Selector.Group) → Running → Loop
  unfolding recompute_one
  recompute_each wan reason [] s = ok s
  recompute_each wan reason (e ∷ gs) s =
      recompute_one wan reason e s >>= recompute_each wan reason gs

  pub recompute_affected_groups : String → String → Running → Running
  unfolding recompute_each
  recompute_affected_groups wan reason (d, env) =
      left (recompute_each wan reason d.cfg.groups (d, env))

  -- The calls that range over the Groups of the daemon.
  ask_each : Call → List String → Running → Loop
  unfolding ask
  ask_each call [] s = ok s
  ask_each call (name ∷ ns) (d, env) =
      unless_cancelled (d, env) (ask name (or_zero (lookup str_eq name d.cfg.groups)) call (d, env))
      >>= ask_each call ns

  pub retry_group_decisions : String → Running → Running
  unfolding ask_each
  retry_group_decisions wan (d, env) = left (ask_each (probe_call wan) (names d.groups) (d, env))

  recompute_flipped : String → List String → Running → Running
  unfolding recompute_affected_groups
  recompute_flipped reason [] s = s
  recompute_flipped reason (wan ∷ wans) s =
      recompute_flipped reason wans (recompute_affected_groups wan reason s)

  abbrev republish_if : Bool → Running → Running
  republish_if b (d, env) =
      if is_cancelled env
      then (d, env)
      else (d, if b then write_state_snapshot out none d env else env)

  unfoldable pub publish_health_change : Change → String → Running → Running
  unfolding recompute_flipped write_state_snapshot
  publish_health_change c reason s = republish_if c.republish (recompute_flipped reason c.flipped s)

  unfoldable pub handle_probe_result : ProbeResult fl → Running → Running
  unfolding publish_health_change retry_group_decisions Wans.probe
  handle_probe_result r (d, env) =
      let (health, change) = Wans.probe fl d.health r in
      let s = publish_health_change change reason_health (record d { health = health }, env) in
      if any (λ wan. str_eq wan r.wan) change.flipped then s else retry_group_decisions r.wan s

  unfoldable pub handle_link_event : LinkEvent → Running → Running
  unfolding publish_health_change link
  handle_link_event e (d, env) =
      let (health, change) = link fl d.health e in
      publish_health_change change reason_carrier (record d { health = health }, env)

  abbrev is_del : RouteEventOp → Bool
  is_del add = false
  is_del del = true

  abbrev gateway_changed : RouteEvent → Option Ip → Bool
  gateway_changed e none = true
  gateway_changed e (some prev) = is_del e.op || not (out.equal_ip prev e.gateway)

  route_each : RouteEvent → List (String × Types.Wan) → Running → Loop
  unfolding ask_each
  route_each e [] s = ok s
  route_each e ((wan_name, wan) ∷ wans) (d, env) =
      (if str_eq wan.interface e.iface
        then ask_each (route_call wan_name e.family) (names d.groups) (d, env)
        else ok (d, env))
      >>= route_each e wans

  -- The end of the handler, which an early return skips.
  republish_after : Bool → Loop → Running
  unfolding write_state_snapshot
  republish_after b (err s) = s
  republish_after b (ok s) = republish_if b s

  unfoldable pub handle_route_event : RouteEvent → Running → Running
  unfolding route_each republish_after observe_gateway get
  handle_route_event e (d, env) =
      republish_after (gateway_changed e (get e.iface e.family d.gateways))
        (route_each e d.cfg.wans (record d { gateways = observe_gateway e d.gateways }, env))
