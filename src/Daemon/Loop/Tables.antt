-- ===== src/Daemon/Loop/Tables.antt =====
-- Into which routing tables the daemon writes (daemon/cmd/wanwatchd/daemon.go, eventloop.go).
use nixos_wanwatch.Prelude.{ℕ, ◌≡◌, refl, ◌∙◌, none, List, String, All}
use nixos_wanwatch.Prelude.Dict.{lookup}
use nixos_wanwatch.Prelude.Text.{str_eq}
use nixos_wanwatch.Probe.Float.{Floats}
use nixos_wanwatch.Selector
use nixos_wanwatch.Config.Types.{Config}
use nixos_wanwatch.Decision.Traces.{Call}
use nixos_wanwatch.Health.Wans as Wans
use nixos_wanwatch.Daemon.{Outside, Env, Daemon, GatewayCache, new_daemon}
use nixos_wanwatch.Daemon.World.{Keeps}
use nixos_wanwatch.Daemon.Publish.{write_state_snapshot}
use nixos_wanwatch.Daemon.Publish.World.{write_state_snapshot-Keeps}
use nixos_wanwatch.Daemon.Handlers.{Running, or_zero, ask}
use nixos_wanwatch.Daemon.Handlers.Kept.{IsKept, ask-IsKept, own-IsKept}
use nixos_wanwatch.Daemon.Handlers.Frame.{ask-Observes}
use nixos_wanwatch.Daemon.Handlers.World.{IsOwn, ask-Keeps}
use nixos_wanwatch.Daemon.Loop.{Message, StartupSnapshot, event_loop, prime, serve}
use nixos_wanwatch.Daemon.Loop.Holds.{event_loop-Holds, prime-Holds}
use nixos_wanwatch.Daemon.Loop.Kept.{observed-IsKept, new_daemon-IsKept}

module _ {fl : Floats} {W E : Type 0} (out : Outside fl W E) (Q : W → Type 0) (cfg : Config)
    (k : Keeps out Q (IsOwn cfg)) where
  abbrev Stays : Running out → Type 0
  Stays (d, env) = IsKept d × (d.cfg ≡ cfg) × Q env.world

  abbrev May : String × Selector.Group → Type 0
  May e = e.1.name ≡ e.0

  same_cfg :
      (name : String) (g : Selector.Group) (call : Call) (d : Daemon fl) (env : Env W)
      → d.cfg ≡ cfg
      → (ask out name g call (d, env)).0.cfg ≡ cfg
  same_cfg name g call d env h = (ask-Observes out d name g call d env (refl, refl, refl)).0 ∙ h

  ask-Stays :
      (name : String) (g : Selector.Group) (call : Call) (d : Daemon fl) (env : Env W)
      → May (name, g)
      → Stays (d, env)
      → Stays (ask out name g call (d, env))
  ask-Stays name g call d env m (v, c, q) = (
    ask-IsKept out name g call d env m v,
    same_cfg name g call d env c,
    ask-Keeps k name g call d env v c q,
  )

  own-Stays :
      (name : String) (call : Call) (d : Daemon fl) (env : Env W)
      → Stays (d, env)
      → Stays (ask out name (or_zero (lookup str_eq name d.cfg.groups)) call (d, env))
  own-Stays name call d env (v, c, q) =
      let g = or_zero (lookup str_eq name d.cfg.groups) in
      (
        own-IsKept out name call d env v,
        same_cfg name g call d env c,
        ask-Keeps k name g call d env v c q,
      )

  snapshot-Stays :
      (d : Daemon fl) (env : Env W)
      → Stays (d, env)
      → Stays (d, write_state_snapshot out none d env)
  snapshot-Stays d env (v, c, q) = (v, c, write_state_snapshot-Keeps k none d env q)

  observed-Stays :
      (d : Daemon fl) (env : Env W) (h : Wans.Wans fl) (g : GatewayCache)
      → Stays (d, env)
      → Stays (record d { health = h; gateways = g }, env)
  observed-Stays d env h g (v, c, q) = (observed-IsKept d h g v, c, q)

  groups_stand : (d : Daemon fl) (env : Env W) → Stays (d, env) → All May d.cfg.groups
  groups_stand d env (v, c, q) = v.named

  new_daemon_cfg : (started : ℕ) → (new_daemon fl cfg started).cfg ≡ cfg
  unfolding new_daemon
  new_daemon_cfg started = refl

  -- Whatever the daemon observes from its start until it returns, it writes routes into the tables of
  -- its configured Groups only: what is true of the world and is kept by the writes of such routes, and
  -- by the daemon's other operations on the kernel, the Hooks and the State file, is true at the end.
  -- The Groups of the configuration stand under their names, as Parse leaves them.
  pub serve-Keeps :
      (started : ℕ) (snapshot : StartupSnapshot) (ms : List (Message fl)) (env : Env W)
      → All (λ e. e.1.name ≡ e.0) cfg.groups
      → Q env.world
      → Q (serve out ms (prime out snapshot (new_daemon fl cfg started, env))).1.world
  unfolding serve
  serve-Keeps started snapshot ms env a q =
      let primed = prime out snapshot (new_daemon fl cfg started, env) in
      let (_, _, held) =
        event_loop-Holds out Stays May groups_stand ask-Stays own-Stays snapshot-Stays
          observed-Stays ms primed
          (prime-Holds out Stays May groups_stand ask-Stays own-Stays snapshot-Stays observed-Stays
            snapshot (new_daemon fl cfg started, env)
            (new_daemon-IsKept fl cfg started a, new_daemon_cfg started, q)) in
      k.close_keeps (event_loop out ms primed).1.world held
