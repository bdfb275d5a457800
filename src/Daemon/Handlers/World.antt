-- ===== src/Daemon/Handlers/World.antt =====
-- What the daemon's calls of its Groups do to the world outside (daemon/cmd/wanwatchd/daemon.go).
use nixos_wanwatch.Prelude.{◌≡◌, refl, sym, ap, ◌∙◌, Option, none, some, String}
use nixos_wanwatch.Prelude.Dict.{lookup, insert}
use nixos_wanwatch.Prelude.Text.{str_eq}
use nixos_wanwatch.Probe.Float.{Floats}
use nixos_wanwatch.Selector
use nixos_wanwatch.Config.Types.{Config}
use nixos_wanwatch.Decision
use nixos_wanwatch.Decision.Traces.{Call, answer}
use nixos_wanwatch.Decision.World.{answer-Leaves}
use nixos_wanwatch.Apply.Route.{DefaultRoute}
use nixos_wanwatch.Daemon.{Outside, Env, Daemon}
use nixos_wanwatch.Daemon.Routes.{group_apply}
use nixos_wanwatch.Daemon.Routes.World.{group_apply-Keeps}
use nixos_wanwatch.Daemon.Publish.World.{publish_decision-Keeps}
use nixos_wanwatch.Daemon.World.{Keeps}
use nixos_wanwatch.Daemon.Handlers.{ask, ask_group, answered}
use nixos_wanwatch.Daemon.Handlers.Kept.{IsKept}

-- The route is for the table of a configured Group.
abbrev pub IsOwn : Config → DefaultRoute → Type 0
IsOwn cfg r =
    (name : String) × (g : Selector.Group) × (lookup str_eq name cfg.groups ≡ some g)
    × (r.table ≡ g.table)

module _ {fl : Floats} {W E : Type 0} {out : Outside fl W E} {Q : W → Type 0} {cfg : Config}
    (k : Keeps out Q (IsOwn cfg)) where
  ask_group-Keeps :
      (name : String) (g : Selector.Group) (call : Call) (d : Daemon fl) (env : Env W)
      (o : Option Decision.Group)
      → lookup str_eq name d.groups ≡ o
      → IsKept d
      → d.cfg ≡ cfg
      → Q env.world
      → Q (ask_group out name g call (d, env) o).1.world
  unfolding ask_group answered
  ask_group-Keeps name g call d env none e v same q = q
  ask_group-Keeps name g call d env (some gr) e v same q =
      let (c, gr', env') = answer (group_apply out d gr.cfg) (λ e. out.now e.world) call gr env in
      let own : lookup str_eq name cfg.groups ≡ some gr.cfg =
        ap (λ (c : Config). lookup str_eq name c.groups) (sym same) ∙ (v.kept name gr e).own in
      publish_decision-Keeps k g c (record d { groups = insert str_eq name gr' d.groups }) env'
        (answer-Leaves (group_apply out d gr.cfg) (λ e. out.now e.world) (λ e. Q e.world)
          (λ wan fams e q.
            group_apply-Keeps k gr.cfg (λ r t. (name, gr.cfg, own, t)) d wan fams e q)
          call gr env q)

  -- A call keeps what the writes into the tables of the configured Groups keep.
  pub ask-Keeps :
      (name : String) (g : Selector.Group) (call : Call) (d : Daemon fl) (env : Env W)
      → IsKept d
      → d.cfg ≡ cfg
      → Q env.world
      → Q (ask out name g call (d, env)).1.world
  unfolding ask
  ask-Keeps name g call d env v same q =
      ask_group-Keeps name g call d env (lookup str_eq name d.groups) refl v same q
