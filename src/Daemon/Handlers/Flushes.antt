-- ===== src/Daemon/Handlers/Flushes.antt =====
-- What a call of a Group makes the daemon do outside (daemon/cmd/wanwatchd/daemon.go).
use nixos_wanwatch.Prelude.{◌≡◌, refl, ap, sym, ◌∙◌, subst, Option, none, some, String}
use nixos_wanwatch.Prelude.Dict.{lookup}
use nixos_wanwatch.Prelude.Text.{str_eq}
use nixos_wanwatch.Probe.Float.{Floats}
use nixos_wanwatch.Selector
use nixos_wanwatch.Decision
use nixos_wanwatch.Decision.{Commit, event}
use nixos_wanwatch.Decision.Commits.{Tells}
use nixos_wanwatch.Decision.Traces.{Call, answer, answer-Tells}
use nixos_wanwatch.Daemon.{Outside, Env, Daemon}
use nixos_wanwatch.Daemon.Routes.{group_apply}
use nixos_wanwatch.Daemon.Publish.{publish_decision, flush_some, write_state_snapshot, notify_some}
use nixos_wanwatch.Daemon.Handlers.{ask, answered, ask_group, Running}
use nixos_wanwatch.Daemon.Handlers.Vacated.{Waits, carrying, moved, flush_target-moved, vacate_own}
use nixos_wanwatch.Daemon.Handlers.Kept.{IsKept}

module _ {fl : Floats} {W E : Type 0} (out : Outside fl W E) where
  -- What is done outside for the answer of a Group: without a commit nothing, and with one the flush
  -- of the WAN that the Group's traffic left, if it left one, then the State, then the Hooks.
  abbrev pub Effects :
      Selector.Group
      → Decision.Group
      → Daemon fl
      → Option Commit × Decision.Group × Env W
      → Running out
      → Type 0
  Effects g gr d (none, gr', env) (d', env') = (env' ≡ env) × (d'.vacated ≡ d.vacated)
  Effects g gr d (some c, gr', env) (d', env') =
      env'
      ≡ notify_some out d' g (event c) c (
          write_state_snapshot out (some c.at) d' (
            flush_some out d' g
              (moved (carrying (lookup str_eq g.name d.vacated) gr.selection)
                (carrying (lookup str_eq g.name d'.vacated) gr'.selection))
              env))

  answered-Effects :
      (name : String) (g : Selector.Group) (gr gr' : Decision.Group) (c : Option Commit)
      (d : Daemon fl) (env : Env W)
      → Waits (lookup str_eq g.name d.vacated) gr.selection
      → Tells gr c gr'
      → Effects g gr d (c, gr', env) (answered out name g d (c, gr', env))
  unfolding answered publish_decision
  answered-Effects name g gr gr' none d env v t = (refl, refl)
  answered-Effects name g gr gr' (some c) d env v t =
      let v₀ = lookup str_eq g.name d.vacated in
      let (d', _) = answered out name g d (some c, gr', env) in
      ap
        (λ o.
          notify_some out d' g (event c) c
            (write_state_snapshot out (some c.at) d' (flush_some out d' g o env)))
        (flush_target-moved c v₀ gr gr' t v
          ∙ ap (λ o. moved (carrying v₀ gr.selection) (carrying o gr'.selection))
              (sym (vacate_own (event c) g.name g.name c d.vacated refl)))

  -- The conntrack entries of a WAN are flushed exactly when a call of the Group moves its traffic off
  -- that WAN, also across a `down` that left the old route in place, and before State and Hooks are
  -- told. Without a commit nothing is flushed, published or told.
  pub ask-Effects :
      (g : Selector.Group) (gr : Decision.Group) (call : Call) (d : Daemon fl) (env : Env W)
      → lookup str_eq g.name d.groups ≡ some gr
      → IsKept d
      → Effects g gr d
          (answer (group_apply out d gr.cfg) (λ e. out.now e.world) call gr env)
          (ask out g.name g call (d, env))
  unfolding ask ask_group
  ask-Effects g gr call d env e v =
      let (c, gr', env') = answer (group_apply out d gr.cfg) (λ e. out.now e.world) call gr env in
      subst (λ o. Effects g gr d (c, gr', env') (ask_group out g.name g call (d, env) o)) (sym e)
        (answered-Effects g.name g gr gr' c d env' (v.kept g.name gr e).waits
          (answer-Tells (group_apply out d gr.cfg) (λ e. out.now e.world) call gr env))
