-- ===== src/Daemon/Handlers/Kept.antt =====
-- What the calls of its Groups keep of the daemon (daemon/cmd/wanwatchd/daemon.go).
use text.Mathlib.TextEquality.{eq_iff}
use nixos_wanwatch.Prelude.{
  ◌≡◌, ◌≢◌, ◌⊎◌, refl, ap, sym, ◌∙◌, subst, Option, none, some, List, String, All, arith, inl, inr,
}
use nixos_wanwatch.Prelude.Dict.{lookup, insert, lookup-insert}
use nixos_wanwatch.Prelude.Text.{str_eq}
use nixos_wanwatch.Probe.Float.{Floats}
use nixos_wanwatch.Selector
use nixos_wanwatch.Selector.{Active}
use nixos_wanwatch.Decision
use nixos_wanwatch.Decision.Steps
use nixos_wanwatch.Decision.{Commit, Event, up, down, switch, event, new_group}
use nixos_wanwatch.Decision.Steps.{new_group-IsValid}
use nixos_wanwatch.Decision.Commits.{Tells}
use nixos_wanwatch.Decision.Traces.{Call, answer, answer-IsValid, answer-Tells, answer-cfg}
use nixos_wanwatch.Daemon.{Outside, Env, Daemon}
use nixos_wanwatch.Daemon.Routes.{group_apply}
use nixos_wanwatch.Daemon.Publish.{publish_decision, vacate}
use nixos_wanwatch.Daemon.Handlers.{ask, answered, ask_group, or_zero}
use nixos_wanwatch.Daemon.Handlers.Vacated.{Waits, left_vacated-Waits, vacate_own, vacate_other}

-- What holds of a Group of the daemon: it runs on its own configuration.
pub record Kept {fl : Floats} (d : Daemon fl) (name : String) (gr : Decision.Group) : Type 0 where
  pub own : lookup str_eq name d.cfg.groups ≡ some gr.cfg
  pub same_name : gr.cfg.name ≡ name
  pub valid : Decision.Steps.IsValid gr
  pub waits : Waits (lookup str_eq name d.vacated) gr.selection

-- The Groups of the configuration stand under their names, and what holds of a Group holds of all.
pub record IsKept {fl : Floats} (d : Daemon fl) : Type 0 where
  pub named : All (λ e. e.1.name ≡ e.0) d.cfg.groups
  pub kept :
      (name : String) (gr : Decision.Group) → lookup str_eq name d.groups ≡ some gr → Kept d name gr

lookup-insert_cases :
    (name k : String) (gr gr' : Decision.Group) (m : List (String × Decision.Group))
    → lookup str_eq k (insert str_eq name gr m) ≡ some gr'
    → ((name ≡ k) × (gr ≡ gr')) ⊎ ((name ≢ k) × (lookup str_eq k m ≡ some gr'))
lookup-insert_cases name k gr gr' m h =
    ground (arith, lookup-insert str_eq eq_iff name k gr m, eq_iff name k)

-- After the call of a Group that leaves `gr'`, and the publication of what it returned.
abbrev pub after :
    {fl : Floats} → Daemon fl → String → String → Option Commit → Decision.Group → Daemon fl
after d name group none gr' = record d { groups = insert str_eq name gr' d.groups }
after d name group (some c) gr' = record d {
  groups = insert str_eq name gr' d.groups;
  vacated = vacate (event c) group c d.vacated;
}

after-own :
    {fl : Floats}
    → (d : Daemon fl) (name group : String) (c : Option Commit) (gr gr' : Decision.Group)
    → group ≡ name
    → Kept d name gr
    → Tells gr c gr'
    → gr'.cfg ≡ gr.cfg
    → Decision.Steps.IsValid gr'
    → Kept (after d name group c gr') name gr'
after-own d name group none gr gr' h v t same ok = record {
  own = v.own ∙ ap some (sym same);
  same_name = ap (λ x. x.name) same ∙ v.same_name;
  valid = ok;
  waits = subst (Waits (lookup str_eq name d.vacated)) (sym t.0) v.waits;
}
after-own d name group (some c) gr gr' h v t same ok = record {
  own = v.own ∙ ap some (sym same);
  same_name = ap (λ x. x.name) same ∙ v.same_name;
  valid = ok;
  waits =
      subst (λ o. Waits o gr'.selection) (sym (vacate_own (event c) group name c d.vacated h))
        (left_vacated-Waits c (lookup str_eq name d.vacated) gr gr' t v.waits);
}

after-other :
    {fl : Floats}
    → (d : Daemon fl) (name group k : String) (c : Option Commit) (gr gr' : Decision.Group)
    → group ≢ k
    → Kept d k gr
    → Kept (after d name group c gr') k gr
after-other d name group k none gr gr' h v = record {
  own = v.own;
  same_name = v.same_name;
  valid = v.valid;
  waits = v.waits;
}
after-other d name group k (some c) gr gr' h v = record {
  own = v.own;
  same_name = v.same_name;
  valid = v.valid;
  waits =
      subst (λ o. Waits o gr.selection) (sym (vacate_other (event c) group k c d.vacated h))
        v.waits;
}

after-cfg :
    {fl : Floats}
    → (d : Daemon fl) (name group : String) (c : Option Commit) (gr' : Decision.Group)
    → (after d name group c gr').cfg ≡ d.cfg
after-cfg d name group none gr' = refl
after-cfg d name group (some c) gr' = refl

after-groups :
    {fl : Floats}
    → (d : Daemon fl) (name group : String) (c : Option Commit) (gr' : Decision.Group)
    → (after d name group c gr').groups ≡ insert str_eq name gr' d.groups
after-groups d name group none gr' = refl
after-groups d name group (some c) gr' = refl

after-IsKept :
    {fl : Floats}
    → (d : Daemon fl) (name group : String) (c : Option Commit) (gr gr' : Decision.Group)
    → group ≡ name
    → lookup str_eq name d.groups ≡ some gr
    → IsKept d
    → Tells gr c gr'
    → gr'.cfg ≡ gr.cfg
    → Decision.Steps.IsValid gr'
    → IsKept (after d name group c gr')
after-IsKept d name group c gr gr' h e v t same ok = record {
  named =
      subst (λ x. All (λ e. e.1.name ≡ e.0) x.groups) (sym (after-cfg d name group c gr')) v.named;
  kept = λ k gr'' p.
      elim (lookup-insert_cases name k gr' gr'' d.groups
        (subst (λ m. lookup str_eq k m ≡ some gr'') (after-groups d name group c gr') p)) [
          | inl (n, g) ↦
              subst (λ x. Kept (after d name group c gr') k x) g
                (subst (λ x. Kept (after d name group c gr') x gr') n
                  (after-own d name group c gr gr' h (v.kept name gr e) t same ok))
          | inr (n, g) ↦
              after-other d name group k c gr'' gr' (λ q. n (sym h ∙ q)) (v.kept k gr'' g)
        ];
}

module _ {fl : Floats} {W E : Type 0} (out : Outside fl W E) where
  publish_decision-after :
      (name : String) (g : Selector.Group) (c : Option Commit) (gr' : Decision.Group)
      (d : Daemon fl) (env : Env W)
      → (publish_decision out g c (record d { groups = insert str_eq name gr' d.groups }) env).0
        ≡ after d name g.name c gr'
  unfolding publish_decision
  publish_decision-after name g none gr' d env = refl
  publish_decision-after name g (some c) gr' d env = refl

  ask_group-IsKept :
      (name : String) (g : Selector.Group) (call : Call) (d : Daemon fl) (env : Env W)
      (o : Option Decision.Group)
      → g.name ≡ name
      → lookup str_eq name d.groups ≡ o
      → IsKept d
      → IsKept (ask_group out name g call (d, env) o).0
  unfolding ask_group answered
  ask_group-IsKept name g call d env none h e v = v
  ask_group-IsKept name g call d env (some gr) h e v =
      let (c, gr', env') = answer (group_apply out d gr.cfg) (λ e. out.now e.world) call gr env in
      subst IsKept (sym (publish_decision-after name g c gr' d env')) (
        after-IsKept d name g.name c gr gr' h e v
          (answer-Tells (group_apply out d gr.cfg) (λ e. out.now e.world) call gr env)
          (answer-cfg (group_apply out d gr.cfg) (λ e. out.now e.world) call gr env)
          (answer-IsValid (group_apply out d gr.cfg) (λ e. out.now e.world) call gr env
            (v.kept name gr e).valid))

  pub ask-IsKept :
      (name : String) (g : Selector.Group) (call : Call) (d : Daemon fl) (env : Env W)
      → g.name ≡ name
      → IsKept d
      → IsKept (ask out name g call (d, env)).0
  unfolding ask
  ask-IsKept name g call d env h v =
      ask_group-IsKept name g call d env (lookup str_eq name d.groups) h refl v

  own_group-IsKept :
      (name : String) (call : Call) (d : Daemon fl) (env : Env W) (o : Option Decision.Group)
      → lookup str_eq name d.groups ≡ o
      → IsKept d
      → IsKept (ask_group out name (or_zero (lookup str_eq name d.cfg.groups)) call (d, env) o).0
  unfolding ask_group
  own_group-IsKept name call d env none e v = v
  own_group-IsKept name call d env (some gr) e v =
      let k = v.kept name gr e in
      ask_group-IsKept name (or_zero (lookup str_eq name d.cfg.groups)) call d env (some gr)
        (ap (λ o. (or_zero o).name) k.own ∙ k.same_name) e v

  pub own-IsKept :
      (name : String) (call : Call) (d : Daemon fl) (env : Env W)
      → IsKept d
      → IsKept (ask out name (or_zero (lookup str_eq name d.cfg.groups)) call (d, env)).0
  unfolding ask
  own-IsKept name call d env v =
      own_group-IsKept name call d env (lookup str_eq name d.groups) refl v
