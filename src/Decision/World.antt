-- ===== src/Decision/World.antt =====
-- The calls of a Group and the world (daemon/internal/decision/group.go).
use nixos_wanwatch.Prelude.{
  ℕ, ◌&&◌, ◌||◌, not, Bool, Option, none, some, List, [], ◌∷◌, String, Result, ok, err, if_holds,
  if◌then◌else◌,
}
use nixos_wanwatch.Prelude.Text.{str_eq}
use nixos_wanwatch.Probe.Family.{Family}
use nixos_wanwatch.Selector.{Active, eq_active, Selection, SelectError, select}
use nixos_wanwatch.Decision.{
  Commit, Group, intent, settle, commit, refresh, retarget, decide, recompute, probe_pending, probe,
  observe_pending, route_observed,
}
use nixos_wanwatch.Decision.Traces.{Call, recompute_call, probe_call, route_call, answer}

module _ {W : Type 0} (apply_routes : String → List Family → W → W × Bool) (now : W → ℕ)
    (Q : W → Type 0)
    (keeps : (wan : String) (families : List Family) (w : W)
      → Q w
      → Q (apply_routes wan families w).0) where
  abbrev Leaves : Option Commit × Group × W → Type 0
  Leaves x = Q x.2

  commit-Leaves :
      (next : Active) (g : Group) (w : W) → Q w → Leaves (commit apply_routes now next g w)
  unfolding commit settle
  commit-Leaves next g w q =
      if_holds Leaves next.has
        (λ e.
          if_holds Leaves (apply_routes next.wan [] w).1 (λ f. keeps next.wan [] w q)
            (λ f. keeps next.wan [] w q))
        (λ e. q)

  refresh-Leaves :
      (families : List Family) (g : Group) (w : W)
      → Q w
      → Q (refresh apply_routes now families g w).1
  unfolding refresh
  refresh-Leaves families g w q = keeps g.selection.wan (if g.repair_due then [] else families) w q

  decide-Leaves :
      (r : Result SelectError Selection) (reason : String) (g : Group) (w : W)
      → Q w
      → Leaves (decide apply_routes now r reason g w)
  unfolding decide intent
  decide-Leaves (err e) reason g w q = q
  decide-Leaves (ok sel) reason g w q =
      if_holds Leaves (eq_active sel.active (intent g)) (λ e. q)
        (λ e. commit-Leaves sel.active (retarget apply_routes now sel.active reason g) w q)

  probe_pending-Leaves :
      (o : Option Active) (wan : String) (g : Group) (w : W)
      → Q w
      → Leaves (probe_pending apply_routes now o wan g w)
  unfolding probe_pending
  probe_pending-Leaves (some p) wan g w q =
      if_holds Leaves (not p.has || not (str_eq p.wan wan)) (λ e. q) (λ e. commit-Leaves p g w q)
  probe_pending-Leaves none wan g w q =
      if_holds Leaves (g.repair_due && str_eq g.selection.wan wan) (λ e. refresh-Leaves [] g w q)
        (λ e. q)

  observe_pending-Leaves :
      (o : Option Active) (family : Family) (g : Group) (w : W)
      → Q w
      → Leaves (observe_pending apply_routes now o family g w)
  unfolding observe_pending
  observe_pending-Leaves (some p) family g w q = commit-Leaves p g w q
  observe_pending-Leaves none family g w q = refresh-Leaves (family ∷ []) g w q

  -- What each Apply keeps true of the world, a call keeps.
  pub answer-Leaves :
      (call : Call) (g : Group) (w : W) → Q w → Leaves (answer apply_routes now call g w)
  unfolding answer recompute probe route_observed intent
  answer-Leaves (recompute_call members reason) g w q =
      decide-Leaves (select g.cfg members) reason g w q
  answer-Leaves (probe_call wan) g w q = probe_pending-Leaves g.pending wan g w q
  answer-Leaves (route_call wan family) g w q =
      let want = intent g in
      if_holds Leaves (not want.has || not (str_eq want.wan wan)) (λ e. q)
        (λ e. observe_pending-Leaves g.pending family g w q)
