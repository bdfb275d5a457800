-- ===== src/Decision.antt =====
-- daemon/internal/decision/group.go: each Group's Selection and its progression through Apply.
-- The kernel and the clock are a world `W`, which the injected `applyRoutes` changes.
pub mod Steps
pub mod Commits
pub mod Traces
pub mod Waits
pub mod World
use nixos_wanwatch.Prelude.{
  ℕ, ◌≡◌, Bool, true, false, Option, none, some, List, [], ◌∷◌, ◌++◌, if◌then◌else◌, String, Result,
  ok, err, ◌&&◌, ◌||◌, not, map,
}
use nixos_wanwatch.Prelude.Int.{ℤ, pos, inc}
use nixos_wanwatch.Prelude.Text.{str_eq}
use nixos_wanwatch.Probe.Family.{Family}
use nixos_wanwatch.Selector
use nixos_wanwatch.Selector.{
  Active, no_active, eq_active, MemberHealth, Selection, SelectError, select,
}

pub data Event : Type 0 where
  up down switch : Event

pub record Commit : Type 0 where
  pub old : Active
  pub new : Active
  pub at : ℕ

-- `none` is Go's `""`.
unfoldable pub event : Commit → Option Event
event c =
    if not c.old.has && c.new.has
    then some up
    else if c.old.has && not c.new.has
    then some down
    else if c.old.has && c.new.has && not (str_eq c.old.wan c.new.wan)
    then some switch
    else none

-- A gauge or counter of the metrics registry, with its labels and what is set or added.
pub data Metric : Type 0 where
  group_decisions_inc : (group reason : String) → Metric
  group_selected_set : (group wan : String) → Bool → Metric

pub record Group : Type 0 where
  pub cfg : Selector.Group
  pub selection : Active
  pub selection_since : Option ℕ  -- `none` is the zero time
  pub decisions_total : ℤ
  pub pending : Option Active
  pub repair_due : Bool
  pub metrics : List Metric  -- what was written to the registry, oldest first

unfoldable pub publish_selected : Group → Group
publish_selected g =
    let gauge = λ (e : String × Selector.Member).
      group_selected_set g.cfg.name e.1.wan (g.selection.has && str_eq g.selection.wan e.1.wan) in
    record g { metrics = g.metrics ++ map gauge g.cfg.members }

unfoldable pub new_group : Selector.Group → Group
unfolding publish_selected
new_group cfg = publish_selected (record {
  cfg = cfg;
  selection = no_active;
  selection_since = none;
  decisions_total = pos 0;
  pending = none;
  repair_due = false;
  metrics = [];
})

unfoldable pub intent : Group → Active
intent g = elim g.pending [ none ↦ g.selection | some p ↦ p ]

abbrev pub is_none {ℓ} : {A : Type ℓ} → Option A → Bool
is_none none = true
is_none (some _) = false

-- `applyRoutes` returns the world it leaves and whether it failed; `now` reads the clock.
module _ {W : Type 0} (apply_routes : String → List Family → W → W × Bool) (now : W → ℕ) where
  -- What a method leaves: the commit it returns, the Group and the world.
  abbrev pub Outcome : Type 0
  Outcome = Option Commit × Group × W

  -- The part of `commit` after a successful Apply.
  pub settle : Active → Group → W → Outcome
  unfolding event publish_selected
  settle next g w =
      let committed : Commit = record { old = g.selection; new = next; at = now w } in
      (
        some committed,
        publish_selected (record g {
          selection = next;
          pending = none;
          repair_due = false;
          selection_since = if is_none (event committed) then g.selection_since else some (now w);
        }),
        w,
      )

  -- `next` is `*g.pending`, which every caller has set.
  pub commit : Active → Group → W → Outcome
  unfolding settle
  commit next g w =
      let (w', failed) = apply_routes next.wan [] w in
      if next.has then (if failed then (none, g, w') else settle next g w') else settle next g w

  pub refresh : List Family → Group → W → Group × W
  refresh families g w =
      let wanted = if g.repair_due then [] else families in
      let (w', failed) = apply_routes g.selection.wan wanted w in
      (record g { repair_due = failed }, w')

  -- A method that ends in `refresh` returns no commit.
  abbrev uncommitted : Group × W → Outcome
  uncommitted (g, w) = (none, g, w)

  abbrev retarget : Active → String → Group → Group
  retarget target reason g = record g {
    pending = some target;
    decisions_total = inc g.decisions_total;
    metrics = g.metrics ++ group_decisions_inc g.cfg.name reason ∷ [];
  }

  -- `Recompute` once the Strategy has answered.
  pub decide : Result SelectError Selection → String → Group → W → Outcome
  unfolding intent commit
  decide (err e) reason g w = (none, g, w)
  decide (ok sel) reason g w =
      if eq_active sel.active (intent g)
      then (none, g, w)
      else commit sel.active (retarget sel.active reason g) w

  unfoldable pub recompute : List MemberHealth → String → Group → W → Outcome
  unfolding decide
  recompute members reason g w = decide (select g.cfg members) reason g w

  probe_pending : Option Active → String → Group → W → Outcome
  unfolding commit refresh
  probe_pending (some p) wan g w =
      if not p.has || not (str_eq p.wan wan) then (none, g, w) else commit p g w
  probe_pending none wan g w =
      if g.repair_due && str_eq g.selection.wan wan
      then uncommitted (refresh [] g w)
      else (none, g, w)

  unfoldable pub probe : String → Group → W → Outcome
  unfolding probe_pending
  probe wan g w = probe_pending g.pending wan g w

  observe_pending : Option Active → Family → Group → W → Outcome
  unfolding commit refresh
  observe_pending (some p) family g w = commit p g w
  observe_pending none family g w = uncommitted (refresh (family ∷ []) g w)

  unfoldable pub route_observed : String → Family → Group → W → Outcome
  unfolding intent observe_pending
  route_observed wan family g w =
      let want = intent g in
      if not want.has || not (str_eq want.wan wan)
      then (none, g, w)
      else observe_pending g.pending family g w

-- The exported view: the Selection's WAN, its start and the number of Decisions.
pub record Snapshot : Type 0 where
  pub strategy : String
  pub selection : Option String
  pub selection_since : Option ℕ
  pub decisions_total : ℤ

unfoldable pub snapshot : Group → Snapshot
snapshot g = record {
  strategy = g.cfg.strategy;
  selection = if g.selection.has then some g.selection.wan else none;
  selection_since = g.selection_since;
  decisions_total = g.decisions_total;
}
