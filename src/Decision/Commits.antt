-- ===== src/Decision/Commits.antt =====
-- What a method's commit, or the lack of one, says of the Group before and after.
use nixos_wanwatch.Prelude.{
  ℕ, ◌≡◌, ◌≢◌, refl, Bool, true, false, Option, none, some, List, [], if◌then◌else◌, String, Result,
  ok, err, arith,
}
use text.Mathlib.TextEquality.{eq_iff}
use nixos_wanwatch.Prelude.Int.{inc}
use nixos_wanwatch.Probe.Family.{Family}
use nixos_wanwatch.Selector.{Active, eq_active, MemberHealth, Selection, SelectError, select}
use nixos_wanwatch.Decision.{
  Commit, event, Group, intent, settle, commit, decide, recompute, probe, route_observed,
}
use nixos_wanwatch.Decision.Steps.{eq_active_iff}

-- Without a commit the committed Selection and its start stay. With one, it tells the Selection
-- before and after, nothing is left pending and no Repair is due.
abbrev pub Tells : Group → Option Commit → Group → Type 0
Tells g none g' = (g'.selection ≡ g.selection) × (g'.selection_since ≡ g.selection_since)
Tells g (some c) g' =
    (c.old ≡ g.selection)
    × (c.new ≡ g'.selection)
    × (g'.pending ≡ none)
    × (g'.repair_due ≡ false)
    × (event c ≡ none → g'.selection_since ≡ g.selection_since)
    × (event c ≢ none → g'.selection_since ≡ some c.at)

module _ {W : Type 0} (apply_routes : String → List Family → W → W × Bool) (now : W → ℕ) where
  -- A commit onto a WAN is returned only after an Apply of all that WAN's families succeeded, and
  -- the world is the one that this Apply left.
  abbrev pub Applied : W → Option Commit → W → Type 0
  Applied w none w' = Unit
  Applied w (some c) w' = c.new.has ≡ true → apply_routes c.new.wan [] w ≡ (w', false)

  settle-Tells :
      (next : Active) (g : Group) (w : W)
      → let (c, g', _) = settle apply_routes now next g w in Tells g c g'
  unfolding settle
  settle-Tells next g w = ground arith

  settle_world : (next : Active) (g : Group) (w : W) → (settle apply_routes now next g w).2 ≡ w
  unfolding settle
  settle_world next g w = refl

  abbrev pub Sound : Group → W → Option Commit × Group × W → Type 0
  Sound g w (c, g', w') = Tells g c g' × Applied w c w'

  commit-Sound : (next : Active) (g : Group) (w : W) → Sound g w (commit apply_routes now next g w)
  unfolding commit
  commit-Sound next g w = ground arith

  decide-Sound :
      (r : Result SelectError Selection) (reason : String) (g : Group) (w : W)
      → Sound g w (decide apply_routes now r reason g w)
  unfolding decide
  decide-Sound (err e) reason g w = ((refl, refl), tt)
  decide-Sound (ok sel) reason g w = ground arith

  -- `Recompute` changes the committed Selection only by a commit that it returns, and returns one onto
  -- a WAN only after a full, successful Apply.
  pub recompute-Sound :
      (members : List MemberHealth) (reason : String) (g : Group) (w : W)
      → Sound g w (recompute apply_routes now members reason g w)
  unfolding recompute
  recompute-Sound members reason g w = decide-Sound (select g.cfg members) reason g w

  -- `Probe` changes the committed Selection only by a commit that it returns, and returns one onto a
  -- WAN only after a full, successful Apply.
  pub probe-Sound : (wan : String) (g : Group) (w : W) → Sound g w (probe apply_routes now wan g w)
  unfolding probe
  probe-Sound wan g w = ground arith

  -- `RouteObserved` changes the committed Selection only by a commit that it returns, and returns one
  -- onto a WAN only after a full, successful Apply.
  pub route_observed-Sound :
      (wan : String) (family : Family) (g : Group) (w : W)
      → Sound g w (route_observed apply_routes now wan family g w)
  unfolding route_observed
  route_observed-Sound wan family g w = ground arith

  decide_lem :
      (sel : Selection) (reason : String) (g : Group) (w : W)
      → let (c, g', w') = decide apply_routes now (ok sel) reason g w in
        (intent g' ≡ sel.active)
        × (g'.decisions_total ≡ (
            if eq_active sel.active (intent g) then g.decisions_total else inc g.decisions_total))
  unfolding decide
  decide_lem sel reason g w = ground (arith, eq_active_iff sel.active (intent g))

  -- Where the Strategy answers, the Group wants its choice after `Recompute`, whether Apply succeeded
  -- or not, and a Decision was counted exactly when that is a change.
  pub recompute_lem :
      (members : List MemberHealth) (reason : String) (g : Group) (w : W) {sel : Selection}
      → select g.cfg members ≡ ok sel
      → let (c, g', w') = recompute apply_routes now members reason g w in
        (intent g' ≡ sel.active)
        × (g'.decisions_total ≡ (
            if eq_active sel.active (intent g) then g.decisions_total else inc g.decisions_total))
  unfolding recompute
  recompute_lem members reason g w {sel} e = rw e (decide_lem sel reason g w)

  -- Probe results and routes of a WAN that the Group does not want leave the Group and the kernel
  -- alone.
  pub unconcerned :
      (wan : String) (family : Family) (g : Group) (w : W)
      → (intent g).wan ≢ wan
      → (probe apply_routes now wan g w ≡ (none, g, w))
        × (route_observed apply_routes now wan family g w ≡ (none, g, w))
  unfolding probe route_observed intent
  unconcerned wan family g w ne =
      (ground (arith, eq_iff (intent g).wan wan), ground (arith, eq_iff (intent g).wan wan))
