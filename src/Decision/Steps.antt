-- ===== src/Decision/Steps.antt =====
-- What each method of a Group keeps, and what a commit it returns says.
use text.Mathlib.TextEquality.{eq_iff}
use nixos_wanwatch.Prelude.{
  ℕ, ◌≡◌, ◌≢◌, Bool, true, false, Option, none, some, List, String, Result, ok, err, arith, ◌↔◌,
}
use nixos_wanwatch.Probe.Family.{Family}
use nixos_wanwatch.Selector
use nixos_wanwatch.Selector.{
  Active, no_active, eq_active, MemberHealth, Selection, SelectError, select,
}
use nixos_wanwatch.Decision.{
  Commit, up, down, switch, event, Group, new_group, settle, commit, decide, recompute, probe,
  route_observed,
}

pub eq_active_iff : (a b : Active) → (eq_active a b ≡ true) ↔ (a ≡ b)
eq_active_iff a b =
    (λ h. ground (arith, eq_iff a.wan b.wan), λ h. ground (arith, eq_iff a.wan b.wan))

-- A commit is an `up` exactly when it selects a WAN after none, a `down` exactly when it selects none
-- after a WAN, and a `switch` exactly when it selects another WAN after a WAN.
pub event_lem :
    (c : Commit)
    → ((event c ≡ some up) ↔ ((c.old.has ≡ false) × (c.new.has ≡ true)))
      × ((event c ≡ some down) ↔ ((c.old.has ≡ true) × (c.new.has ≡ false)))
      × ((event c ≡ some switch)
          ↔ ((c.old.has ≡ true) × (c.new.has ≡ true) × (c.old.wan ≢ c.new.wan)))
unfolding event
event_lem c = (
  (λ h. ground arith, λ h. ground arith),
  (λ h. ground arith, λ h. ground arith),
  (
    λ h. ground (arith, eq_iff c.old.wan c.new.wan),
    λ h. ground (arith, eq_iff c.old.wan c.new.wan),
  ),
)

-- A pending Decision is for a WAN.
abbrev pub WantsWan : Option Active → Type 0
WantsWan none = Unit
WantsWan (some p) = p.has ≡ true

-- A pending Decision is for a WAN, a Repair is due only for a committed WAN, and a committed WAN
-- has a start.
pub record IsValid (g : Group) : Type 0 where
  pub pending_up : WantsWan g.pending
  pub repair_up : g.repair_due ≡ true → g.selection.has ≡ true
  pub since : g.selection_since ≡ none → g.selection.has ≡ false

pub new_group-IsValid : (cfg : Selector.Group) → IsValid (new_group cfg)
unfolding new_group
new_group-IsValid cfg = ground arith

module _ {W : Type 0} (apply_routes : String → List Family → W → W × Bool) (now : W → ℕ) where
  settle-IsValid :
      (next : Active) (g : Group) (w : W) → IsValid g → IsValid (settle apply_routes now next g w).1
  unfolding settle
  settle-IsValid next g w v = ground arith

  commit-IsValid :
      (next : Active) (g : Group) (w : W)
      → g.pending ≡ some next
      → (g.repair_due ≡ true → g.selection.has ≡ true)
      → (g.selection_since ≡ none → g.selection.has ≡ false)
      → IsValid (commit apply_routes now next g w).1
  unfolding commit
  commit-IsValid next g w e r s = ground arith

  decide-IsValid :
      (r : Result SelectError Selection) (reason : String) (g : Group) (w : W)
      → IsValid g
      → IsValid (decide apply_routes now r reason g w).1
  unfolding decide
  decide-IsValid (err e) reason g w v = v
  decide-IsValid (ok sel) reason g w v = ground arith

  -- Every method keeps the invariant, whatever Apply does.
  pub recompute-IsValid :
      (members : List MemberHealth) (reason : String) (g : Group) (w : W)
      → IsValid g
      → IsValid (recompute apply_routes now members reason g w).1
  unfolding recompute
  recompute-IsValid members reason g w v = decide-IsValid (select g.cfg members) reason g w v

  pub probe-IsValid :
      (wan : String) (g : Group) (w : W) → IsValid g → IsValid (probe apply_routes now wan g w).1
  unfolding probe
  probe-IsValid wan g w v = ground arith

  pub route_observed-IsValid :
      (wan : String) (family : Family) (g : Group) (w : W)
      → IsValid g
      → IsValid (route_observed apply_routes now wan family g w).1
  unfolding route_observed
  route_observed-IsValid wan family g w v = ground arith

  pub decide-cfg :
      (r : Result SelectError Selection) (reason : String) (g : Group) (w : W)
      → (decide apply_routes now r reason g w).1.cfg ≡ g.cfg
  unfolding decide
  decide-cfg r reason g w = ground arith

  pub probe-cfg :
      (wan : String) (g : Group) (w : W) → (probe apply_routes now wan g w).1.cfg ≡ g.cfg
  unfolding probe
  probe-cfg wan g w = ground arith

  pub route_observed-cfg :
      (wan : String) (family : Family) (g : Group) (w : W)
      → (route_observed apply_routes now wan family g w).1.cfg ≡ g.cfg
  unfolding route_observed
  route_observed-cfg wan family g w = ground arith
