-- ===== src/Decision/Waits.antt =====
-- How a pending Decision ends (daemon/internal/decision/group.go).
use nixos_wanwatch.Prelude.{
  ℕ, zero, suc, ◌≡◌, refl, sym, ◌∙◌, ap, subst, Bool, true, false, Option, none, some, List, [],
  ◌∷◌, map, String, if◌then◌else◌, arith,
}
use nixos_wanwatch.Prelude.Text.{str_eq}
use nixos_wanwatch.Probe.Family.{Family}
use nixos_wanwatch.Selector.{Active}
use nixos_wanwatch.Decision.{Commit, Group, settle, commit, probe, route_observed}
use nixos_wanwatch.Decision.Steps.{WantsWan, IsValid}
use nixos_wanwatch.Decision.Traces.{Call, probe_call, route_call, add_commit, answer, run}

-- What the daemon is told of the WANs: a probe result, or the default route of a Family.
pub data Report : Type 0 where
  probed : String → Report
  routed : String → Family → Report

abbrev pub wan_of : Report → String
wan_of (probed wan) = wan
wan_of (routed wan family) = wan

abbrev pub call_of : Report → Call
call_of (probed wan) = probe_call wan
call_of (routed wan family) = route_call wan family

-- How many reports are of a WAN.
unfoldable pub mentions : String → List Report → ℕ
mentions wan [] = 0
mentions wan (r ∷ rs) = let n = mentions wan rs in if str_eq wan (wan_of r) then suc n else n

module _ {W : Type 0} (apply_routes : String → List Family → W → W × Bool) (now : W → ℕ) where
  -- The world that the first full Apply of a WAN leaves which succeeds, of at most `n` in a row.
  unfoldable pub first_applied : String → ℕ → W → Option W
  first_applied wan zero w = none
  first_applied wan (suc n) w =
      let (w', failed) = apply_routes wan [] w in
      let rest = first_applied wan n w' in if failed then rest else some w'

  -- The end of a Decision for `p`, given the world of its Apply.
  abbrev pub Ended : Active → Group → Option W → List Commit × Group × W → Type 0
  Ended p g none (cs, g', w) = (cs ≡ []) × (g'.pending ≡ some p) × (g'.selection ≡ g.selection)
  Ended p g (some at) (cs, g', w) =
      (cs ≡ record { old = g.selection; new = p; at = now at } ∷ [])
      × (g'.pending ≡ none)
      × (g'.selection ≡ p)

  abbrev Quiet : Active → Option Commit × Group × W → Type 0
  Quiet s (c, g, w) = (c ≡ none) × (g.pending ≡ none) × (g.selection ≡ s)

  answer-Quiet :
      (r : Report) (g : Group) (w : W)
      → g.pending ≡ none
      → Quiet g.selection (answer apply_routes now (call_of r) g w)
  unfolding answer probe route_observed
  answer-Quiet (probed wan) g w e = ground arith
  answer-Quiet (routed wan family) g w e = ground arith

  abbrev after : List Call → Option Commit × Group × W → List Commit × Group × W
  after calls (c, g, w) =
      let (cs, g', w') = run apply_routes now calls g w in
      (add_commit apply_routes now c cs, g', w')

  abbrev AllQuiet : Active → List Commit × Group × W → Type 0
  AllQuiet s (cs, g, w) = (cs ≡ []) × (g.pending ≡ none) × (g.selection ≡ s)

  run-AllQuiet :
      (rs : List Report) (g : Group) (w : W)
      → g.pending ≡ none
      → AllQuiet g.selection (run apply_routes now (map call_of rs) g w)
  unfolding run
  run-AllQuiet [] g w e = (refl, e, refl)
  run-AllQuiet (r ∷ rs) g w e =
      let x = answer apply_routes now (call_of r) g w in
      let q = answer-Quiet r g w e in
      let (cs, p, s) = run-AllQuiet rs x.1 x.2 q.1 in
      (
        ap (λ c. add_commit apply_routes now c (after (map call_of rs) (none, x.1, x.2)).0) q.0
            ∙ cs,
        p,
        s ∙ q.2,
      )

  answer_pending :
      (p : Active) (r : Report) (g : Group) (w : W)
      → g.pending ≡ some p
      → p.has ≡ true
      → answer apply_routes now (call_of r) g w
        ≡ (if str_eq p.wan (wan_of r) then commit apply_routes now p g w else (none, g, w))
  unfolding answer probe route_observed
  answer_pending p (probed wan) g w e up = ground arith
  answer_pending p (routed wan family) g w e up = ground arith

  tried : Active → Group → W × Bool → Option Commit × Group × W
  tried p g (w, failed) = if failed then (none, g, w) else settle apply_routes now p g w

  commit-tried :
      (p : Active) (g : Group) (w : W)
      → p.has ≡ true
      → commit apply_routes now p g w ≡ tried p g (apply_routes p.wan [] w)
  unfolding commit tried
  commit-tried p g w up = rw up refl

  abbrev applied : String → ℕ → W × Bool → Option W
  applied wan n (w, failed) = if failed then first_applied wan n w else some w

  tried-Ended :
      (p : Active) (rs : List Report) (n : ℕ) (g : Group)
      → ((w : W) → Ended p g (first_applied p.wan n w) (run apply_routes now (map call_of rs) g w))
      → (x : W × Bool) → Ended p g (applied p.wan n x) (after (map call_of rs) (tried p g x))
  unfolding tried settle
  tried-Ended p rs n g ih (w, true) = ih w
  tried-Ended p rs n g ih (w, false) =
      let (_, g', _) = settle apply_routes now p g w in
      let (cs, pending, selection) = run-AllQuiet rs g' w refl in
      (ap (λ cs. record { old = g.selection; new = p; at = now w } ∷ cs) cs, pending, selection)

  answered-Ended :
      (p : Active) (rs : List Report) (n : ℕ) (g : Group) (w : W)
      → p.has ≡ true
      → ((w : W) → Ended p g (first_applied p.wan n w) (run apply_routes now (map call_of rs) g w))
      → (b : Bool)
      → Ended p g
          (first_applied p.wan (if b then suc n else n) w)
          (after (map call_of rs) (if b then commit apply_routes now p g w else (none, g, w)))
  unfolding first_applied
  answered-Ended p rs n g w up ih false = ih w
  answered-Ended p rs n g w up ih true =
      subst (λ o. Ended p g (applied p.wan n (apply_routes p.wan [] w)) (after (map call_of rs) o))
        (sym (commit-tried p g w up)) (tried-Ended p rs n g ih (apply_routes p.wan [] w))

  -- Whatever probe results and routes come, a pending Decision of a valid Group is committed by the
  -- first of them on its WAN for which the full Apply of that WAN succeeds, after one try for each, and
  -- this is the only commit; while there is none such, the Decision stays pending and the Selection
  -- stands.
  pub run-Ended :
      (p : Active) (rs : List Report) (g : Group) (w : W)
      → IsValid g
      → g.pending ≡ some p
      → Ended p g
          (first_applied p.wan (mentions p.wan rs) w)
          (run apply_routes now (map call_of rs) g w)
  unfolding run mentions first_applied
  run-Ended p rs g w v e = from rs w
    where
      up : p.has ≡ true
      up = subst WantsWan e v.pending_up

      from :
          (rs : List Report) (w : W)
          → Ended p g
              (first_applied p.wan (mentions p.wan rs) w)
              (run apply_routes now (map call_of rs) g w)
      from [] w = (refl, e, refl)
      from (r ∷ rs) w =
          subst
            (λ o.
              Ended p g
                (first_applied p.wan
                  (if str_eq p.wan (wan_of r) then suc (mentions p.wan rs) else mentions p.wan rs)
                  w)
                (after (map call_of rs) o))
            (sym (answer_pending p r g w e up))
            (answered-Ended p rs (mentions p.wan rs) g w up (from rs) (str_eq p.wan (wan_of r)))
