-- ===== src/Decision/Traces.antt =====
-- A Group over any sequence of calls.
use nixos_wanwatch.Prelude.{
  ℕ, ◌≡◌, refl, sym, Bool, Option, none, some, List, [], ◌∷◌, String, subst,
}
use nixos_wanwatch.Probe.Family.{Family}
use nixos_wanwatch.Selector
use nixos_wanwatch.Selector.{Active, no_active, MemberHealth, select}
use nixos_wanwatch.Decision.{Commit, Group, new_group, recompute, probe, route_observed}
use nixos_wanwatch.Decision.Steps.{
  IsValid, new_group-IsValid, recompute-IsValid, probe-IsValid, route_observed-IsValid, decide-cfg,
  probe-cfg, route_observed-cfg,
}
use nixos_wanwatch.Decision.Commits.{
  Sound, Tells, recompute-Sound, probe-Sound, route_observed-Sound,
}

-- What the daemon asks of a Group.
pub data Call : Type 0 where
  recompute_call : List MemberHealth → String → Call
  probe_call : String → Call
  route_call : String → Family → Call

module _ {W : Type 0} (apply_routes : String → List Family → W → W × Bool) (now : W → ℕ) where
  unfoldable pub answer : Call → Group → W → Option Commit × Group × W
  answer (recompute_call members reason) g w = recompute apply_routes now members reason g w
  answer (probe_call wan) g w = probe apply_routes now wan g w
  answer (route_call wan family) g w = route_observed apply_routes now wan family g w

  -- A call changes the committed Selection only by the commit that it returns, and returns one onto a
  -- WAN only after a full, successful Apply.
  pub answer-Sound :
      (call : Call) (g : Group) (w : W) → Sound apply_routes now g w (answer call g w)
  unfolding answer
  answer-Sound (recompute_call members reason) g w =
      recompute-Sound apply_routes now members reason g w
  answer-Sound (probe_call wan) g w = probe-Sound apply_routes now wan g w
  answer-Sound (route_call wan family) g w = route_observed-Sound apply_routes now wan family g w

  pub answer-cfg : (call : Call) (g : Group) (w : W) → (answer call g w).1.cfg ≡ g.cfg
  unfolding answer recompute
  answer-cfg (recompute_call members reason) g w =
      decide-cfg apply_routes now (select g.cfg members) reason g w
  answer-cfg (probe_call wan) g w = probe-cfg apply_routes now wan g w
  answer-cfg (route_call wan family) g w = route_observed-cfg apply_routes now wan family g w

  abbrev pub add_commit : Option Commit → List Commit → List Commit
  add_commit none cs = cs
  add_commit (some c) cs = c ∷ cs

  -- The commits in order, and the Group and world at the end.
  unfoldable pub run : List Call → Group → W → List Commit × Group × W
  unfolding answer
  run [] g w = ([], g, w)
  run (call ∷ calls) g w =
      let (c, g', w') = answer call g w in
      let (cs, g'', w'') = run calls g' w' in (add_commit c cs, g'', w'')

  pub answer-IsValid : (call : Call) (g : Group) (w : W) → IsValid g → IsValid (answer call g w).1
  unfolding answer
  answer-IsValid (recompute_call members reason) g w v =
      recompute-IsValid apply_routes now members reason g w v
  answer-IsValid (probe_call wan) g w v = probe-IsValid apply_routes now wan g w v
  answer-IsValid (route_call wan family) g w v =
      route_observed-IsValid apply_routes now wan family g w v

  pub answer-Tells :
      (call : Call) (g : Group) (w : W) → let (c, g', _) = answer call g w in Tells g c g'
  unfolding answer
  answer-Tells (recompute_call members reason) g w =
      (recompute-Sound apply_routes now members reason g w).0
  answer-Tells (probe_call wan) g w = (probe-Sound apply_routes now wan g w).0
  answer-Tells (route_call wan family) g w =
      (route_observed-Sound apply_routes now wan family g w).0

  -- Each commit starts from the Selection at which the one before it ended.
  abbrev pub Chain : Active → List Commit → Active → Type 0
  Chain a [] b = a ≡ b
  Chain a (c ∷ cs) b = (c.old ≡ a) × Chain c.new cs b

  Chain-add :
      (g g' : Group) (c : Option Commit) (cs : List Commit) (b : Active)
      → Tells g c g'
      → Chain g'.selection cs b
      → Chain g.selection (add_commit c cs) b
  Chain-add g g' none cs b t h = subst (λ a. Chain a cs b) t.0 h
  Chain-add g g' (some c) cs b t h = (t.0, subst (λ a. Chain a cs b) (sym t.1) h)

  -- Over any calls, whatever Apply does, the commits returned lead from the first Selection to the
  -- last, each from where the one before it ended.
  pub run-Chain :
      (calls : List Call) (g : Group) (w : W)
      → let (cs, g', _) = run calls g w in Chain g.selection cs g'.selection
  unfolding run
  run-Chain [] g w = refl
  run-Chain (call ∷ calls) g w =
      let (c, g', w') = answer call g w in
      Chain-add g g' c (run calls g' w').0 (run calls g' w').1.selection (answer-Tells call g w)
        (run-Chain calls g' w')

  -- A new Group is valid after every sequence of calls.
  pub run-IsValid :
      (cfg : Selector.Group) (calls : List Call) (w : W) → IsValid (run calls (new_group cfg) w).1
  unfolding run
  run-IsValid cfg calls w = from calls (new_group cfg) w (new_group-IsValid cfg)
    where
      from : (calls : List Call) (g : Group) (w : W) → IsValid g → IsValid (run calls g w).1
      from [] g w v = v
      from (call ∷ calls) g w v =
          let (c, g', w') = answer call g w in from calls g' w' (answer-IsValid call g w v)
