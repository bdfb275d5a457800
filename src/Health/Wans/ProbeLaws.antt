-- ===== src/Health/Wans/ProbeLaws.antt =====
-- What a probe result does to Health: the cold start, the seed and the reported change.
use text.Mathlib.TextEquality.{eq_iff}
use text.Mathlib.TextPositions.{eq_refl}
use nixos_wanwatch.Prelude.{
  ◌≡◌, ◌≢◌, refl, true, false, not, ◌||◌, none, some, [], ◌∷◌, String, arith, if◌then◌else◌, ap,
  ◌∙◌, sym, Bool-cases, inl, inr, ◌⊎◌,
}
use nixos_wanwatch.Prelude.Text.{str_eq}
use nixos_wanwatch.Prelude.Dict.{lookup, insert, lookup-insert, count_if-insert}
use nixos_wanwatch.Probe.Family.{Family, eq_family, eq_family_iff}
use nixos_wanwatch.Probe.Float.{Floats}
use nixos_wanwatch.Probe.Aggregate.{FamilyStats}
use nixos_wanwatch.Health.Hysteresis.{seed}
use nixos_wanwatch.Health.Thresholds.{evaluate_thresholds}
use nixos_wanwatch.Health.Wans.{
  FamilyState, WanState, Wans, ProbeResult, Change, no_change, probe, fold, judged, is_healthy,
  set_family, votes, probe_family, healthy_wan,
}

module _ (fl : Floats) where
  -- The WAN that a result names, with the Family that it is of.
  pub record Names (w : Wans fl) (r : ProbeResult fl) (ws : WanState fl) (fs : FamilyState fl)
      : Type 0 where
    pub wan_known : lookup str_eq r.wan w.by_name ≡ some ws
    pub family_known : lookup eq_family r.family ws.families ≡ some fs

  -- A result for an unknown WAN or an unprobed Family changes nothing at all.
  pub probe_unknown :
      (w : Wans fl) (r : ProbeResult fl)
      → (lookup str_eq r.wan w.by_name ≡ none)
        ⊎ ((ws : WanState fl) × (lookup str_eq r.wan w.by_name ≡ some ws)
            × (lookup eq_family r.family ws.families ≡ none))
      → probe fl w r ≡ (w, no_change)
  unfolding probe
  probe_unknown w r (inl e) = rw e
  probe_unknown w r (inr (ws, e, f)) = rw (e, f)

  -- A Family that votes as before leaves its WAN's Health as it was.
  same_votes :
      (ws : WanState fl) (fam : Family) {old : FamilyState fl} (new : FamilyState fl)
      → lookup eq_family fam ws.families ≡ some old
      → votes fl (fam, new) ≡ votes fl (fam, old)
      → is_healthy fl (set_family fl ws fam new) ≡ is_healthy fl ws
  unfolding is_healthy
  same_votes ws fam new e h =
      let (c, l) =
        count_if-insert eq_family (λ (f : FamilyState fl). votes fl (fam, f)) fam new ws.families e
          h in
      rw (c, l)

  -- What `fold` reports is the change of the WAN's Health, under the WAN's name.
  fold_flips :
      (ws : WanState fl) (fam : Family) (fs : FamilyState fl) (stats : FamilyStats fl)
      → let (c, ws', _) = fold fl ws fam fs stats in
        ((c.flipped ≡ ws.name ∷ []) × (is_healthy fl ws' ≡ not (is_healthy fl ws)))
        ⊎ ((c.flipped ≡ []) × (is_healthy fl ws' ≡ is_healthy fl ws))
  unfolding fold
  fold_flips ws fam fs stats = ground arith

  module _ {w : Wans fl} {r : ProbeResult fl} {ws : WanState fl} {fs : FamilyState fl}
      (n : Names w r ws fs) where
    abbrev fresh : FamilyState fl
    fresh = record fs { stats = r.stats }

    abbrev told : WanState fl
    told = set_family fl ws r.family fresh

    -- The WAN after the result, with what is reported.
    abbrev outcome : Change × WanState fl × FamilyState fl
    outcome =
        if fs.cooked || r.stats.window_filled
        then fold fl told r.family fresh r.stats
        else (no_change, told, fresh)

    told_healthy : is_healthy fl told ≡ is_healthy fl ws
    told_healthy = same_votes ws r.family fresh n.family_known refl

    probe_eq : probe fl w r ≡ probe_family fl w ws r (some fs)
    unfolding probe
    probe_eq = rw (n.wan_known, n.family_known)

    probe_change : (probe fl w r).1 ≡ outcome.0
    unfolding probe_family
    probe_change = rw probe_eq

    probe_map : (probe fl w r).0.by_name ≡ insert str_eq r.wan outcome.1 w.by_name
    unfolding probe_family
    probe_map = rw probe_eq

    healthy_after :
        (name : String)
        → healthy_wan fl (probe fl w r).0 name
          ≡ (if str_eq r.wan name then is_healthy fl outcome.1 else healthy_wan fl w name)
    unfolding healthy_wan
    healthy_after name =
        rw (probe_map, lookup-insert str_eq eq_iff r.wan name outcome.1 w.by_name)
          (elim (Bool-cases (str_eq r.wan name)) [ inl e ↦ rw e | inr e ↦ rw e ])

    healthy_before : healthy_wan fl w r.wan ≡ is_healthy fl ws
    unfolding healthy_wan
    healthy_before = rw n.wan_known

    outcome_flips :
        ((outcome.0.flipped ≡ ws.name ∷ []) × (is_healthy fl outcome.1 ≡ not (is_healthy fl ws)))
        ⊎ ((outcome.0.flipped ≡ []) × (is_healthy fl outcome.1 ≡ is_healthy fl ws))
    outcome_flips = elim (Bool-cases (fs.cooked || r.stats.window_filled)) [
      | inl e ↦ rw e (rw told_healthy at (fold_flips told r.family fresh r.stats))
      | inr e ↦ rw e (inr (refl, told_healthy))
    ]

    -- A result reports its WAN as flipped, and no other one, exactly when it changes the WAN's Health.
    pub probe_flips :
        ((probe fl w r).1.flipped ≡ ws.name ∷ [])
          × (healthy_wan fl (probe fl w r).0 r.wan ≡ not (healthy_wan fl w r.wan))
        ⊎ ((probe fl w r).1.flipped ≡ [])
          × (healthy_wan fl (probe fl w r).0 r.wan ≡ healthy_wan fl w r.wan)
    probe_flips = rw (probe_change, here_after, healthy_before) outcome_flips
      where
        here_after : healthy_wan fl (probe fl w r).0 r.wan ≡ is_healthy fl outcome.1
        here_after = healthy_after r.wan ∙ rw (eq_refl r.wan)

    -- A result changes no other WAN's Health.
    pub probe_others :
        (name : String)
        → name ≢ r.wan
        → healthy_wan fl (probe fl w r).0 name ≡ healthy_wan fl w name
    probe_others name ne = healthy_after name ∙ ground (arith, eq_iff r.wan name)

    -- Before a Family's first full window its results change no WAN's Health and report nothing, so
    -- carrier alone decides.
    pub cold_start :
        fs.cooked ≡ false
        → r.stats.window_filled ≡ false
        → ((probe fl w r).1 ≡ no_change)
          × ((name : String) → healthy_wan fl (probe fl w r).0 name ≡ healthy_wan fl w name)
    cold_start uncooked partial = (probe_change ∙ ap (λ x. x.0) quiet, same)
      where
        unjudged : fs.cooked || r.stats.window_filled ≡ false
        unjudged = rw (uncooked, partial) refl

        quiet : outcome ≡ (no_change, told, fresh)
        quiet =
            ap (λ b. if b then fold fl told r.family fresh r.stats else (no_change, told, fresh))
              unjudged

        own : is_healthy fl outcome.1 ≡ healthy_wan fl w r.wan
        own = ap (λ x. is_healthy fl x.1) quiet ∙ told_healthy ∙ sym healthy_before

        same : (name : String) → healthy_wan fl (probe fl w r).0 name ≡ healthy_wan fl w name
        same name = healthy_after name ∙ elim (Bool-cases (str_eq r.wan name)) [
          | inl e ↦ rw e (own ∙ ap (λ n. healthy_wan fl w n) ((eq_iff r.wan name).0 e))
          | inr e ↦ rw e
        ]

    -- The WAN and the Family that the result leaves.
    after_full :
        r.stats.window_filled ≡ true
        → let ws' = set_family fl told r.family (judged fl ws.cfg.probe.thresholds fresh r.stats) in
          outcome.1 ≡ ws'
    unfolding fold
    after_full full = elim (Bool-cases fs.cooked) [
      | inl e ↦ rw (e, full) refl
      | inr e ↦ rw (e, full) refl
    ]

    known_after : lookup str_eq r.wan (probe fl w r).0.by_name ≡ some outcome.1
    known_after =
        rw probe_map
          (lookup-insert str_eq eq_iff r.wan r.wan outcome.1 w.by_name ∙ rw (eq_refl r.wan))

    family_refl : eq_family r.family r.family ≡ true
    family_refl = (eq_family_iff r.family r.family).1 refl

    -- After a full window the Family is the one that the threshold verdict on it makes.
    pub family_after :
        r.stats.window_filled ≡ true
        → lookup eq_family r.family outcome.1.families
          ≡ some (judged fl ws.cfg.probe.thresholds fresh r.stats)
    family_after full =
        ap (λ x. lookup eq_family r.family x.families) (after_full full)
        ∙ lookup-insert eq_family eq_family_iff r.family r.family
            (judged fl ws.cfg.probe.thresholds fresh r.stats) told.families
        ∙ rw family_refl

    -- The first full window cooks the Family and seeds its Health with the threshold verdict, which
    -- is taken as for a healthy Family: no consecutive cycles are awaited.
    pub ramp :
        fs.cooked ≡ false
        → r.stats.window_filled ≡ true
        → (ws' : WanState fl) × (fs' : FamilyState fl) × (lookup str_eq r.wan
              (probe fl w r).0.by_name
            ≡ some ws')
          × (lookup eq_family r.family ws'.families ≡ some fs')
          × (fs'.cooked ≡ true)
          × (fs'.healthy ≡ evaluate_thresholds fl true r.stats ws.cfg.probe.thresholds)
          × ((probe fl w r).1.republish ≡ true)
    unfolding fold judged seed
    ramp uncooked full = (
      outcome.1,
      judged fl ws.cfg.probe.thresholds fresh r.stats,
      known_after,
      family_after full,
      refl,
      ground arith,
      ap (λ (c : Change). c.republish) probe_change ∙ ground arith,
    )
