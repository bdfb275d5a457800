-- ===== src/Health/Wans/Policy.antt =====
-- When a WAN is healthy: its carrier, and its Families under the policy.
use text.Mathlib.TextEquality.{eq_iff}
use nixos_wanwatch.Prelude.{
  ◌<◌, ◌≡◌, ◌≢◌, refl, ◌↔◌, Bool, true, false, ◌&&◌, List, [], ◌∷◌, count_if, count_if-le, length,
  All, In, here, there, Bool-cases, inl, inr, arith, ap, ◌∙◌, sym, ◌⊎◌,
}
use nixos_wanwatch.Probe.Family.{Family}
use nixos_wanwatch.Probe.Float.{Floats}
use nixos_wanwatch.Rtnl.Event.{Carrier, carrier_down, carrier_up, Operstate, up}
use nixos_wanwatch.Health.Wans.{
  FamilyState, WanState, is_carrier_up, votes, combine_families, is_healthy, is_downish,
}

module _ {ℓ} {A : Type ℓ} (p : A → Bool) where
  All-of_count : (l : List A) → count_if p l ≡ length l → All (λ x. p x ≡ true) l
  All-of_count [] h = tt
  All-of_count (x ∷ l) h =
      (ground (arith, count_if-le p l), All-of_count l (ground (arith, count_if-le p l)))

  count_of_All : (l : List A) → All (λ x. p x ≡ true) l → count_if p l ≡ length l
  count_of_All [] h = refl
  count_of_All (x ∷ l) h = rw (h.0, count_of_All l h.1)

  some_of_count : (l : List A) → 0 < count_if p l → (x : A) × In x l × (p x ≡ true)
  some_of_count [] h = absurd (omega arith)
  some_of_count (x ∷ l) h = elim (Bool-cases (p x)) [
    | inl e ↦ (x, here refl, e)
    | inr e ↦ let (y, m, q) = some_of_count l (ground arith) in (y, there m, q)
  ]

  count_of_some : (l : List A) {x : A} → In x l → p x ≡ true → 0 < count_if p l
  count_of_some [] m h = elim m [ ]
  count_of_some (y ∷ l) (here e) h = rw (sym (ap p e) ∙ h) (omega arith)
  count_of_some (y ∷ l) (there m) h = let ih = count_of_some l m h in ground arith

-- The carrier is not down, no operstate vetoes, and one of the two signals says "up".
abbrev pub HasLink : Carrier → Operstate → Type 0
HasLink c o = (c ≢ carrier_down) × (is_downish o ≡ false) × ((c ≡ carrier_up) ⊎ (o ≡ up))

and_iff : (a b : Bool) → ((a && b) ≡ true) ↔ ((a ≡ true) × (b ≡ true))
and_iff a b = (λ h. ground arith, λ h. ground arith)

length_pos {ℓ} : {A : Type ℓ} (l : List A) → (0 < length l) ↔ (l ≢ [])
length_pos [] = (λ h. absurd (omega arith), λ h. absurd (h refl))
length_pos (x ∷ l) = (λ h e. cc, λ h. omega arith)

module _ (fl : Floats) where
  combine_any :
      (ws : WanState fl)
      → ws.cfg.probe.family_health_policy ≡ "any"
      → (combine_families fl ws ≡ true) ↔ (0 < count_if (votes fl) ws.families)
  unfolding combine_families
  combine_any ws any = (
    λ h. ground (arith, eq_iff ws.cfg.probe.family_health_policy "any"),
    λ h.
        ground (
          arith,
          eq_iff ws.cfg.probe.family_health_policy "any",
          count_if-le (votes fl) ws.families,
        ),
  )

  combine_all :
      (ws : WanState fl)
      → ws.cfg.probe.family_health_policy ≢ "any"
      → (combine_families fl ws ≡ true)
        ↔ ((0 < length ws.families) × (count_if (votes fl) ws.families ≡ length ws.families))
  unfolding combine_families
  combine_all ws not_any = (
    λ h. ground (arith, eq_iff ws.cfg.probe.family_health_policy "any"),
    λ h. ground (arith, eq_iff ws.cfg.probe.family_health_policy "any"),
  )

  and_of :
      (ws : WanState fl)
      → (is_healthy fl ws ≡ true) ↔ ((is_carrier_up fl ws ≡ true) × (combine_families fl ws ≡ true))
  unfolding is_healthy
  and_of ws = and_iff (is_carrier_up fl ws) (combine_families fl ws)

  -- Under "any", a WAN with a link is healthy exactly when some Family votes healthy.
  pub is_healthy_any :
      (ws : WanState fl)
      → ws.cfg.probe.family_health_policy ≡ "any"
      → (is_healthy fl ws ≡ true) ↔ (
          (is_carrier_up fl ws ≡ true)
          × ((e : Family × FamilyState fl) × In e ws.families × (votes fl e ≡ true)))
  is_healthy_any ws any =
      let both = and_of ws in
      let some = combine_any ws any in
      (
        λ h. ((both.0 h).0, some_of_count (votes fl) ws.families (some.0 (both.0 h).1)),
        λ h.
            let (link, (e, m, v)) = h in
            both.1 (link, some.1 (count_of_some (votes fl) ws.families m v)),
      )

  -- Under every other policy, a WAN with a link is healthy exactly when it has a Family and every
  -- Family votes healthy.
  pub is_healthy-All :
      (ws : WanState fl)
      → ws.cfg.probe.family_health_policy ≢ "any"
      → (is_healthy fl ws ≡ true) ↔ (
          (is_carrier_up fl ws ≡ true)
          × (ws.families ≢ [])
          × All (λ e. votes fl e ≡ true) ws.families)
  is_healthy-All ws not_any =
      let both = and_of ws in
      let every = combine_all ws not_any in
      let pos = length_pos ws.families in
      (
        λ h.
            let (present, e) = every.0 (both.0 h).1 in
            ((both.0 h).0, pos.0 present, All-of_count (votes fl) ws.families e),
        λ (link, some, v).
            both.1 (link, every.1 (pos.1 some, count_of_All (votes fl) ws.families v)),
      )

  -- The carrier counts as up exactly when it is not down, no operstate vetoes, and the carrier or the
  -- operstate says "up".
  pub is_carrier_up_lem :
      (ws : WanState fl) → (is_carrier_up fl ws ≡ true) ↔ HasLink ws.carrier ws.operstate
  unfolding is_carrier_up
  is_carrier_up_lem ws = (λ h. ground arith, λ h. ground arith)
