-- ===== src/Health/Wans/LinkLaws.antt =====
-- What a link event does to Health: which WANs it changes and which it reports.
use text.Mathlib.TextEquality.{eq_iff}
use nixos_wanwatch.Prelude.{
  ◌≡◌, ◌≢◌, refl, ◌↔◌, List, [], ◌∷◌, ◌++◌, map, String, arith, ap, In, here, there, subst, sym,
  inl, inr, ◌⊎◌,
}
use nixos_wanwatch.Prelude.Text.{str_le}
use nixos_wanwatch.Prelude.Sort.{In-sort_by, sort_by-In}
use nixos_wanwatch.Probe.Float.{Floats}
use nixos_wanwatch.Rtnl.Event.{LinkEvent}
use nixos_wanwatch.Health.Wans.{WanState, Wans, is_healthy}
use nixos_wanwatch.Health.Wans.Links.{link, link_each, link_wan, link_change}

module _ (fl : Floats) where
  -- The event goes to every WAN.
  each_wan :
      (e : LinkEvent) (wans : List (String × WanState fl))
      → (link_each fl e wans).0 ≡ map (λ x. (x.0, link_wan fl e x.1)) wans
  unfolding link_each
  each_wan e [] = refl
  each_wan e ((name, ws) ∷ rest) = ap (λ r. (name, link_wan fl e ws) ∷ r) (each_wan e rest)

  pub link_wans :
      (w : Wans fl) (e : LinkEvent)
      → (link fl w e).0.by_name ≡ map (λ x. (x.0, link_wan fl e x.1)) w.by_name
  unfolding link
  link_wans w e = each_wan e w.by_name

  -- The WANs whose Health the event changes.
  abbrev pub Flips : LinkEvent → WanState fl → Type 0
  Flips e ws = is_healthy fl (link_wan fl e ws) ≢ is_healthy fl ws

  change-Flips :
      (e : LinkEvent) (ws : WanState fl)
      → ((link_change fl e ws).flipped ≡ ws.name ∷ []) × Flips e ws
        ⊎ ((link_change fl e ws).flipped ≡ [])
          × (is_healthy fl (link_wan fl e ws) ≡ is_healthy fl ws)
  unfolding link_change link_wan
  change-Flips e ws = ground arith

  split_report :
      {F E : Type 0} {d r : List String} {own name : String}
      → (d ≡ own ∷ []) × F ⊎ (d ≡ []) × E
      → In name (d ++ r)
      → F × (name ≡ own) ⊎ In name r
  split_report {r = r} {name = name} (inl (e, f)) m = elim (subst (λ l. In name (l ++ r)) e m) [
    | here q ↦ inl (f, q)
    | there n ↦ inr n
  ]
  split_report {r = r} {name = name} (inr (e, f)) m = inr (subst (λ l. In name (l ++ r)) e m)

  In-right : {name : String} (d : List String) {r : List String} → In name r → In name (d ++ r)
  In-right [] m = m
  In-right (x ∷ d) m = there (In-right d m)

  -- The names reported, before they are sorted: those of the WANs whose Health changes.
  reported :
      (e : LinkEvent) (wans : List (String × WanState fl)) {name : String}
      → In name (link_each fl e wans).1.flipped
      → (x : String × WanState fl) × In x wans × Flips e x.1 × (name ≡ x.1.name)
  unfolding link_each
  reported e [] m = elim m [ ]
  reported e ((k, ws) ∷ rest) m = elim (split_report (change-Flips e ws) m) [
    | inl (f, q) ↦ ((k, ws), here refl, f, q)
    | inr n ↦ let (x, i, f, q) = reported e rest n in (x, there i, f, q)
  ]

  told_here :
      (e : LinkEvent) (ws : WanState fl) → Flips e ws → (link_change fl e ws).flipped ≡ ws.name ∷ []
  told_here e ws f = elim (change-Flips e ws) [ inl (q, g) ↦ q | inr (q, same) ↦ elim (f same) [ ] ]

  told_of :
      (e : LinkEvent) (wans : List (String × WanState fl)) {x : String × WanState fl}
      → In x wans
      → Flips e x.1
      → In x.1.name (link_each fl e wans).1.flipped
  unfolding link_each
  told_of e [] m f = elim m [ ]
  told_of e ((j, vs) ∷ rest) {x} (here q) f =
      let f' : Flips e vs = subst (λ y. Flips e y.1) q f in
      subst (λ l. In x.1.name (l ++ (link_each fl e rest).1.flipped)) (sym (told_here e vs f'))
        (here (ap (λ y. y.1.name) q))
  told_of e ((j, vs) ∷ rest) (there m) f =
      In-right (link_change fl e vs).flipped (told_of e rest m f)

  -- The names reported are those of the WANs that `link_wan` flips.
  link-flipped :
      (w : Wans fl) (e : LinkEvent) (name : String)
      → (In name (link fl w e).1.flipped
          ↔ ((x : String × WanState fl) × In x w.by_name × Flips e x.1 × (name ≡ x.1.name)))
        × ((link fl w e).0.by_name ≡ map (λ x. (x.0, link_wan fl e x.1)) w.by_name)
  unfolding link
  link-flipped w e name = ((to, from), link_wans w e)
    where
      to :
          In name (link fl w e).1.flipped
          → (x : String × WanState fl) × In x w.by_name × Flips e x.1 × (name ≡ x.1.name)
      to m = reported e w.by_name (In-sort_by str_le _ m)

      from :
          (x : String × WanState fl) × In x w.by_name × Flips e x.1 × (name ≡ x.1.name)
          → In name (link fl w e).1.flipped
      from (x, m, f, q) =
          subst (λ n. In n (link fl w e).1.flipped) (sym q)
            (sort_by-In str_le _ (told_of e w.by_name m f))

  -- The WAN after the event: on its interface it has the event's carrier and operstate, and else it is
  -- as before.
  abbrev pub Updated : LinkEvent → WanState fl → WanState fl → Type 0
  Updated e ws ws' =
      (ws.cfg.interface ≡ e.name)
        × (ws' ≡ record ws { carrier = e.carrier; operstate = e.operstate })
      ⊎ (ws.cfg.interface ≢ e.name) × (ws' ≡ ws)

  link_wan-Updated : (e : LinkEvent) (ws : WanState fl) → Updated e ws (link_wan fl e ws)
  unfolding link_wan
  link_wan-Updated e ws = ground (arith, eq_iff ws.cfg.interface e.name)

  -- A link event gives each WAN on its interface its carrier and operstate and leaves every other WAN
  -- as it was, and it reports a name exactly when it is the name of a WAN whose Health is then another.
  pub link-Flips :
      (w : Wans fl) (e : LinkEvent) (name : String)
      → (update : WanState fl → WanState fl) × ((ws : WanState fl) → Updated e ws (update ws))
        × ((link fl w e).0.by_name ≡ map (λ x. (x.0, update x.1)) w.by_name)
        × (In name (link fl w e).1.flipped ↔ (
            (x : String × WanState fl) × In x w.by_name
            × (is_healthy fl (update x.1) ≢ is_healthy fl x.1)
            × (name ≡ x.1.name)))
  link-Flips w e name =
      let (f, m) = link-flipped w e name in (link_wan fl e, link_wan-Updated e, m, f)
