-- ===== src/Daemon/Probers/Started.antt =====
-- Which Pingers are started (daemon/cmd/wanwatchd/probers.go).
use nixos_wanwatch.Prelude.{
  ℕ, ◌<◌, ◌≡◌, refl, sym, ap, ◌∙◌, subst, some, List, map, Result, ok, err, ◌>>=◌, In,
}
use nixos_wanwatch.Prelude.Dict.{lookup}
use nixos_wanwatch.Prelude.Sort.{In-map}
use nixos_wanwatch.Probe.Ident.{
  IdentKey, IdentError, Idents, same_ident, allocate_idents, ident_space,
}
use nixos_wanwatch.Probe.Ident.Distinct.{allocate_covers, allocate_distinct}
use nixos_wanwatch.Probe.Pinger.{Pinger}
use nixos_wanwatch.Config.Types.{Config}
use nixos_wanwatch.Daemon.Probers.{ident_keys_for, or_zero, pinger_of, start_probers}

-- A start that succeeds has allocated the identifiers.
allocated :
    {A : Type 0} (r : Result IdentError Idents) (f : Idents → A) {a : A}
    → (r >>= λ m. ok (f m)) ≡ ok a
    → (m : Idents) × (r ≡ ok m) × (f m ≡ a)
allocated (ok m) f h = (m, refl, ok_inj h)
  where
    ok_inj : {A : Type 0} {a b : A} → ◌≡◌ {A = Result IdentError A} (ok a) (ok b) → a ≡ b
    ok_inj {a} h = ap (λ r. elim r [ ok x ↦ x | err e ↦ a ]) h
allocated (err e) f h = cc

-- A started Pinger is of a key, with the key's identifier.
module _ (initial_ident : IdentKey → ℕ) (cfg : Config) {ps : List Pinger}
    (started : start_probers initial_ident cfg ≡ ok ps) where
  abbrev keys : List IdentKey
  keys = ident_keys_for cfg

  found :
      (m : Idents) × (allocate_idents initial_ident keys ≡ ok m) × (map (pinger_of cfg m) keys ≡ ps)
  unfolding start_probers
  found = allocated (allocate_idents initial_ident keys) (λ m. map (pinger_of cfg m) keys) started

  abbrev OfKey : Idents → Pinger → Type 0
  OfKey m p =
      (k : IdentKey) × In k keys
      × (p ≡ pinger_of cfg m k)
      × (lookup same_ident k m ≡ some p.ident)
      × (p.ident < ident_space)

  of_key :
      (m : Idents)
      → allocate_idents initial_ident keys ≡ ok m
      → map (pinger_of cfg m) keys ≡ ps
      → (p : Pinger) → In p ps
      → OfKey m p
  unfolding pinger_of
  of_key m a e p h =
      let (k, i, q) = In-map (pinger_of cfg m) keys (subst (In p) (sym e) h) in
      let (n, l, b) = allocate_covers initial_ident keys m k a i in
      let same : p.ident ≡ n = ap (λ (p : Pinger). p.ident) q ∙ ap or_zero l in
      (k, i, q, l ∙ ap some (sym same), subst (λ n. n < ident_space) (sym same) b)

  -- Where the start succeeds, two Pingers with one identifier are of one WAN and Family, and every
  -- identifier fits in 16 bits.
  pub start_probers_lem :
      ((p q : Pinger)
        → In p ps
        → In q ps
        → p.ident ≡ q.ident
        → (p.wan ≡ q.wan) × (p.family ≡ q.family))
      × ((p : Pinger) → In p ps → p.ident < ident_space)
  unfolding pinger_of
  start_probers_lem =
      let (m, a, e) = found in
      (
        (λ p q h i same.
            let (k, _, s, l, _) = of_key m a e p h in
            let (j, _, t, r, _) = of_key m a e q i in
            let one : k ≡ j =
              allocate_distinct initial_ident keys m k j q.ident a (l ∙ ap some same) r in
            (
              ap (λ (p : Pinger). p.wan) s
                  ∙ ap (λ (k : IdentKey). k.wan) one
                  ∙ sym (ap (λ (p : Pinger). p.wan) t),
              ap (λ (p : Pinger). p.family) s
                  ∙ ap (λ (k : IdentKey). k.family) one
                  ∙ sym (ap (λ (p : Pinger). p.family) t),
            )),
        (λ p h. let (k, i, s, _, b) = of_key m a e p h in b),
      )
