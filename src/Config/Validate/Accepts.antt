-- ===== src/Config/Validate/Accepts.antt =====
-- Which configurations `Validate` accepts.
use text.Mathlib.TextEquality.{eq_iff}
use nixos_wanwatch.Prelude.{
  ℕ, ◌+◌, ◌≡◌, ◌↔◌, refl, Bool, true, false, none, some, List, [], ◌∷◌, String, Result, ok, err,
  ◌>>◌, ◌>>=◌, Option-cases, refuse_if, any, All, arith, inl, inr,
}
use nixos_wanwatch.Prelude.Int.{pos, leb_ℤ, ltb_ℤ}
use nixos_wanwatch.Prelude.Text.{str_eq}
use nixos_wanwatch.Prelude.Dict.{lookup}
use nixos_wanwatch.Probe.Family.{Family}
use nixos_wanwatch.Selector.{Group, Member, known_strategies}
use nixos_wanwatch.Config.Types.{Thresholds, Hysteresis, Wan}
use nixos_wanwatch.Config.Validate.{
  Netip, Invalid, Check, each, validate_thresholds, validate_hysteresis, validate_member,
  validate_group, is_declared, is_empty, is_of, check_target, validate_from, validate_target_bucket,
}

abbrev pub Accepts : Check → Type 0
Accepts c = c ≡ ok tt

pub both : (m k : Check) → Accepts (m >> k) ↔ (Accepts m × Accepts k)
both (ok tt) k = ground arith
both (err e) k = ground arith

pub each-All {ℓ} :
    {A : Type ℓ} (f : A → Check) (xs : List A) → Accepts (each f xs) ↔ All (λ x. Accepts (f x)) xs
each-All f [] = ((λ h. tt), (λ h. refl))
each-All f (x ∷ xs) = ground (arith, both (f x) (each f xs), each-All f xs)

refuse_if_iff : (b : Bool) (e : Invalid) → Accepts (refuse_if b e) ↔ (b ≡ false)
refuse_if_iff b e = ground arith

-- Thresholds are accepted exactly when they are percentages and positive times, each recovery bound
-- below its failure bound.
pub validate_thresholds_iff :
    (wan : String) (t : Thresholds)
    → Accepts (validate_thresholds wan t) ↔ (
        (leb_ℤ (pos 0) t.loss_pct_up ≡ true)
        × (ltb_ℤ t.loss_pct_up t.loss_pct_down ≡ true)
        × (leb_ℤ t.loss_pct_down (pos 100) ≡ true)
        × (ltb_ℤ (pos 0) t.rtt_ms_up ≡ true)
        × (ltb_ℤ t.rtt_ms_up t.rtt_ms_down ≡ true))
unfolding validate_thresholds
validate_thresholds_iff wan t = ground arith

-- Hysteresis is accepted exactly when both counts are at least 1.
pub validate_hysteresis_iff :
    (wan : String) (h : Hysteresis)
    → Accepts (validate_hysteresis wan h)
      ↔ ((leb_ℤ (pos 1) h.consecutive_up ≡ true) × (leb_ℤ (pos 1) h.consecutive_down ≡ true))
unfolding validate_hysteresis
validate_hysteresis_iff wan h = ground arith

-- A Group that selection and Apply can work on, over the declared WANs.
abbrev pub IsGroup : List (String × Wan) → String × Group → Type 0
IsGroup wans (key, g) =
    (g.name ≡ key)
    × (any (λ s. str_eq s g.strategy) known_strategies ≡ true)
    × (ltb_ℤ (pos 0) g.table ≡ true)
    × (ltb_ℤ (pos 0) g.mark ≡ true)
    × (is_empty g.members ≡ false)
    × All (λ m. (m.1.wan ≡ m.0) × (is_declared (lookup str_eq m.0 wans) ≡ true)) g.members

pub All-iff {ℓ κ μ} :
    {A : Type ℓ} {P : A → Type κ} {Q : A → Type μ}
    → ((a : A) → P a ↔ Q a)
    → (xs : List A) → All P xs ↔ All Q xs
All-iff e [] = ((λ h. tt), (λ h. tt))
All-iff e (x ∷ xs) =
    let (a, b) = e x in let (f, g) = All-iff e xs in ((λ h. (a h.0, f h.1)), (λ h. (b h.0, g h.1)))

member_iff :
    (key : String) (wans : List (String × Wan)) (m : String × Member)
    → Accepts (validate_member key wans m)
      ↔ ((m.1.wan ≡ m.0) × (is_declared (lookup str_eq m.0 wans) ≡ true))
unfolding validate_member
member_iff key wans (wan, m) = ground (arith, eq_iff m.wan wan)

-- A Group is accepted exactly when it is named by its key, its Strategy is known, its table and mark
-- are positive, and it has Members, each under its WAN's name and of a declared WAN.
pub validate_group_iff :
    (wans : List (String × Wan)) (e : String × Group)
    → Accepts (validate_group wans e) ↔ IsGroup wans e
unfolding validate_group
validate_group_iff wans (key, g) =
    let (f, h) = each-All (validate_member key wans) g.members in
    let (f', h') = All-iff (member_iff key wans) g.members in
    ground (arith, eq_iff g.name key, f, h, f', h')

module _ (net : Netip) where
  -- A text that is an unzoned literal of the Family.
  abbrev pub IsLiteral : Family → String → net.Addr → Type 0
  IsLiteral f t a =
      (net.parse_addr t ≡ some a)
      × (net.zone a ≡ "")
      × (is_of net f a ≡ true)
      × (net.is_4_in_6 a ≡ false)

  -- Each text is a literal, and no two are the same address.
  abbrev pub AreDistinct : Family → List String → List net.Addr → Type 0
  AreDistinct f [] [] = Unit
  AreDistinct f [] (a ∷ xs) = ⊥
  AreDistinct f (t ∷ ts) [] = ⊥
  AreDistinct f (t ∷ ts) (a ∷ xs) =
      IsLiteral f t a × All (λ b. net.same_addr a b ≡ false) xs × AreDistinct f ts xs

  abbrev IsNew : List (net.Addr × ℕ) → net.Addr → Type 0
  IsNew seen a = lookup net.same_addr a seen ≡ none

  target_accepts :
      (wan : String) (f : Family) (i : ℕ) (seen : List (net.Addr × ℕ)) (t : String) (a : net.Addr)
      → (check_target net wan f i seen (net.parse_addr t) ≡ ok a) ↔ (IsLiteral f t a × IsNew seen a)
  target_accepts wan f i seen t a = elim (Option-cases (net.parse_addr t)) [
    | inl e ↦ rw e (ground arith)
    | inr (b, e) ↦ rw e (checked_addr b)
  ]
    where
      checked_addr :
          (b : net.Addr)
          → (check_target net wan f i seen (some b) ≡ ok a) ↔ (
              ((some b ≡ some a)
                × (net.zone a ≡ "")
                × (is_of net f a ≡ true)
                × (net.is_4_in_6 a ≡ false))
              × IsNew seen a)
      checked_addr b =
          ground (arith, eq_iff (net.zone b) "", Option-cases (lookup net.same_addr b seen))

  fresh_after :
      (a : net.Addr) (i : ℕ) (seen : List (net.Addr × ℕ)) (xs : List net.Addr)
      → All (λ b. net.same_addr a b ≡ false) xs
      → All (IsNew seen) xs
      → All (IsNew ((a, i) ∷ seen)) xs
  unfolding lookup
  fresh_after a i seen [] p q = tt
  fresh_after a i seen (x ∷ xs) (p, ps) (q, qs) = (rw p q, fresh_after a i seen xs ps qs)

  fresh_before :
      (a : net.Addr) (i : ℕ) (seen : List (net.Addr × ℕ)) (xs : List net.Addr)
      → All (IsNew ((a, i) ∷ seen)) xs
      → All (λ b. net.same_addr a b ≡ false) xs × All (IsNew seen) xs
  unfolding lookup
  fresh_before a i seen [] n = (tt, tt)
  fresh_before a i seen (x ∷ xs) (p, ps) =
      let (q, qs) = fresh_before a i seen xs ps in let (r, o) = elsewhere p in ((r, q), (o, qs))
    where
      elsewhere : IsNew ((a, i) ∷ seen) x → (net.same_addr a x ≡ false) × IsNew seen x
      elsewhere p = ground arith

  bind_ok :
      (m : Result Invalid net.Addr) {k : net.Addr → Check}
      → Accepts (m >>= k)
      → (a : net.Addr) × (m ≡ ok a) × Accepts (k a)
  bind_ok (ok a) h = (a, refl, h)
  bind_ok (err e) h = cc

  from_distinct :
      (wan : String) (f : Family) (i : ℕ) (seen : List (net.Addr × ℕ)) (ts : List String)
      (xs : List net.Addr)
      → AreDistinct f ts xs
      → All (IsNew seen) xs
      → Accepts (validate_from net wan f i seen ts)
  unfolding validate_from
  from_distinct wan f i seen [] xs d n = refl
  from_distinct wan f i seen (t ∷ ts) [] d n = elim d [ ]
  from_distinct wan f i seen (t ∷ ts) (a ∷ xs) (l, apart, d) (new, n) =
      rw ((target_accepts wan f i seen t a).1 (l, new))
        (from_distinct wan f (i + 1) ((a, i) ∷ seen) ts xs d (fresh_after a i seen xs apart n))

  to_distinct :
      (wan : String) (f : Family) (i : ℕ) (seen : List (net.Addr × ℕ)) (ts : List String)
      → Accepts (validate_from net wan f i seen ts)
      → (xs : List net.Addr) × AreDistinct f ts xs × All (IsNew seen) xs
  unfolding validate_from
  to_distinct wan f i seen [] h = ([], tt, tt)
  to_distinct wan f i seen (t ∷ ts) h =
      let (a, e, k) = bind_ok (check_target net wan f i seen (net.parse_addr t)) h in
      let (l, new) = (target_accepts wan f i seen t a).0 e in
      let (xs, d, n) = to_distinct wan f (i + 1) ((a, i) ∷ seen) ts k in
      let (apart, old) = fresh_before a i seen xs n in (a ∷ xs, (l, apart, d), (new, old))

  -- A bucket of Targets is accepted exactly when each Target is an unzoned, unmapped literal of the
  -- Family and no two are the same address.
  pub validate_target_bucket_iff :
      (wan : String) (f : Family) (ts : List String)
      → Accepts (validate_target_bucket net wan f ts) ↔ ((xs : List net.Addr) × AreDistinct f ts xs)
  unfolding validate_target_bucket lookup
  validate_target_bucket_iff wan f ts = (
    (λ h. let (xs, d, _) = to_distinct wan f 0 [] ts h in (xs, d)),
    (λ (xs, d). from_distinct wan f 0 [] ts xs d (all_new xs)),
  )
    where
      all_new : (xs : List net.Addr) → All (IsNew []) xs
      all_new [] = tt
      all_new (x ∷ xs) = (refl, all_new xs)
