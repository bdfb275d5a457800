-- ===== src/Probe/Aggregate/Bounds.antt =====
-- What the aggregate's numbers say: the loss is a ratio, and a full Family has full windows.
use nixos_wanwatch.Prelude.{
  ℕ, ◌*◌, ◌≤◌, ◌<◌, ◌≡◌, ◌≢◌, refl, ◌↔◌, true, Option, none, some, List, [], ◌∷◌, foldl, String,
  arith, All,
}
use nixos_wanwatch.Probe.Float.{Floats, Rat}
use nixos_wanwatch.Probe.Window.{WindowStats, loss_counts}
use nixos_wanwatch.Probe.Window.Ring.{IsValid}
use nixos_wanwatch.Probe.Window.Metrics.{loss_counts_lem}
use nixos_wanwatch.Probe.Aggregate.{
  RatMean, add_mean_rat, add_some, rat_mean, loss_of, Totals, visit, no_totals, aggregate,
}

-- A fraction between 0 and 1.
pub record IsRatio (r : Rat) : Type 0 where
  pub den_pos : 0 < r.den
  pub at_most_one : r.num ≤ r.den

-- The sum of `count` ratios.
record IsSum (m : RatMean) : Type 0 where
  den_pos : 0 < m.total.den
  bounded : m.total.num ≤ m.count * m.total.den

mul_mono : (a b c : ℕ) → a ≤ b → a * c ≤ b * c
mul_mono a b c h = grind arith

mul_pos : (a b : ℕ) → 0 < a → 0 < b → 0 < a * b
mul_pos a b p q = grind arith

add-IsSum : (m : RatMean) (r : Rat) → IsSum m → IsRatio r → IsSum (add_mean_rat m r)
add-IsSum m r s i = record {
  den_pos = mul_pos m.total.den r.den s.den_pos i.den_pos;
  bounded = omega (
    arith,
    mul_mono m.total.num (m.count * m.total.den) r.den s.bounded,
    mul_mono r.num r.den m.total.den i.at_most_one,
  );
}

add_some-IsSum :
    (m : RatMean) (o : Option Rat)
    → IsSum m
    → ((r : Rat) → o ≡ some r → IsRatio r)
    → IsSum (add_some add_mean_rat m o)
add_some-IsSum m none s h = s
add_some-IsSum m (some r) s h = add-IsSum m r s (h r refl)

loss_of-IsRatio :
    {w : WindowStats} (r : Rat) → IsValid w → loss_of (loss_counts w) ≡ some r → IsRatio r
loss_of-IsRatio {w} r v e = ground (arith, (loss_counts_lem v).1)

mean-IsRatio : (m : RatMean) (r : Rat) → IsSum m → rat_mean m ≡ some r → IsRatio r
mean-IsRatio m r s e =
    let (n, d, c) = fields in
    record {
      den_pos = rw d (mul_pos m.total.den m.count s.den_pos c);
      at_most_one = omega (arith, n, d, s.bounded);
    }
  where
    fields : (r.num ≡ m.total.num) × (r.den ≡ m.total.den * m.count) × (0 < m.count)
    fields = ground arith

module _ (fl : Floats) where
  abbrev pub AllValid : List (String × WindowStats) → Type 0
  AllValid = All (λ e. IsValid e.1)

  foldl-IsSum :
      (l : List (String × WindowStats)) (t : Totals fl)
      → AllValid l
      → IsSum t.loss
      → IsSum (foldl (visit fl) t l).loss
  foldl-IsSum [] t v s = s
  foldl-IsSum (e ∷ l) t v s =
      foldl-IsSum l (visit fl t e) v.1 (add_some-IsSum t.loss _ s (λ r p. loss_of-IsRatio r v.0 p))

  -- Over valid windows, the exact loss of a Family that has one is a ratio between 0 and 1.
  pub aggregate_loss-IsRatio :
      (l : List (String × WindowStats)) (r : Rat)
      → AllValid l
      → (aggregate fl l).exact_loss ≡ some r
      → IsRatio r
  unfolding aggregate
  aggregate_loss-IsRatio [] r v e = cc
  aggregate_loss-IsRatio (x ∷ l) r v e =
      mean-IsRatio _ r
        (foldl-IsSum (x ∷ l) (no_totals fl) v
          (record { den_pos = omega arith; bounded = omega arith }))
        e

  foldl-filled :
      (l : List (String × WindowStats)) (t : Totals fl)
      → ((foldl (visit fl) t l).all_filled ≡ true)
        ↔ ((t.all_filled ≡ true) × All (λ e. e.1.filled ≡ true) l)
  foldl-filled [] t = (λ h. (h, tt), λ h. h.0)
  foldl-filled (e ∷ l) t =
      let ih = foldl-filled l (visit fl t e) in
      (λ h. ground (arith, ih.0 h), λ h. ih.1 (ground arith, h.1.1))

  -- A Family's window is full exactly when it has a Target and every Target's window is full.
  pub aggregate_filled :
      (l : List (String × WindowStats))
      → ((aggregate fl l).window_filled ≡ true) ↔ ((l ≢ []) × All (λ e. e.1.filled ≡ true) l)
  unfolding aggregate
  aggregate_filled [] = (λ h. cc, λ h. absurd (h.0 refl))
  aggregate_filled (x ∷ l) =
      let all = foldl-filled (x ∷ l) (no_totals fl) in
      (λ h. ((λ e. cc), (all.0 h).1), λ h. all.1 (refl, h.1))
