-- ===== src/Probe/Aggregate/Order.antt =====
-- The result of `Aggregate` does not depend on the order in which Go visits the map.
use nixos_wanwatch.Prelude.{
  ℕ, ◌≡◌, refl, sym, ap, ◌∙◌, false, Option, none, some, List, [], ◌∷◌, ◌++◌, map, foldl, String,
  if◌then◌else◌, arith, In, here, append_assoc, append-nil,
}
use nixos_wanwatch.Prelude.Text.{str_le_total, str_le_trans, str_le_antisymm}
use nixos_wanwatch.Prelude.Sort.{
  Reorder, Reorder-symm, In-Reorder, same, skip, swap, trans, sort_by, sort_by-Reorder,
  Reorder-append_left, Reorder-append_right, IsStrictOn, In-map,
}
use nixos_wanwatch.Probe.Float.{Floats, Rat}
use nixos_wanwatch.Probe.Window.{WindowStats}
use nixos_wanwatch.Probe.Aggregate.{
  IntMean, add_int, RatMean, add_mean_rat, add_some, TargetStats, target_stats, Totals, visit,
  no_totals, by_target, summary, aggregate,
}

add_int_swap : (m : IntMean) (a b : ℕ) → add_int (add_int m a) b ≡ add_int (add_int m b) a
add_int_swap m a b = ground arith

add_rat_swap :
    (m : RatMean) (a b : Rat)
    → add_mean_rat (add_mean_rat m a) b ≡ add_mean_rat (add_mean_rat m b) a
add_rat_swap m a b = ground arith

add_some_swap {ℓ κ} :
    {M : Type ℓ} {A : Type κ} (add : M → A → M)
    → ((m : M) (a b : A) → add (add m a) b ≡ add (add m b) a)
    → (m : M) (a b : Option A)
    → add_some add (add_some add m a) b ≡ add_some add (add_some add m b) a
add_some_swap add comm m none b = refl
add_some_swap add comm m (some a) none = refl
add_some_swap add comm m (some a) (some b) = comm m a b

module _ (fl : Floats) where
  -- Two states of the loop that differ at most in the order of the Targets' results.
  record Alike (t u : Totals fl) : Type 0 where
    per : Reorder t.per u.per
    rtt : t.rtt ≡ u.rtt
    jitter : t.jitter ≡ u.jitter
    loss : t.loss ≡ u.loss
    all_filled : t.all_filled ≡ u.all_filled

  visit-Alike :
      {t u : Totals fl} (e : String × WindowStats) → Alike t u → Alike (visit fl t e) (visit fl u e)
  visit-Alike e a =
      let ts = target_stats fl e in
      record {
        per = Reorder-append_right _ a.per;
        rtt = ap (λ m. add_some add_int m ts.rtt_micros) a.rtt;
        jitter = ap (λ m. add_some add_int m ts.jitter) a.jitter;
        loss = ap (λ m. add_some add_mean_rat m ts.exact_loss) a.loss;
        all_filled = ap (λ b. if e.1.filled then b else false) a.all_filled;
      }

  visit_swap :
      (t : Totals fl) (x y : String × WindowStats)
      → Alike (visit fl (visit fl t x) y) (visit fl (visit fl t y) x)
  visit_swap t x y =
      let sx = target_stats fl x in
      let sy = target_stats fl y in
      record {
        per =
            rw (append_assoc t.per (sx ∷ []) (sy ∷ []), append_assoc t.per (sy ∷ []) (sx ∷ []))
              (Reorder-append_left t.per (swap sx sy []));
        rtt = add_some_swap add_int add_int_swap t.rtt sx.rtt_micros sy.rtt_micros;
        jitter = add_some_swap add_int add_int_swap t.jitter sx.jitter sy.jitter;
        loss = add_some_swap add_mean_rat add_rat_swap t.loss sx.exact_loss sy.exact_loss;
        all_filled = ground arith;
      }

  Alike-trans : {t u v : Totals fl} → Alike t u → Alike u v → Alike t v
  Alike-trans a b = record {
    per = trans a.per b.per;
    rtt = a.rtt ∙ b.rtt;
    jitter = a.jitter ∙ b.jitter;
    loss = a.loss ∙ b.loss;
    all_filled = a.all_filled ∙ b.all_filled;
  }

  Alike-refl : (t : Totals fl) → Alike t t
  Alike-refl t = record {
    per = same t.per;
    rtt = refl;
    jitter = refl;
    loss = refl;
    all_filled = refl;
  }

  foldl-Alike :
      (l : List (String × WindowStats)) {t u : Totals fl}
      → Alike t u
      → Alike (foldl (visit fl) t l) (foldl (visit fl) u l)
  foldl-Alike [] a = a
  foldl-Alike (e ∷ l) a = foldl-Alike l (visit-Alike e a)

  foldl-Reorder :
      {xs ys : List (String × WindowStats)} (t : Totals fl)
      → Reorder xs ys
      → Alike (foldl (visit fl) t xs) (foldl (visit fl) t ys)
  foldl-Reorder t (same xs) = Alike-refl _
  foldl-Reorder t (skip x r) = foldl-Reorder (visit fl t x) r
  foldl-Reorder t (swap x y xs) = foldl-Alike xs (visit_swap t x y)
  foldl-Reorder t (trans r s) = Alike-trans (foldl-Reorder t r) (foldl-Reorder t s)

  foldl-per :
      (l : List (String × WindowStats)) (t : Totals fl)
      → (foldl (visit fl) t l).per ≡ t.per ++ map (target_stats fl) l
  foldl-per [] t = sym (append-nil t.per)
  foldl-per (e ∷ l) t = foldl-per l (visit fl t e) ∙ append_assoc t.per _ _

  -- The keys of a map are distinct.
  abbrev pub HasDistinctKeys : List (String × WindowStats) → Type 0
  HasDistinctKeys l = (a b : String × WindowStats) → In a l → In b l → a.0 ≡ b.0 → a ≡ b

  strict :
      (l : List (String × WindowStats))
      → HasDistinctKeys l
      → IsStrictOn (by_target fl) (map (target_stats fl) l)
  strict l distinct a b m n p q =
      let (e, k, ea) = In-map (target_stats fl) l m in
      let (f, k', fb) = In-map (target_stats fl) l n in
      let same_name : a.target ≡ b.target = str_le_antisymm a.target b.target p q in
      let names : e.0 ≡ f.0 =
        sym (ap (λ (s : TargetStats fl). s.target) ea)
        ∙ same_name
        ∙ ap (λ (s : TargetStats fl). s.target) fb in
      ea ∙ ap (target_stats fl) (distinct e f k k' names) ∙ sym fb

  summary-Alike :
      {t u : Totals fl} → IsStrictOn (by_target fl) t.per → Alike t u → summary fl t ≡ summary fl u
  summary-Alike {t} {u} s a =
      let sorted : sort_by (by_target fl) t.per ≡ sort_by (by_target fl) u.per =
        sort_by-Reorder (by_target fl) (λ x y. str_le_total x.target y.target)
          (λ x y z. str_le_trans x.target y.target z.target) s a.per in
      cc (a.rtt, a.jitter, a.loss, a.all_filled, sorted)

  per-strict :
      (l : List (String × WindowStats))
      → HasDistinctKeys l
      → IsStrictOn (by_target fl) (foldl (visit fl) (no_totals fl) l).per
  per-strict l d = rw (foldl-per l (no_totals fl)) (strict l d)

  -- Over distinct Targets, the result is the same whatever order they are visited in.
  pub aggregate-Reorder :
      {xs ys : List (String × WindowStats)}
      → HasDistinctKeys xs
      → Reorder xs ys
      → aggregate fl xs ≡ aggregate fl ys
  unfolding aggregate
  aggregate-Reorder {xs = []} {ys = []} d r = refl
  aggregate-Reorder {xs = []} {ys = y ∷ ys} d r = elim (In-Reorder r (here refl)) [ ]
  aggregate-Reorder {xs = x ∷ xs} {ys = []} d r = elim (In-Reorder (Reorder-symm r) (here refl)) [ ]
  aggregate-Reorder {xs = x ∷ xs} {ys = y ∷ ys} d r =
      summary-Alike (per-strict (x ∷ xs) d) (foldl-Reorder (no_totals fl) r)
