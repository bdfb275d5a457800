-- ===== src/Prelude/Text.antt =====
-- Go strings: equality, and the bytewise order by which the program sorts names.
use Prim.Native.Nat.{ℕ, Ordering, compare as compare_ℕ}
use Prim.Native.Char.{code}
use Prim.Native.String.compare
use Prim.Native.String.{String, [], ◌∷◌, compare, then}
use mathlib.Core.Path.{◌≡◌, refl}
use mathlib.Core.Logic.{◌⊎◌}
use mathlib.Core.Bool.{Bool, true}
use text.Mathlib.Text.{is_le, ◌==◌}
use text.Mathlib.TextEquality.{path_by_compare}
use text.Mathlib.TextPositions.{compare_refl}
use native.Mathlib.Omega.{arith}

abbrev pub str_eq : String → String → Bool
str_eq s t = s == t

-- `cmp.Compare(s, t) <= 0`
pub str_le : String → String → Bool
str_le s t = is_le (compare s t)

abbrev flip : Ordering → Ordering
flip Ordering.lt = Ordering.gt
flip Ordering.eq = Ordering.eq
flip Ordering.gt = Ordering.lt

flip-compare_ℕ : (a b : ℕ) → compare_ℕ b a ≡ flip (compare_ℕ a b)
flip-compare_ℕ a b = ground arith

flip-then : (o p : Ordering) → then (flip o) (flip p) ≡ flip (then o p)
flip-then o p = ground arith

flip-compare : (s t : String) → compare t s ≡ flip (compare s t)
flip-compare [] [] = rw compare.nil-nil
flip-compare [] (d ∷ t) = rw (compare.nil-cons, compare.cons-nil)
flip-compare (c ∷ s) [] = rw (compare.nil-cons, compare.cons-nil)
flip-compare (c ∷ s) (d ∷ t) =
    rw
      (
        compare.cons-cons d c t s,
        compare.cons-cons c d s t,
        flip-compare s t,
        flip-compare_ℕ (code c) (code d),
      )
      (flip-then (compare_ℕ (code c) (code d)) (compare s t))

-- Of two names one comes first.
pub str_le_total : (s t : String) → (str_le s t ≡ true) ⊎ (str_le t s ≡ true)
unfolding str_le
str_le_total s t = ground (arith, flip-compare s t)

-- Names that stand on either side of one another are equal.
pub str_le_antisymm : (s t : String) → str_le s t ≡ true → str_le t s ≡ true → s ≡ t
unfolding str_le
str_le_antisymm s t p q = path_by_compare s t (ground (arith, flip-compare s t))

then_trans :
    (a b c : ℕ) (p q r : Ordering)
    → (is_le p ≡ true → is_le q ≡ true → is_le r ≡ true)
    → is_le (then (compare_ℕ a b) p) ≡ true
    → is_le (then (compare_ℕ b c) q) ≡ true
    → is_le (then (compare_ℕ a c) r) ≡ true
then_trans a b c p q r h x y = ground arith

pub str_le_trans : (s t u : String) → str_le s t ≡ true → str_le t u ≡ true → str_le s u ≡ true
unfolding str_le
str_le_trans [] t [] p q = refl
str_le_trans [] t (e ∷ u) p q = rw compare.nil-cons
str_le_trans (c ∷ s) [] u p q = cc (rw compare.cons-nil at p)
str_le_trans (c ∷ s) (d ∷ t) [] p q = cc (rw compare.cons-nil at q)
str_le_trans (c ∷ s) (d ∷ t) (e ∷ u) p q = rw compare.cons-cons (
    then_trans (code c) (code d) (code e) (compare s t) (compare t u) (compare s u)
      (str_le_trans s t u) (rw compare.cons-cons at p) (rw compare.cons-cons at q))

pub str_le_refl : (s : String) → str_le s s ≡ true
unfolding str_le
str_le_refl s = rw compare_refl
