-- ===== src/Probe/Window/Metrics.antt =====
-- The accessors of a window, in terms of the samples it holds.
use Prim.Native.Nat.{ℕ, ◌+◌, ◌*◌, ◌/◌, ◌^◌, ◌≤◌, ◌<◌}
use nixos_wanwatch.Prelude.{
  ◌≡◌, false, not, none, some, List, [], ◌∷◌, foldl, length, count_if, count_if-le, arith,
  if◌then◌else◌, ◌==◌, Bool-cases, inl, inr,
}
use nixos_wanwatch.Probe.Window.{Sample, WindowStats, len, add_lost, loss_counts, add_rtt, mean_rtt}
use nixos_wanwatch.Probe.Window.Ring.{IsValid}
use nixos_wanwatch.Probe.Window.Refine.{
  contents, for_each_refines, length-contents, length-contents-le,
}

foldl-add_lost : (l : List Sample) (acc : ℕ) → foldl add_lost acc l ≡ acc + count_if (λ s. s.lost) l
foldl-add_lost [] acc = omega arith
foldl-add_lost (s ∷ l) acc = ground (arith, foldl-add_lost l (add_lost acc s))

-- In a valid window `LossCounts` counts the lost samples held and all the samples held, and the first
-- is at most the second.
pub loss_counts_lem :
    {w : WindowStats}
    → IsValid w
    → (loss_counts w ≡ (count_if (λ s. s.lost) (contents w), length (contents w)))
      × ((loss_counts w).0 ≤ (loss_counts w).1)
unfolding loss_counts
loss_counts_lem {w} v = ground (
  arith,
  for_each_refines add_lost 0 v,
  foldl-add_lost (contents w) 0,
  length-contents v,
  count_if-le (λ s. s.lost) (contents w),
)

-- The round-trip times of the successful samples, and their number.
abbrev pub rtt_sum : List Sample → ℕ
rtt_sum [] = 0
rtt_sum (s ∷ l) = let rest = rtt_sum l in if s.lost then rest else s.rtt_micros + rest

abbrev pub successes : List Sample → ℕ
successes l = count_if (λ s. not s.lost) l

foldl-add_rtt :
    (l : List Sample) (sum n : ℕ)
    → sum + rtt_sum l < 2 ^ 64
    → n + length l < 2 ^ 64
    → foldl add_rtt (sum, n) l ≡ (sum + rtt_sum l, n + successes l)
foldl-add_rtt [] sum n p q = ground arith
foldl-add_rtt (s ∷ l) sum n p q =
    ground (arith, foldl-add_rtt l sum n, foldl-add_rtt l (sum + s.rtt_micros) (n + 1))

-- Every successful sample's time lies between two bounds.
abbrev pub InRange : ℕ → ℕ → List Sample → Type 0
InRange lo hi [] = Unit
InRange lo hi (s ∷ l) =
    (s.lost ≡ false → (lo ≤ s.rtt_micros) × (s.rtt_micros ≤ hi)) × InRange lo hi l

rtt_sum_bounds :
    (lo hi : ℕ) (l : List Sample)
    → InRange lo hi l
    → (lo * successes l ≤ rtt_sum l) × (rtt_sum l ≤ hi * successes l)
rtt_sum_bounds lo hi [] h = omega arith
rtt_sum_bounds lo hi (s ∷ l) h = elim (Bool-cases s.lost) [
  | inl e ↦ rw e (rtt_sum_bounds lo hi l h.1)
  | inr e ↦ rw e (omega (arith, rtt_sum_bounds lo hi l h.1, h.0 e))
]

mean_bounds :
    (lo hi n sum : ℕ) → 0 < n → lo * n ≤ sum → sum ≤ hi * n → (lo ≤ sum / n) × (sum / n ≤ hi)
mean_bounds lo hi n sum pos a b = (grind arith, grind arith)

-- In a valid window whose sums fit in 64 bits, `MeanRTT` is the mean over the successful samples rounded down, and
-- has no value exactly when no sample held succeeded.
pub mean_rtt_lem :
    {w : WindowStats}
    → IsValid w
    → w.capacity < 2 ^ 64
    → rtt_sum (contents w) < 2 ^ 64
    → mean_rtt w ≡ (
        if successes (contents w) == 0
        then none
        else some (rtt_sum (contents w) / successes (contents w)))
unfolding mean_rtt len
mean_rtt_lem {w} v small fits = ground (
  arith,
  for_each_refines add_rtt (0, 0) v,
  foldl-add_rtt (contents w) 0 0 (omega arith) (omega (arith, length-contents-le v)),
)

-- In a valid window whose sums fit in 64 bits, the mean lies between any bounds on the successful
-- samples' times.
pub mean_rtt_bounds :
    {w : WindowStats} {m : ℕ} (lo hi : ℕ)
    → IsValid w
    → w.capacity < 2 ^ 64
    → rtt_sum (contents w) < 2 ^ 64
    → InRange lo hi (contents w)
    → mean_rtt w ≡ some m
    → (lo ≤ m) × (m ≤ hi)
mean_rtt_bounds {w} {m} lo hi v small fits range e = ground (
  arith,
  mean_rtt_lem v small fits,
  rtt_sum_bounds lo hi (contents w) range,
  mean_bounds lo hi (successes (contents w)) (rtt_sum (contents w)),
)
