-- ===== src/Probe/Window.antt =====
-- daemon/internal/probe/stats.go: the sliding window over probe samples.
pub mod Ring
pub mod Refine
pub mod History
pub mod Metrics
pub mod Jitter
use nixos_wanwatch.Prelude.{
  ℕ, zero, suc, ◌+◌, ◌-◌, ◌*◌, ◌/◌, ◌%◌, ◌^◌, Bool, true, false, Option, none, some, List, [], ◌∷◌,
  ◌==◌, if◌then◌else◌, get_or, set, replicate, Result, ok, err,
}
use nixos_wanwatch.Prelude.Int.{ℤ, pos, negsuc}

pub record Sample : Type 0 where
  pub rtt_micros : ℕ
  pub lost : Bool

-- Go's zero `Sample`, which fills a new window's buffer.
abbrev pub zero_sample : Sample
zero_sample = record { rtt_micros = 0; lost = false }

pub record WindowStats : Type 0 where
  pub capacity : ℕ
  pub samples : List Sample
  pub head : ℕ
  pub filled : Bool

pub data WindowError : Type 0 where
  not_positive : ℤ → WindowError

-- The buffer of a positive capacity.
fresh : ℕ → WindowStats
fresh c = record { capacity = c; samples = replicate c zero_sample; head = 0; filled = false }

unfoldable pub new_window : ℤ → Result WindowError WindowStats
unfolding fresh
new_window (pos zero) = err (not_positive (pos zero))
new_window (pos (suc c)) = ok (fresh (suc c))
new_window (negsuc c) = err (not_positive (negsuc c))

-- `head + 1` does not wrap: `head` is an index into a slice in memory.
unfoldable pub push : WindowStats → Sample → WindowStats
push w s =
    let next = (w.head + 1) % w.capacity in
    record w {
      samples = set w.samples w.head s;
      head = next;
      filled = if next == 0 then true else w.filled;
    }

unfoldable pub len : WindowStats → ℕ
len w = if w.filled then w.capacity else w.head

-- A loop of `n` rounds from index `i`, over the samples that `at` reads.
unfoldable pub walk {ℓ} : {S : Type ℓ} → (ℕ → Sample) → (S → Sample → S) → ℕ → ℕ → S → S
walk at fn i zero acc = acc
walk at fn i (suc n) acc = walk at fn (i + 1) n (fn acc (at i))

-- The callback's captured variables are the accumulator.
unfoldable pub for_each {ℓ} : {S : Type ℓ} → WindowStats → (S → Sample → S) → S → S
for_each w fn acc =
    if w.filled
    then walk (λ i. get_or w.samples ((w.head + i) % w.capacity) zero_sample) fn 0 w.capacity acc
    else walk (λ i. get_or w.samples i zero_sample) fn 0 w.head acc

abbrev pub add_lost : ℕ → Sample → ℕ
add_lost lost s = if s.lost then lost + 1 else lost

unfoldable pub loss_counts : WindowStats → ℕ × ℕ
loss_counts w = (for_each w add_lost 0, len w)

-- `uint64` addition
abbrev pub add_u64 : ℕ → ℕ → ℕ
add_u64 a b = (a + b) % 2 ^ 64

abbrev pub add_rtt : ℕ × ℕ → Sample → ℕ × ℕ
add_rtt acc s = if s.lost then acc else (add_u64 acc.0 s.rtt_micros, add_u64 acc.1 1)

-- `none` is the Go result `(0, false)`.
unfoldable pub mean_rtt : WindowStats → Option ℕ
mean_rtt w = let (sum, n) = for_each w add_rtt (0, 0) in if n == 0 then none else some (sum / n)
