-- ===== src/Probe/Window/Ring.antt =====
-- The ring invariant of a window: indices stay in the buffer, and the buffer keeps its size.
use nixos_wanwatch.Prelude.{
  zero, suc, ◌<◌, ◌≡◌, false, ok, length, length-set, length-replicate, arith,
}
use nixos_wanwatch.Prelude.Int.{ℤ, pos, negsuc}
use nixos_wanwatch.Probe.Window.{Sample, zero_sample, WindowStats, new_window, push, len}

pub record IsValid (w : WindowStats) : Type 0 where
  pub nonempty : 0 < w.capacity
  pub sized : length w.samples ≡ w.capacity
  pub head_in : w.head < w.capacity

-- What `NewWindow` accepts is a valid, empty window of the asked capacity.
pub new_window-IsValid :
    (c : ℤ) {w : WindowStats}
    → new_window c ≡ ok w
    → IsValid w × (pos w.capacity ≡ c) × (len w ≡ 0) × (w.filled ≡ false)
unfolding new_window len
new_window-IsValid (pos zero) h = cc
new_window-IsValid (pos (suc c)) h = ground (arith, length-replicate c zero_sample)
new_window-IsValid (negsuc c) h = cc

-- A push keeps the invariant and the capacity.
pub push-IsValid :
    {w : WindowStats} (s : Sample)
    → IsValid w
    → IsValid (push w s) × ((push w s).capacity ≡ w.capacity)
unfolding push
push-IsValid {w} s v = ground (arith, length-set w.samples w.head s)
