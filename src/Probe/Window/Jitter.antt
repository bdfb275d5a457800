-- ===== src/Probe/Window/Jitter.antt =====
-- `JitterMicros` of daemon/internal/probe/stats.go, over any arithmetic of floats.
use nixos_wanwatch.Prelude.{ℕ, ◌≡◌, ◌↔◌, Option, none, some, if◌then◌else◌, arith}
use nixos_wanwatch.Probe.Float.{Floats}
use nixos_wanwatch.Probe.Window.{Sample, WindowStats, for_each, mean_rtt, add_u64}

module _ (fl : Floats) where
  open fl use {Float, of_u64, add_float, sub_float, mul_float, div_float, sqrt, to_u64}

  add_square : ℕ → Float × ℕ → Sample → Float × ℕ
  add_square mean acc s =
      let d = sub_float (of_u64 s.rtt_micros) (of_u64 mean) in
      if s.lost then acc else (add_float acc.0 (mul_float d d), add_u64 acc.1 1)

  deviation : WindowStats → Option ℕ → Option ℕ
  unfolding add_square
  deviation w none = none
  deviation w (some mean) =
      let (sum_sq, n) = for_each w (add_square mean) (of_u64 0, 0) in
      some (to_u64 (sqrt (div_float sum_sq (of_u64 n))))

  pub jitter_micros : WindowStats → Option ℕ
  unfolding deviation
  jitter_micros w = deviation w (mean_rtt w)

  -- There is a jitter exactly when there is a mean.
  pub jitter_iff_mean : (w : WindowStats) → (jitter_micros w ≡ none) ↔ (mean_rtt w ≡ none)
  unfolding jitter_micros
  jitter_iff_mean w = (λ h. ground arith, λ h. ground arith)
