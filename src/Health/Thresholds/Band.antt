-- ===== src/Health/Thresholds/Band.antt =====
-- The band between the thresholds.
use nixos_wanwatch.Prelude.{ℕ, ◌*◌, ◌^◌, ◌≤◌, ◌<◌, ◌≡◌, true, false, ltb, leb, arith}
use nixos_wanwatch.Prelude.Int.{ℤ, pos, negsuc, ltb_ℤ}
use nixos_wanwatch.Config.Types.{Thresholds}
use nixos_wanwatch.Probe.Float.{Floats, Rat}
use nixos_wanwatch.Probe.Aggregate.{FamilyStats}
use nixos_wanwatch.Health.Thresholds.{
  compare_pct, is_lt, is_le, ms_to_micros, or_zero, loss_or_zero, verdict, evaluate_thresholds,
}

-- The `up` thresholds lie below the `down` ones, as validation demands, and the RTT ones fit in 64
-- bits of microseconds.
pub record IsBand (t : Thresholds) : Type 0 where
  pub loss_apart : ltb_ℤ t.loss_pct_up t.loss_pct_down ≡ true
  pub rtt_apart : ltb_ℤ t.rtt_ms_up t.rtt_ms_down ≡ true
  pub rtt_pos : ltb_ℤ (pos 0) t.rtt_ms_down ≡ true
  pub rtt_fits : ltb_ℤ t.rtt_ms_down (pos (2 ^ 54)) ≡ true

below_down : (u d n den : ℕ) → u < d → 0 < den → n ≤ u * den → n < d * den
below_down u d n den p q h = grind arith

loss_band :
    (r : Rat) (u d : ℤ)
    → ltb_ℤ u d ≡ true
    → 0 < r.den
    → is_le (compare_pct r u) ≡ true
    → is_lt (compare_pct r d) ≡ true
loss_band r (pos u) (pos d) apart den h = ground (arith, below_down u d (r.num * 100) r.den)
loss_band r (pos u) (negsuc d) apart den h = cc
loss_band r (negsuc u) d apart den h = cc

rtt_band :
    (rtt : ℕ) (u d : ℤ)
    → ltb_ℤ u d ≡ true
    → ltb_ℤ d (pos (2 ^ 54)) ≡ true
    → leb rtt (ms_to_micros u) ≡ true
    → 0 < ms_to_micros d
    → ltb rtt (ms_to_micros d) ≡ true
rtt_band rtt (pos u) (pos d) apart fits h p = ground arith
rtt_band rtt (pos u) (negsuc d) apart fits h p = cc
rtt_band rtt (negsuc u) (pos d) apart fits h p = ground arith
rtt_band rtt (negsuc u) (negsuc d) apart fits h p = ground arith

rtt_down_pos : (d : ℤ) → ltb_ℤ (pos 0) d ≡ true → ltb_ℤ d (pos (2 ^ 54)) ≡ true → 0 < ms_to_micros d
rtt_down_pos (pos d) p fits = ground arith
rtt_down_pos (negsuc d) p fits = cc

verdict_band :
    (loss : Rat) (rtt : ℕ) (t : Thresholds)
    → IsBand t
    → 0 < loss.den
    → verdict false loss rtt t ≡ true
    → verdict true loss rtt t ≡ true
verdict_band loss rtt t band den h = ground (
  arith,
  loss_band loss t.loss_pct_up t.loss_pct_down band.loss_apart den,
  rtt_band rtt t.rtt_ms_up t.rtt_ms_down band.rtt_apart band.rtt_fits,
  rtt_down_pos t.rtt_ms_down band.rtt_pos band.rtt_fits,
)

-- Between ordered thresholds that fit, statistics that would raise an unhealthy Family to healthy would
-- also keep a healthy one so.
pub evaluate_band :
    (fl : Floats) (stats : FamilyStats fl) (t : Thresholds)
    → IsBand t
    → 0 < (loss_or_zero stats.exact_loss).den
    → evaluate_thresholds fl false stats t ≡ true
    → evaluate_thresholds fl true stats t ≡ true
unfolding evaluate_thresholds
evaluate_band fl stats t band den h =
    verdict_band (loss_or_zero stats.exact_loss) (or_zero stats.rtt_micros) t band den h
