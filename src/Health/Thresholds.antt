-- ===== src/Health/Thresholds.antt =====
-- The threshold verdict of daemon/internal/health/health.go: `evaluateThresholds` and its helpers.
pub mod Band
use Prim.Native.Nat.{compare, Ordering}
use nixos_wanwatch.Prelude.{
  ℕ, ◌+◌, ◌*◌, ◌%◌, ◌^◌, ◌≡◌, Bool, true, false, ◌&&◌, Option, none, some, ltb, leb, if◌then◌else◌,
}
use nixos_wanwatch.Prelude.Int.{ℤ, pos, negsuc}
use nixos_wanwatch.Config.Types.{Thresholds}
use nixos_wanwatch.Probe.Float.{Floats, Rat}
use nixos_wanwatch.Probe.Aggregate.{FamilyStats}

-- `r.Cmp(big.NewRat(pct, 100))`: by cross multiplication, since both denominators are positive. A
-- ratio is at least 0, so it is above every negative percentage.
abbrev pub compare_pct : Rat → ℤ → Ordering
compare_pct r (pos pct) = compare (r.num * 100) (pct * r.den)
compare_pct r (negsuc pct) = Ordering.gt

abbrev pub is_lt : Ordering → Bool
is_lt Ordering.lt = true
is_lt _ = false

abbrev pub is_le : Ordering → Bool
is_le Ordering.gt = false
is_le _ = true

-- `uint64(max(ms, 0)) * 1000`
abbrev pub ms_to_micros : ℤ → ℕ
ms_to_micros (pos ms) = ms * 1000 % 2 ^ 64
ms_to_micros (negsuc ms) = 0

abbrev pub or_zero : Option ℕ → ℕ
or_zero none = 0
or_zero (some v) = v

-- `new(big.Rat)` for no data
abbrev pub loss_or_zero : Option Rat → Rat
loss_or_zero none = record { num = 0; den = 1 }
loss_or_zero (some r) = r

abbrev pub verdict : Bool → Rat → ℕ → Thresholds → Bool
verdict prev loss rtt t =
    if prev
    then is_lt (compare_pct loss t.loss_pct_down) && ltb rtt (ms_to_micros t.rtt_ms_down)
    else is_le (compare_pct loss t.loss_pct_up) && leb rtt (ms_to_micros t.rtt_ms_up)

unfoldable pub evaluate_thresholds : (fl : Floats) → Bool → FamilyStats fl → Thresholds → Bool
evaluate_thresholds fl prev stats t =
    verdict prev (loss_or_zero stats.exact_loss) (or_zero stats.rtt_micros) t
