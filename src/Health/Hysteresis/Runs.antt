-- ===== src/Health/Hysteresis/Runs.antt =====
-- The verdict after any sequence of observations, against the runs in the sequence.
use nixos_wanwatch.Prelude.{
  ℕ, ◌+◌, ◌≤◌, ◌<◌, ◌≡◌, Bool, true, false, not, if◌then◌else◌, arith, leb, max,
}
use nixos_wanwatch.Prelude.Int.{ℤ, pos, negsuc, max_int}
use nixos_wanwatch.Health.Hysteresis.{Hysteresis, new_hysteresis, observe, seed}

-- The abstract machine: a verdict, and the length of the run of observations that contradict it.
pub record Verdict : Type 0 where
  pub healthy : Bool
  pub against : ℕ

abbrev pub same_bool : Bool → Bool → Bool
same_bool true b = b
same_bool false b = not b

-- How long a run against the verdict must be.
abbrev pub limit : ℕ → ℕ → Bool → ℕ
limit up down true = down
limit up down false = up

-- An agreeing observation ends the run. A contradicting one extends it, and the run that reaches
-- the limit makes the observation the verdict.
unfoldable pub judge : ℕ → ℕ → Verdict → Bool → Verdict
judge up down v o =
    if same_bool v.healthy o
    then record { healthy = v.healthy; against = 0 }
    else if leb (limit up down v.healthy) (v.against + 1)
    then record { healthy = o; against = 0 }
    else record { healthy = v.healthy; against = v.against + 1 }

abbrev opposing : Hysteresis → ℤ
opposing h = if h.healthy then h.unhealthy_count else h.healthy_count

abbrev to_ℕ : ℤ → ℕ
to_ℕ (pos n) = n
to_ℕ (negsuc n) = 0

abbrev pub view : Hysteresis → Verdict
view h = record { healthy = h.healthy; against = to_ℕ (opposing h) }

-- The limits are those of `h`, positive and in the range of `int`, and the run against the verdict
-- has not reached its limit.
pub record IsValid (up down : ℕ) (h : Hysteresis) : Type 0 where
  pub ups : h.consecutive_up ≡ pos up
  pub downs : h.consecutive_down ≡ pos down
  pub up_pos : 0 < up
  pub down_pos : 0 < down
  pub up_int : up ≤ max_int
  pub down_int : down ≤ max_int
  pub counts : opposing h ≡ pos (to_ℕ (opposing h))
  pub short : to_ℕ (opposing h) < limit up down h.healthy

-- `newHysteresis` clamps each threshold to at least 1, and starts unhealthy with no run.
pub new_hysteresis-IsValid :
    (up down : ℕ)
    → up ≤ max_int
    → down ≤ max_int
    → IsValid (max up 1) (max down 1) (new_hysteresis (pos up) (pos down))
      × (view (new_hysteresis (pos up) (pos down)) ≡ record { healthy = false; against = 0 })
unfolding new_hysteresis
new_hysteresis-IsValid up down p q = (ground arith, ground arith)

-- `seed` makes the observation the verdict, and starts with no run.
pub seed-IsValid :
    {up down : ℕ} {h : Hysteresis} (o : Bool)
    → IsValid up down h
    → IsValid up down (seed h o) × (view (seed h o) ≡ record { healthy = o; against = 0 })
unfolding seed
seed-IsValid o v = (ground arith, ground arith)

-- On a valid Hysteresis `observe` is the abstract machine's step and keeps the invariant.
pub observe_refines :
    {up down : ℕ} {h : Hysteresis} (o : Bool)
    → IsValid up down h
    → IsValid up down (observe h o) × (view (observe h o) ≡ judge up down (view h) o)
unfolding observe judge
observe_refines true v = (ground arith, ground arith)
observe_refines false v = (ground arith, ground arith)
