-- ===== src/Probe/Float.antt =====
-- Go's `float64`, and `big.Rat`. The daemon's floats are only reported, never compared, so their
-- type and operations are a parameter.
use nixos_wanwatch.Prelude.{ℕ, ◌+◌, ◌*◌}

pub record Floats : Type 1 where
  pub Float : Type 0
  pub of_u64 : ℕ → Float
  pub add_float : Float → Float → Float
  pub sub_float : Float → Float → Float
  pub mul_float : Float → Float → Float
  pub div_float : Float → Float → Float
  pub sqrt : Float → Float
  pub to_u64 : Float → ℕ
  pub nearest : ℕ → ℕ → Float

-- A fraction that is at least 0, with a positive denominator, not reduced.
pub record Rat : Type 0 where
  pub num : ℕ
  pub den : ℕ

abbrev pub add_rat : Rat → Rat → Rat
add_rat a b = record { num = a.num * b.den + b.num * a.den; den = a.den * b.den }

-- `Quo` by a positive integer.
abbrev pub div_rat : Rat → ℕ → Rat
div_rat a n = record { num = a.num; den = a.den * n }
