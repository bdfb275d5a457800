-- ===== src/Prelude/Int.antt =====
-- Go's `int` as an integer, with its tests and its wrapping increment.
use Prim.Native.Nat.{ℕ, zero, suc, ◌+◌, ◌-◌, ◌*◌, ◌%◌, ◌^◌, ◌<◌}
use mathlib.Core.Path.{◌≡◌}
use mathlib.Core.Logic.{◌↔◌}
use mathlib.Core.Bool.{Bool, true, false}
use native.Mathlib.Omega.{arith}
use nixos_wanwatch.Prelude.Tests.{ltb, leb, ◌==◌, if◌then◌else◌}

-- `negsuc n` is -(n + 1).
pub data ℤ : Type 0 where
  pos : ℕ → ℤ
  negsuc : ℕ → ℤ

abbrev pub leb_ℤ : ℤ → ℤ → Bool
leb_ℤ (pos a) (pos b) = leb a b
leb_ℤ (pos a) (negsuc b) = false
leb_ℤ (negsuc a) (pos b) = true
leb_ℤ (negsuc a) (negsuc b) = leb b a

abbrev pub ltb_ℤ : ℤ → ℤ → Bool
ltb_ℤ (pos a) (pos b) = ltb a b
ltb_ℤ (pos a) (negsuc b) = false
ltb_ℤ (negsuc a) (pos b) = true
ltb_ℤ (negsuc a) (negsuc b) = ltb b a

abbrev pub eq_ℤ : ℤ → ℤ → Bool
eq_ℤ (pos a) (pos b) = a == b
eq_ℤ (negsuc a) (negsuc b) = a == b
eq_ℤ (pos a) (negsuc b) = false
eq_ℤ (negsuc a) (pos b) = false

pub eq_ℤ_iff : (a b : ℤ) → (eq_ℤ a b ≡ true) ↔ (a ≡ b)
eq_ℤ_iff a b = ground arith

-- the largest `int` on a 64-bit platform
abbrev pub max_int : ℕ
max_int = 2 ^ 63 - 1

-- `x++` on an `int`, which wraps from the largest to the smallest.
abbrev pub inc : ℤ → ℤ
inc (pos n) = if n == max_int then negsuc max_int else pos (n + 1)
inc (negsuc zero) = pos 0
inc (negsuc (suc n)) = negsuc n

pub inc-pos : (n : ℕ) → n < max_int → inc (pos n) ≡ pos (n + 1)
inc-pos n h = ground arith

-- The int64 with the bits of a natural number.
abbrev pub wrap_int64 : ℕ → ℤ
wrap_int64 n = let m = n % 2 ^ 64 in if ltb m (2 ^ 63) then pos m else negsuc (2 ^ 64 - m - 1)

-- The product with a positive constant, on int64.
abbrev pub times_int64 : ℕ → ℤ → ℤ
times_int64 c (pos n) = wrap_int64 (n * c)
times_int64 c (negsuc n) = wrap_int64 (2 ^ 64 - (n + 1) * c % 2 ^ 64)
