-- ===== src/Probe/Family.antt =====
-- The IP families: `Family` of daemon/internal/probe/icmp.go. `RouteFamily` of
-- daemon/internal/rtnl/event.go has the same values and is cast to and fro, so one type serves.
use nixos_wanwatch.Prelude.{◌≡◌, ◌↔◌, Bool, true, false, List, [], ◌∷◌, arith}
use nixos_wanwatch.Prelude.Int.{ℤ, eq_ℤ, eq_ℤ_iff}

-- `other n` is an `int` that is neither AF_INET nor AF_INET6.
pub data Family : Type 0 where
  v4 v6 : Family
  other : ℤ → Family

abbrev pub all_families : List Family
all_families = v4 ∷ v6 ∷ []

abbrev pub eq_family : Family → Family → Bool
eq_family v4 v4 = true
eq_family v6 v6 = true
eq_family (other a) (other b) = eq_ℤ a b
eq_family _ _ = false

pub eq_family_iff : (a b : Family) → (eq_family a b ≡ true) ↔ (a ≡ b)
eq_family_iff v4 v4 = ground arith
eq_family_iff v4 v6 = ground arith
eq_family_iff v4 (other b) = ground arith
eq_family_iff v6 v4 = ground arith
eq_family_iff v6 v6 = ground arith
eq_family_iff v6 (other b) = ground arith
eq_family_iff (other a) v4 = ground arith
eq_family_iff (other a) v6 = ground arith
eq_family_iff (other a) (other b) = ground (arith, eq_ℤ_iff a b)
