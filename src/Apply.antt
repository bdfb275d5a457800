-- ===== src/Apply.antt =====
-- daemon/internal/apply: writes to the kernel's routing state, and the checks before them (apply.go).
-- An address is its bytes, `none` for nil, and `net.IP.To4() != nil` is a parameter `is_v4`.
pub mod Route
pub mod Rule
pub mod Conntrack
use nixos_wanwatch.Prelude.{
  ℕ, Bool, true, false, not, ◌&&◌, ◌||◌, Option, none, some, List, Result, ok, err, ◌>>◌, refuse_if,
}
use nixos_wanwatch.Prelude.Int.{ℤ, pos}
use nixos_wanwatch.Probe.Family.{Family, v4, v6, other, eq_family}
use nixos_wanwatch.Rtnl.Event.{Ip}

pub data ApplyError : Type 0 where
  invalid_family : Family → ApplyError
  nil_address not_v4 is_v4_address : ApplyError
  invalid_table invalid_index invalid_mark : ℤ → ApplyError
  unwanted_gateway : Ip → ApplyError

abbrev pub Check : Type 0
Check = Result ApplyError (Unit {0})

abbrev pub valid_family : Family → Bool
valid_family f = eq_family f v4 || eq_family f v6

-- The kernel's number of a Family: AF_INET and AF_INET6.
abbrev pub number : Family → ℤ
number v4 = pos 2
number v6 = pos 10
number (other n) = n

-- The part of `validateFamilyIP` that reads the address.
abbrev pub check_address : (List ℕ → Bool) → Family → Ip → Check
check_address is_v4 f none = err nil_address
check_address is_v4 f (some bytes) =
    refuse_if (eq_family f v4 && not (is_v4 bytes)) not_v4
    >> refuse_if (eq_family f v6 && is_v4 bytes) is_v4_address

unfoldable pub validate_family_ip : (List ℕ → Bool) → Family → Ip → Check
validate_family_ip is_v4 f ip =
    refuse_if (not (valid_family f)) (invalid_family f) >> check_address is_v4 f ip
