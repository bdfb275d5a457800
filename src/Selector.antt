-- ===== src/Selector.antt =====
-- daemon/internal/selector: which Member of a Group carries traffic (selector.go,
-- primarybackup.go).
pub mod Choice
use nixos_wanwatch.Prelude.{
  ◌≡◌, Bool, true, false, Option, none, some, List, [], ◌∷◌, keep, if◌then◌else◌, String, Result,
  ok, err, ◌&&◌, not,
}
use nixos_wanwatch.Prelude.Int.{ℤ, eq_ℤ, ltb_ℤ}
use nixos_wanwatch.Prelude.Text.{str_eq, str_le}
use nixos_wanwatch.Prelude.Dict.{lookup}
use nixos_wanwatch.Prelude.Sort.{sort_by}

pub record Member : Type 0 where
  pub wan : String
  pub priority : ℤ

pub record Group : Type 0 where
  pub name : String
  pub strategy : String
  pub table : ℤ
  pub mark : ℤ
  pub members : List (String × Member)

pub record MemberHealth : Type 0 where
  pub member : Member
  pub healthy : Bool

pub record Active : Type 0 where
  pub wan : String
  pub has : Bool

pub record Selection : Type 0 where
  pub group : String
  pub active : Active

abbrev pub no_active : Active
no_active = record { wan = ""; has = false }

abbrev eq_bool : Bool → Bool → Bool
eq_bool true b = b
eq_bool false b = not b

-- Go's `==` on `Active`
abbrev pub eq_active : Active → Active → Bool
eq_active a b = str_eq a.wan b.wan && eq_bool a.has b.has

-- The comparison function of the sort, as the test `cmp(a, b) <= 0`.
unfoldable pub preferred : MemberHealth → MemberHealth → Bool
preferred a b =
    if eq_ℤ a.member.priority b.member.priority
    then str_le a.member.wan b.member.wan
    else ltb_ℤ a.member.priority b.member.priority

unfoldable pub healthy_members : List MemberHealth → List MemberHealth
healthy_members = keep (λ m. m.healthy)

-- The first of the sorted list.
abbrev pub first_active : List MemberHealth → Active
first_active [] = no_active
first_active (m ∷ _) = record { wan = m.member.wan; has = true }

unfoldable pub primary_backup : Group → List MemberHealth → Selection
unfolding healthy_members
primary_backup g members = record {
  group = g.name;
  active = first_active (sort_by preferred (healthy_members members));
}

abbrev pub Strategy : Type 0
Strategy = Group → List MemberHealth → Selection

abbrev pub strategies : List (String × Strategy)
strategies = ("primary-backup", primary_backup) ∷ []

pub data SelectError : Type 0 where
  unknown_strategy : String → String → SelectError

abbrev run_strategy : Option Strategy → Group → List MemberHealth → Result SelectError Selection
run_strategy none g members = err (unknown_strategy g.strategy g.name)
run_strategy (some s) g members = ok (s g members)

unfoldable pub select : Group → List MemberHealth → Result SelectError Selection
unfolding lookup
select g members = run_strategy (lookup str_eq g.strategy strategies) g members

pub known_strategies : List String
known_strategies = mathlib.Core.List.map (λ e. e.0) strategies
