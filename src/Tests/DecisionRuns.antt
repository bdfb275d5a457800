-- ===== src/Tests/DecisionRuns.antt =====
-- The theorems on Selections and Groups, at a Group with a primary and a backup.
use nixos_wanwatch.Prelude.{
  ℕ, zero, suc, ◌+◌, ◌≡◌, ◌⊎◌, refl, Bool, true, false, some, List, [], ◌∷◌, map, String, In,
}
use nixos_wanwatch.Prelude.Int.{pos}
use nixos_wanwatch.Probe.Family.{Family, v4, v6}
use nixos_wanwatch.Selector
use nixos_wanwatch.Selector.{
  Member, MemberHealth, Active, no_active, Selection, primary_backup, select, eq_active,
}
use nixos_wanwatch.Selector.Choice.{IsChoice, primary_backup_lem}
use nixos_wanwatch.Decision.{Group}
use nixos_wanwatch.Decision.Steps.{IsValid}
use nixos_wanwatch.Decision.Commits.{Sound}
use nixos_wanwatch.Decision.Waits.{
  Report, probed, routed, call_of, mentions, first_applied, Ended, run-Ended,
}
use nixos_wanwatch.Decision.Traces.{
  Call, recompute_call, probe_call, route_call, run, answer, answer-Sound, Chain, run-Chain,
}

abbrev primary : Member
primary = record { wan = "primary"; priority = pos 1 }

abbrev backup : Member
backup = record { wan = "backup"; priority = pos 2 }

abbrev group : Selector.Group
group = record {
  name = "home";
  strategy = "primary-backup";
  table = pos 100;
  mark = pos 7;
  members = ("primary", primary) ∷ ("backup", backup) ∷ [];
}

-- The primary has failed.
abbrev health : List MemberHealth
health =
    record { member = primary; healthy = false } ∷ record { member = backup; healthy = true } ∷ []

-- The world counts the calls, and the first one fails.
abbrev apply_routes : String → List Family → ℕ → ℕ × Bool
apply_routes wan families zero = (1, true)
apply_routes wan families (suc n) = (n + 2, false)

abbrev now : ℕ → ℕ
now w = w

abbrev chosen : Active
chosen = record { wan = "backup"; has = true }

abbrev waiting : Group
waiting = record {
  cfg = group;
  selection = record { wan = "primary"; has = true };
  selection_since = some 0;
  decisions_total = pos 2;
  pending = some chosen;
  repair_due = false;
  metrics = [];
}

waiting-IsValid : IsValid waiting
waiting-IsValid = record { pending_up = refl; repair_up = λ h. refl; since = λ h. cc }

primary_backup_example :
    let active = (primary_backup group health).active in
    ((active ≡ no_active) × ((n : MemberHealth) → In n health → n.healthy ≡ false))
    ⊎ ((m : MemberHealth) × IsChoice health m
        × (active ≡ record { wan = m.member.wan; has = true }))
primary_backup_example = primary_backup_lem group health

-- The first report is of another WAN, the Apply of the second fails, that of the third succeeds.
abbrev reports : List Report
reports = probed "primary" ∷ probed "backup" ∷ routed "backup" v6 ∷ probed "backup" ∷ []

run-Ended_example :
    Ended apply_routes now chosen waiting
      (first_applied apply_routes now "backup" (mentions "backup" reports) 0)
      (run apply_routes now (map call_of reports) waiting 0)
run-Ended_example = run-Ended apply_routes now chosen reports waiting 0 waiting-IsValid refl

-- The Selection becomes the pending one, at the world that the second Apply left.
ends_at : first_applied apply_routes now "backup" (mentions "backup" reports) 0 ≡ some 2
unfolding first_applied mentions
ends_at = refl

abbrev calls : List Call
calls = recompute_call health "health" ∷ probe_call "backup" ∷ route_call "backup" v4 ∷ []

run-Chain_example :
    let (cs, g', _) = run apply_routes now calls waiting 0 in
    Chain apply_routes now waiting.selection cs g'.selection
run-Chain_example = run-Chain apply_routes now calls waiting 0

answer-Sound_example :
    Sound apply_routes now waiting 1 (answer apply_routes now (probe_call "backup") waiting 1)
answer-Sound_example = answer-Sound apply_routes now (probe_call "backup") waiting 1
