-- ===== src/Tests/ApplyRuns.antt =====
-- The theorems on Apply, at a gateway route and at a rule.
use nixos_wanwatch.Prelude.{
  List, Option, String, ℕ, ◌≡◌, refl, Bool, true, false, none, some, List, [], ◌∷◌, length, ◌==◌,
}
use nixos_wanwatch.Prelude.Int.{pos, negsuc}
use nixos_wanwatch.Probe.Family.{v4}
use nixos_wanwatch.Apply.Route.{DefaultRoute, KernelRoute}
use nixos_wanwatch.Apply.Rule.{
  Rule, FwmarkRule, build_rule, matches_rule, has_other_selector, matches_rule-build_rule,
}

abbrev of_four_bytes : List ℕ → Bool
of_four_bytes b = length b == 4

abbrev route : DefaultRoute
route = record {
  family = v4;
  table = pos 100;
  gateway = some (192 ∷ 0 ∷ 2 ∷ 1 ∷ []);
  if_index = pos 3;
  point_to_point = false;
}

-- The world is the routes replaced so far.
abbrev replace : KernelRoute → List KernelRoute → Option String × List KernelRoute
replace k w = (none, k ∷ w)

abbrev pub empty_rule : Rule
empty_rule = record {
  family = pos 0;
  mark = 0;
  mask = none;
  table = pos 0;
  priority = negsuc 0;
  protocol = 0;
  has_src = false;
  has_dst = false;
  iif_name = "";
  oif_name = "";
  invert = false;
  tos = 0;
  tun_id = 0;
  ip_proto = pos 0;
  has_sport = false;
  has_dport = false;
  has_uid_range = false;
  goto = negsuc 0;
  suppress_prefixlen = negsuc 0;
  suppress_ifgroup = negsuc 0;
}

no_selector : has_other_selector empty_rule ≡ false
unfolding has_other_selector
no_selector = refl

abbrev pub home : FwmarkRule
home = record { family = v4; mark = pos 7; table = pos 100 }

abbrev pub built : Rule
built = build_rule empty_rule home

pub built_matches : matches_rule built home ≡ true
built_matches = matches_rule-build_rule empty_rule home no_selector
