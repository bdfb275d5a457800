-- ===== src/Tests/RouteRuns.antt =====
-- The theorems on route messages, at a dump with two defaults on one interface.
use nixos_wanwatch.Prelude.{
  ℕ, Bool, true, false, Option, none, some, List, [], ◌∷◌, String, Result, ok, ◌==◌,
}
use nixos_wanwatch.Prelude.Int.{ℤ, pos}
use nixos_wanwatch.Rtnl.Dump.{DumpError}
use nixos_wanwatch.Rtnl.Route.{Net, Route, new_route, del_route}
use nixos_wanwatch.Rtnl.Route.Names.{empty-IsTrue}
use nixos_wanwatch.Rtnl.Route.Loop.{RouteUpdate, run_loop}
use nixos_wanwatch.Rtnl.Route.Loop.Answers.{is_closed, TellsAll, run_loop-TellsAll}

-- Masks are lengths, and addresses are compared byte for byte.
abbrev same_bytes : List ℕ → List ℕ → Bool
same_bytes [] [] = true
same_bytes [] (y ∷ ys) = false
same_bytes (x ∷ xs) [] = false
same_bytes (x ∷ xs) (y ∷ ys) = elim (x == y) [ true ↦ same_bytes xs ys | false ↦ false ]

abbrev same_ip : Option (List ℕ) → Option (List ℕ) → Bool
same_ip none none = true
same_ip none (some y) = false
same_ip (some x) none = false
same_ip (some x) (some y) = same_bytes x y

abbrev net : Net
net = record {
  Mask = ℕ;
  mask_ones = λ m. m;
  is_unspecified = λ ip. same_ip ip (some (0 ∷ 0 ∷ 0 ∷ 0 ∷ []));
  equal_ip = same_ip;
}

abbrev default_via : ℤ → ℕ → Route ℕ
default_via metric host = record {
  family = pos 2;
  table = pos 254;
  tos = pos 0;
  priority = metric;
  link_index = pos 3;
  dst = none;
  gw = some (192 ∷ 0 ∷ 2 ∷ host ∷ []);
  multi_path = [];
}

abbrev lookup_name : ℤ → Option String
lookup_name n = some "wan0"

abbrev routes : List (Route ℕ)
routes = default_via (pos 200) 1 ∷ default_via (pos 100) 2 ∷ []

-- The dump still lists the route whose delete is told.
abbrev list_routes : ℤ → ℕ → Result (DumpError String) (List (Route ℕ)) × ℕ
list_routes fam w = (ok routes, w)

abbrev upds : List (RouteUpdate net)
upds = (del_route, default_via (pos 200) 1) ∷ (new_route, default_via (pos 100) 2) ∷ []

run_loop-TellsAll_example :
    let (why, es, _, _) = run_loop net none lookup_name (λ w. false) list_routes upds [] 0 in
    TellsAll net none lookup_name (λ w. false) list_routes (is_closed why) upds es
run_loop-TellsAll_example =
    run_loop-TellsAll net none lookup_name (λ w. false) list_routes upds [] 0
      (empty-IsTrue lookup_name)
