-- ===== src/Rtnl/Route.antt =====
-- daemon/internal/rtnl/route.go: from route messages to one default route per interface and Family.
-- The package net is a parameter, the cache of interface names is passed along, and the time stamps
-- of the events are left out.
pub mod Selected
pub mod Loop
pub mod Names
use nixos_wanwatch.Prelude.{
  ℕ, Bool, true, false, not, ◌&&◌, ◌||◌, Option, none, some, List, [], ◌∷◌, ◌++◌, map, String, any,
  ◌==◌, if◌then◌else◌,
}
use nixos_wanwatch.Prelude.Int.{ℤ, pos, ltb_ℤ, eq_ℤ}
use nixos_wanwatch.Prelude.Text.{str_eq}
use nixos_wanwatch.Prelude.Dict.{lookup, insert}
use nixos_wanwatch.Probe.Family.{Family, v4, v6, eq_family}
use nixos_wanwatch.Rtnl.Event.{Ip, RouteEvent, RouteEventOp, add, del}

-- `net.IPNet`, its mask as the package net reads it.
pub record Network (Mask : Type 0) : Type 0 where
  pub ip : Ip
  pub mask : Mask

-- What the code uses of the package net: the leading ones of `Mask.Size`, `IP.IsUnspecified` and
-- `IP.Equal`.
pub record Net : Type 1 where
  pub Mask : Type 0
  pub mask_ones : Mask → ℕ
  pub is_unspecified : Ip → Bool
  pub equal_ip : Ip → Ip → Bool

pub record Nexthop : Type 0 where
  pub link_index : ℤ
  pub hops : ℤ
  pub gw : Ip

-- The fields of a netlink route that the daemon reads.
pub record Route (Mask : Type 0) : Type 0 where
  pub family : ℤ
  pub table : ℤ
  pub tos : ℤ
  pub priority : ℤ
  pub link_index : ℤ
  pub dst : Option (Network Mask)
  pub gw : Ip
  pub multi_path : List Nexthop

pub data MessageType : Type 0 where
  new_route del_route other_type : MessageType

abbrev pub af_inet6 : ℤ
af_inet6 = pos 10

abbrev pub table_main : ℤ
table_main = pos 254

abbrev pub route_family_from_af : ℤ → Family
route_family_from_af n = if eq_ℤ n af_inet6 then v6 else v4

pub record Candidate : Type 0 where
  pub event : RouteEvent
  pub metric : ℤ

-- Equal `routeKey`s.
unfoldable pub same_key : RouteEvent → RouteEvent → Bool
same_key a b = str_eq a.iface b.iface && eq_family a.family b.family

abbrev pub Cache : Type 0
Cache = List (ℤ × String)

-- A nil map of interfaces watches them all.
abbrev pub is_watched : Option (List String) → String → Bool
is_watched none name = true
is_watched (some names) name = any (λ n. str_eq n name) names

-- A Candidate joins the ones of its route unless its interface is among them.
abbrev pub add_candidate : List Candidate → Candidate → List Candidate
add_candidate cs c = if any (λ p. str_eq p.event.iface c.event.iface) cs then cs else cs ++ c ∷ []

-- The loop body of `selectDefaults`. The maps `index` and `metrics` hold, for each key of `selected`,
-- its position and the metric of its Candidate: both are read off the list here.
unfoldable pub select_one : List Candidate → Candidate → List Candidate
select_one [] c = c ∷ []
select_one (p ∷ selected) c =
    let rest = select_one selected c in
    if same_key p.event c.event
    then (if ltb_ℤ c.metric p.metric then c ∷ selected else p ∷ selected)
    else p ∷ rest

unfoldable pub select_all : List Candidate → List Candidate → List Candidate
select_all selected [] = selected
select_all selected (c ∷ cs) = select_all (select_one selected c) cs

abbrev pub event_of : RouteEventOp → RouteEvent → RouteEvent
event_of op e = record e { op = op }

-- The event for a pair among the selected ones, or a Del when there is none.
abbrev pub answer : RouteEvent → List RouteEvent → RouteEvent
answer e [] = event_of del e
answer e (c ∷ cs) = let rest = answer e cs in if same_key c e then c else rest

module _ (net : Net) where
  abbrev pub is_default_dst : Network net.Mask → Option (List ℕ) → Bool
  is_default_dst d none = true
  is_default_dst d (some bytes) = net.mask_ones d.mask == 0 && net.is_unspecified (some bytes)

  abbrev pub is_default : Option (Network net.Mask) → Bool
  is_default none = true
  is_default (some d) = is_default_dst d d.ip

  abbrev pub is_default_route : Route net.Mask → Bool
  is_default_route r = is_default r.dst

  abbrev pub same_hops : List Nexthop → List Nexthop → Bool
  same_hops [] [] = true
  same_hops [] (y ∷ ys) = false
  same_hops (x ∷ xs) [] = false
  same_hops (x ∷ xs) (y ∷ ys) =
      eq_ℤ x.link_index y.link_index
      && eq_ℤ x.hops y.hops
      && net.equal_ip x.gw y.gw
      && same_hops xs ys

  pub same_default_route : Route net.Mask → Route net.Mask → Bool
  same_default_route a b =
      is_default_route a
      && is_default_route b
      && eq_ℤ a.family b.family
      && eq_ℤ a.table b.table
      && eq_ℤ a.tos b.tos
      && eq_ℤ a.priority b.priority
      && eq_ℤ a.link_index b.link_index
      && net.equal_ip a.gw b.gw
      && same_hops a.multi_path b.multi_path

  -- The routes without the first one that is the same as `d`.
  pub without_first : Route net.Mask → List (Route net.Mask) → List (Route net.Mask)
  unfolding same_default_route
  without_first d [] = []
  without_first d (r ∷ rs) =
      let rest = without_first d rs in if same_default_route r d then rs else r ∷ rest

  abbrev pub without_deleted :
      Option (Route net.Mask) → List (Route net.Mask) → List (Route net.Mask)
  without_deleted none rs = rs
  without_deleted (some d) rs = without_first d rs

  module _ (interfaces : Option (List String)) (iface_lookup : ℤ → Option String) where
    abbrev looked_up : ℤ → Option String → Cache → Option String × Cache
    looked_up idx none cache = (none, cache)
    looked_up idx (some name) cache = (some name, insert eq_ℤ idx name cache)

    abbrev cached : ℤ → Option String → Cache → Option String × Cache
    cached idx (some name) cache = (some name, cache)
    cached idx none cache = looked_up idx (iface_lookup idx) cache

    pub resolve_iface : ℤ → Cache → Option String × Cache
    resolve_iface idx cache = cached idx (lookup eq_ℤ idx cache) cache

    -- A next-hop whose interface is known and watched gives a Candidate.
    abbrev hop_candidates :
        RouteEventOp → Route net.Mask → Nexthop → Option String → List Candidate → List Candidate
    hop_candidates op r nh none cs = cs
    hop_candidates op r nh (some name) cs =
        if is_watched interfaces name
        then add_candidate cs (record {
          event = record {
            op = op;
            iface = name;
            family = route_family_from_af r.family;
            gateway = nh.gw;
          };
          metric = r.priority;
        })
        else cs

    -- The loop over the next-hops.
    pub each_hop :
        RouteEventOp
        → Route net.Mask
        → List Nexthop
        → List Candidate
        → Cache
        → List Candidate × Cache
    unfolding resolve_iface
    each_hop op r [] cs cache = (cs, cache)
    each_hop op r (nh ∷ nhs) cs cache =
        let (name, cache') = resolve_iface nh.link_index cache in
        each_hop op r nhs (hop_candidates op r nh name cs) cache'

    abbrev nexthops : Route net.Mask → List Nexthop → List Nexthop
    nexthops r [] = record { link_index = r.link_index; hops = pos 0; gw = r.gw } ∷ []
    nexthops r (nh ∷ nhs) = nh ∷ nhs

    pub route_candidates : RouteEventOp → Route net.Mask → Cache → List Candidate × Cache
    unfolding each_hop
    route_candidates op r cache =
        if eq_ℤ r.table table_main && is_default_route r
        then each_hop op r (nexthops r r.multi_path) [] cache
        else ([], cache)

    pub handle_update : MessageType → Route net.Mask → Cache → List Candidate × Cache
    unfolding route_candidates
    handle_update new_route r cache = route_candidates add r cache
    handle_update del_route r cache = route_candidates del r cache
    handle_update other_type r cache = ([], cache)

    -- The Candidates of a dump, in order.
    pub dump_candidates : List (Route net.Mask) → Cache → List Candidate × Cache
    unfolding handle_update
    dump_candidates [] cache = ([], cache)
    dump_candidates (r ∷ rs) cache =
        let (cs, cache') = handle_update new_route r cache in
        let (more, cache'') = dump_candidates rs cache' in (cs ++ more, cache'')

    pub select_defaults : List (Route net.Mask) → Cache → List RouteEvent × Cache
    unfolding dump_candidates
    select_defaults routes cache =
        let (cs, cache') = dump_candidates routes cache in
        (map (λ c. c.event) (select_all [] cs), cache')

    -- `reconcileVia` once the routes of the event's Family are read.
    pub reconcile :
        List (Route net.Mask) → RouteEvent → Option (Route net.Mask) → Cache → RouteEvent × Cache
    unfolding select_defaults without_first
    reconcile routes ev deleted cache =
        let (selected, cache') = select_defaults (without_deleted deleted routes) cache in
        (answer ev selected, cache')
