-- ===== src/Rtnl/Route/Names.antt =====
-- The cache of interface names of daemon/internal/rtnl/route.go (`resolveIface`) changes no answer.
use nixos_wanwatch.Prelude.{
  ◌≡◌, refl, sym, ap, ◌∙◌, Bool, true, false, Option, none, some, List, [], ◌∷◌, ◌++◌, String,
  if◌then◌else◌, ◌&&◌, arith,
}
use nixos_wanwatch.Prelude.Int.{ℤ, eq_ℤ, eq_ℤ_iff}
use nixos_wanwatch.Prelude.Dict.{lookup, insert, lookup-insert}
use nixos_wanwatch.Rtnl.Event.{RouteEventOp, add, del}
use nixos_wanwatch.Rtnl.Route.{
  Net, Nexthop, Route, MessageType, new_route, del_route, other_type, Candidate, Cache, looked_up,
  cached, resolve_iface, hop_candidates, each_hop, nexthops, route_candidates, handle_update,
  dump_candidates, table_main, is_default_route,
}

-- A cache that holds only what the lookup says.
abbrev pub IsTrue : (ℤ → Option String) → Cache → Type 0
IsTrue look cache =
    (idx : ℤ) (name : String) → lookup eq_ℤ idx cache ≡ some name → look idx ≡ some name

pub empty-IsTrue : (look : ℤ → Option String) → IsTrue look []
unfolding lookup
empty-IsTrue look idx name h = ground (arith, h)

insert-IsTrue :
    (look : ℤ → Option String) (cache : Cache) (idx : ℤ) (name : String)
    → look idx ≡ some name
    → IsTrue look cache
    → IsTrue look (insert eq_ℤ idx name cache)
insert-IsTrue look cache idx name e t j n h =
    ground (arith, eq_ℤ_iff idx j, lookup-insert eq_ℤ eq_ℤ_iff idx j name cache, t j n, h, e)

module _ (look : ℤ → Option String) where
  -- The same answer, from caches that stay true.
  pub record Same {A : Type 0} (x y : A × Cache) : Type 0 where
    pub answer : x.0 ≡ y.0
    pub left : IsTrue look x.1
    pub right : IsTrue look y.1

  if-Same :
      {A : Type 0} (b : Bool) {x y x' y' : A × Cache}
      → Same x y
      → Same x' y'
      → Same (if b then x else x') (if b then y else y')
  if-Same true p q = p
  if-Same false p q = q

  module _ (net : Net) (interfaces : Option (List String)) where
    looked_up_lem :
        (idx : ℤ) (cache : Cache) (o : Option String)
        → look idx ≡ o
        → IsTrue look cache
        → ((looked_up net interfaces look idx o cache).0 ≡ look idx)
          × IsTrue look (looked_up net interfaces look idx o cache).1
    looked_up_lem idx cache none e t = (sym e, t)
    looked_up_lem idx cache (some name) e t = (sym e, insert-IsTrue look cache idx name e t)

    cached_lem :
        (idx : ℤ) (cache : Cache) (o : Option String)
        → lookup eq_ℤ idx cache ≡ o
        → IsTrue look cache
        → ((cached net interfaces look idx o cache).0 ≡ look idx)
          × IsTrue look (cached net interfaces look idx o cache).1
    cached_lem idx cache none e t = looked_up_lem idx cache (look idx) refl t
    cached_lem idx cache (some name) e t = (sym (t idx name e), t)

    resolve_iface_lem :
        (idx : ℤ) (cache : Cache)
        → IsTrue look cache
        → ((resolve_iface net interfaces look idx cache).0 ≡ look idx)
          × IsTrue look (resolve_iface net interfaces look idx cache).1
    unfolding resolve_iface
    resolve_iface_lem idx cache t = cached_lem idx cache (lookup eq_ℤ idx cache) refl t

    each_hop-Same :
        (op : RouteEventOp) (r : Route net.Mask) (nhs : List Nexthop) {cs ds : List Candidate}
        → cs ≡ ds
        → (a b : Cache) → IsTrue look a
        → IsTrue look b
        → Same
            (each_hop net interfaces look op r nhs cs a)
            (each_hop net interfaces look op r nhs ds b)
    unfolding each_hop
    each_hop-Same op r [] e a b s t = record { answer = e; left = s; right = t }
    each_hop-Same op r (nh ∷ nhs) {cs} {ds} e a b s t =
        let (p, s') = resolve_iface_lem nh.link_index a s in
        let (q, t') = resolve_iface_lem nh.link_index b t in
        each_hop-Same op r nhs
          (ap (λ n. hop_candidates net interfaces look op r nh n cs) (p ∙ sym q)
            ∙ ap
                (hop_candidates net interfaces look op r nh
                  (resolve_iface net interfaces look nh.link_index b).0)
                e)
          (resolve_iface net interfaces look nh.link_index a).1
          (resolve_iface net interfaces look nh.link_index b).1 s' t'

    route_candidates-Same :
        (op : RouteEventOp) (r : Route net.Mask) (a b : Cache)
        → IsTrue look a
        → IsTrue look b
        → Same
            (route_candidates net interfaces look op r a)
            (route_candidates net interfaces look op r b)
    unfolding route_candidates
    route_candidates-Same op r a b s t =
        if-Same (eq_ℤ r.table table_main && is_default_route net r)
          (each_hop-Same op r (nexthops net interfaces look r r.multi_path) {cs = []} refl a b s t)
          (record { answer = refl {a = []}; left = s; right = t })

    pub handle_update-Same :
        (ty : MessageType) (r : Route net.Mask) (a b : Cache)
        → IsTrue look a
        → IsTrue look b
        → Same (handle_update net interfaces look ty r a) (handle_update net interfaces look ty r b)
    unfolding handle_update
    handle_update-Same new_route r a b s t = route_candidates-Same add r a b s t
    handle_update-Same del_route r a b s t = route_candidates-Same del r a b s t
    handle_update-Same other_type r a b s t = record { answer = refl; left = s; right = t }

    pub dump_candidates-Same :
        (rs : List (Route net.Mask)) (a b : Cache)
        → IsTrue look a
        → IsTrue look b
        → Same (dump_candidates net interfaces look rs a) (dump_candidates net interfaces look rs b)
    unfolding dump_candidates
    dump_candidates-Same [] a b s t = record { answer = refl; left = s; right = t }
    dump_candidates-Same (r ∷ rs) a b s t =
        let h = handle_update-Same new_route r a b s t in
        let (cs, a') = handle_update net interfaces look new_route r a in
        let (ds, b') = handle_update net interfaces look new_route r b in
        let k = dump_candidates-Same rs a' b' h.left h.right in
        record {
          answer =
              ap (λ l. l ++ (dump_candidates net interfaces look rs a').0) h.answer
              ∙ ap (λ l. ds ++ l) k.answer;
          left = k.left;
          right = k.right;
        }
