-- ===== src/Rtnl/Route/Loop.antt =====
-- `readSnapshot` and `runLoop` of daemon/internal/rtnl/route.go, over the netlink dump as a parameter.
-- The updates that arrive before the channel closes and the events that were sent are lists, the time
-- stamps are left out, and the cache of interface names is passed along.
pub mod Answers
use nixos_wanwatch.Prelude.{
  Bool, true, false, Option, none, some, List, [], ◌∷◌, ◌++◌, String, Result, ok, err,
  if◌then◌else◌,
}
use nixos_wanwatch.Prelude.Int.{ℤ, pos}
use nixos_wanwatch.Probe.Family.{Family, v4, v6, other}
use nixos_wanwatch.Rtnl.Dump.{DumpError, ReadError, retry_dump}
use nixos_wanwatch.Rtnl.Event.{RouteEvent}
use nixos_wanwatch.Rtnl.Route.{
  Net, Route, MessageType, new_route, del_route, other_type, af_inet6, Candidate, Cache,
  handle_update, select_defaults, reconcile,
}

abbrev pub af_inet : ℤ
af_inet = pos 2

-- The conversion of a RouteFamily to an int.
abbrev pub af_of : Family → ℤ
af_of v4 = af_inet
af_of v6 = af_inet6
af_of (other n) = n

-- How `runLoop` ends.
pub data LoopError (E : Type 0) : Type 0 where
  subscription_closed : LoopError E
  context_done : LoopError E
  read_failed : Family → ReadError E → LoopError E

-- `RouteUpdate`, the message with its type.
abbrev pub RouteUpdate : Net → Type 0
RouteUpdate net = MessageType × Route net.Mask

-- The route that a read leaves out.
abbrev pub deleted_of : {Mask : Type 0} → MessageType × Route Mask → Option (Route Mask)
deleted_of (new_route, r) = none
deleted_of (del_route, r) = some r
deleted_of (other_type, r) = none

module _ {W E : Type 0} (net : Net) (interfaces : Option (List String))
    (iface_lookup : ℤ → Option String) (cancelled : W → Bool)
    (list_routes : ℤ → W → Result (DumpError E) (List (Route net.Mask)) × W) where
  abbrev pub read_family : Family → W → Result (ReadError E) (List (Route net.Mask)) × W
  read_family fam w = retry_dump (list_routes (af_of fam)) cancelled w

  abbrev pub Snapshot : Type 0
  Snapshot = Result (Family × ReadError E) (List RouteEvent) × Cache × W

  abbrev add_selected : List RouteEvent → Snapshot → Snapshot
  add_selected es (ok more, cache, w) = (ok (es ++ more), cache, w)
  add_selected es (err e, cache, w) = (err e, cache, w)

  abbrev pub on_dump :
      Family
      → Cache
      → Result (ReadError E) (List (Route net.Mask)) × W
      → (Cache → W → Snapshot)
      → Snapshot
  on_dump fam cache (err e, w) next = (err (fam, e), cache, w)
  on_dump fam cache (ok routes, w) next =
      let (es, cache') = select_defaults net interfaces iface_lookup routes cache in
      add_selected es (next cache' w)

  pub read_families : List Family → Cache → W → Snapshot
  read_families [] cache w = (ok [], cache, w)
  read_families (fam ∷ fams) cache w = on_dump fam cache (read_family fam w) (read_families fams)

  pub read_snapshot : Cache → W → Snapshot
  unfolding read_families
  read_snapshot cache w = read_families (v4 ∷ v6 ∷ []) cache w

  abbrev pub Observed : Type 0
  Observed = Result (LoopError E) RouteEvent × Cache × W

  abbrev pub observed :
      RouteEvent
      → Option (Route net.Mask)
      → Cache
      → Result (ReadError E) (List (Route net.Mask)) × W
      → Observed
  observed ev deleted cache (err e, w) = (err (read_failed ev.family e), cache, w)
  observed ev deleted cache (ok routes, w) =
      let (e, cache') = reconcile net interfaces iface_lookup routes ev deleted cache in
      (ok e, cache', w)

  unfoldable pub reconcile_via : RouteEvent → Option (Route net.Mask) → Cache → W → Observed
  reconcile_via ev deleted cache w =
      let read = observed ev deleted cache (read_family ev.family w) in
      if cancelled w then (err context_done, cache, w) else read

  -- Why the loop ended, the events sent, and the cache and the world at the end.
  abbrev pub Ran : Type 0
  Ran = LoopError E × List RouteEvent × Cache × W

  abbrev pub sent : RouteEvent → Ran → Ran
  sent e (why, es, cache, w) = (why, e ∷ es, cache, w)

  -- Where a receiver and the cancellation are both ready, `select` may take either; this takes the
  -- cancellation.
  abbrev pub on_observed : Observed → (Cache → W → Ran) → Ran
  on_observed (err e, cache, w) next = (e, [], cache, w)
  on_observed (ok e, cache, w) next =
      let rest = sent e (next cache w) in if cancelled w then (context_done, [], cache, w) else rest

  -- The loop over the Candidates of one update.
  unfoldable pub each_candidate :
      Option (Route net.Mask) → List Candidate → Cache → W → (Cache → W → Ran) → Ran
  unfolding reconcile_via
  each_candidate deleted [] cache w next = next cache w
  each_candidate deleted (c ∷ cs) cache w next =
      on_observed (reconcile_via c.event deleted cache w)
        (λ cache' w'. each_candidate deleted cs cache' w' next)

  unfoldable pub run_loop : List (RouteUpdate net) → Cache → W → Ran
  unfolding each_candidate
  run_loop [] cache w = (if cancelled w then context_done else subscription_closed, [], cache, w)
  run_loop (upd ∷ upds) cache w =
      let (cs, cache') = handle_update net interfaces iface_lookup upd.0 upd.1 cache in
      let handled = each_candidate (deleted_of upd) cs cache' w (run_loop upds) in
      if cancelled w then (context_done, [], cache, w) else handled
