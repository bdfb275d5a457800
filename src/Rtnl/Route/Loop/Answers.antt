-- ===== src/Rtnl/Route/Loop/Answers.antt =====
-- What the loop of daemon/internal/rtnl/route.go sends: the answers to the Candidates that arrive.
use nixos_wanwatch.Prelude.{
  if_holds, sym, subst, ◌∙◌, ◌≡◌, refl, Bool, true, false, Option, List, [], ◌∷◌, String, Result,
  ok, err, inl, inr, ◌⊎◌, ap,
}
use nixos_wanwatch.Prelude.Int.{ℤ}
use nixos_wanwatch.Rtnl.Dump.{DumpError, ReadError}
use nixos_wanwatch.Rtnl.Event.{RouteEvent, del}
use nixos_wanwatch.Rtnl.Route.{
  Net, Route, Candidate, Cache, event_of, without_deleted, dump_candidates, handle_update,
  reconcile,
}
use nixos_wanwatch.Rtnl.Route.Names.{IsTrue, empty-IsTrue, handle_update-Same, dump_candidates-Same}
use nixos_wanwatch.Rtnl.Route.Selected.{event_or, best, reconcile_lem}
use nixos_wanwatch.Rtnl.Route.Loop.{
  LoopError, subscription_closed, context_done, read_failed, RouteUpdate, deleted_of, read_family,
  observed, reconcile_via, Ran, sent, on_observed, each_candidate, run_loop,
}

abbrev pub is_closed : {E : Type 0} → LoopError E → Bool
is_closed subscription_closed = true
is_closed context_done = false
is_closed (read_failed fam e) = false

module _ {W E : Type 0} (net : Net) (interfaces : Option (List String))
    (iface_lookup : ℤ → Option String) (cancelled : W → Bool)
    (list_routes : ℤ → W → Result (DumpError E) (List (Route net.Mask)) × W) where
  -- An event tells what a read of the Family of `c` shows: the default of least metric of its
  -- interface, or that there is none, without the route just deleted.
  pub record Tells (deleted : Option (Route net.Mask)) (c : Candidate) (e : RouteEvent)
      : Type 0 where
    pub before : W
    pub routes : List (Route net.Mask)
    pub live : cancelled before ≡ false
    pub read :
        (read_family net interfaces iface_lookup cancelled list_routes c.event.family before).0
        ≡ ok routes
    pub told :
        e
        ≡ event_or
            (best c.event
              (dump_candidates net interfaces iface_lookup
                (without_deleted net deleted routes)
                []).0)
            (event_of del c.event)

  -- The events tell of the Candidates one after the other, and then `Rest`. A loop that is not
  -- `complete` may send no more at any point.
  pub TellsEach :
      Bool
      → Option (Route net.Mask)
      → List Candidate
      → (List RouteEvent → Type 0)
      → List RouteEvent
      → Type 0
  TellsEach complete deleted [] Rest es = Rest es
  TellsEach complete deleted (c ∷ cs) Rest es =
      (complete ≡ false) × (es ≡ [])
      ⊎ (e : RouteEvent) × (more : List RouteEvent) × (es ≡ e ∷ more)
        × Tells deleted c e
        × TellsEach complete deleted cs Rest more

  -- The same over the Candidates of all updates, in order.
  pub TellsAll : Bool → List (RouteUpdate net) → List RouteEvent → Type 0
  unfolding TellsEach
  TellsAll complete [] es = es ≡ []
  TellsAll complete (upd ∷ upds) es =
      (complete ≡ false) × (es ≡ [])
      ⊎ TellsEach complete (deleted_of upd)
          (handle_update net interfaces iface_lookup upd.0 upd.1 []).0 (TellsAll complete upds) es

  module _ (deleted : Option (Route net.Mask)) (Rest : Bool → List RouteEvent → Type 0)
      (next : Cache → W → Ran net interfaces iface_lookup cancelled list_routes)
      (rest_holds : (cache : Cache) (w : W)
        → IsTrue iface_lookup cache
        → Rest (is_closed (next cache w).0) (next cache w).1) where
    abbrev Holds : List Candidate → Ran net interfaces iface_lookup cancelled list_routes → Type 0
    Holds cs r = TellsEach (is_closed r.0) deleted cs (Rest (is_closed r.0)) r.1

    read_tells :
        (c : Candidate) (cs : List Candidate) (cache : Cache) (w : W)
        → IsTrue iface_lookup cache
        → cancelled w ≡ false
        → (o : Result (ReadError E) (List (Route net.Mask)) × W)
        → (read_family net interfaces iface_lookup cancelled list_routes c.event.family w).0 ≡ o.0
        → (go : Cache → W → Ran net interfaces iface_lookup cancelled list_routes)
        → ((cache' : Cache) (w' : W) → IsTrue iface_lookup cache' → Holds cs (go cache' w'))
        → Holds (c ∷ cs) (
            on_observed net interfaces iface_lookup cancelled list_routes
              (observed net interfaces iface_lookup cancelled list_routes c.event deleted cache o)
              go)
    unfolding TellsEach
    read_tells c cs cache w t live (err x, w') e go h = inl (refl, refl)
    read_tells c cs cache w t live (ok routes, w') e go h =
        let (ev, cache') = reconcile net interfaces iface_lookup routes c.event deleted cache in
        let e0 = reconcile_lem net interfaces iface_lookup routes c.event deleted cache in
        let same =
          dump_candidates-Same iface_lookup net interfaces (without_deleted net deleted routes)
            cache [] t (empty-IsTrue iface_lookup) in
        if_holds (Holds (c ∷ cs)) (cancelled w')
          {y = sent net interfaces iface_lookup cancelled list_routes ev (go cache' w')}
          (λ f. inl (refl, refl))
          (λ f. inr (
            ev,
            (go cache' w').1,
            refl,
            record {
              before = w;
              routes = routes;
              live = live;
              read = e;
              told =
                  ap (λ p. p.0) e0
                  ∙ ap (λ cs. event_or (best c.event cs) (event_of del c.event)) same.answer;
            },
            h cache' w' (subst (λ p. IsTrue iface_lookup p.1) (sym e0) same.left),
          ))

    each_candidate-TellsEach :
        (cs : List Candidate) (cache : Cache) (w : W)
        → IsTrue iface_lookup cache
        → Holds cs (
            each_candidate net interfaces iface_lookup cancelled list_routes deleted cs cache w
              next)
    unfolding each_candidate TellsEach reconcile_via
    each_candidate-TellsEach [] cache w t = rest_holds cache w t
    each_candidate-TellsEach (c ∷ cs) cache w t =
        let go : Cache → W → Ran net interfaces iface_lookup cancelled list_routes = (λ cache' w'.
          each_candidate net interfaces iface_lookup cancelled list_routes deleted cs cache' w'
            next) in
        if_holds
          (λ o. Holds (c ∷ cs) (on_observed net interfaces iface_lookup cancelled list_routes o go))
          (cancelled w) (λ e. inl (refl, refl))
          (λ e.
            read_tells c cs cache w t e
              (read_family net interfaces iface_lookup cancelled list_routes c.event.family w) refl
              go (each_candidate-TellsEach cs))

  abbrev handled :
      RouteUpdate net
      → List (RouteUpdate net)
      → List Candidate
      → Cache
      → W
      → Ran net interfaces iface_lookup cancelled list_routes
  handled upd upds cs cache w =
      each_candidate net interfaces iface_lookup cancelled list_routes (deleted_of upd) cs cache w
        (run_loop net interfaces iface_lookup cancelled list_routes upds)

  -- From a true cache of interface names, the events of the route loop answer the Candidates of the
  -- updates one by one and in their order, each by a read that tells the least-metric default of its
  -- interface and Family, or that there is none, without the route just deleted; and they answer them
  -- all when the loop ends because the channel closed.
  pub run_loop-TellsAll :
      (upds : List (RouteUpdate net)) (cache : Cache) (w : W)
      → IsTrue iface_lookup cache
      → let (why, es, _, _) =
          run_loop net interfaces iface_lookup cancelled list_routes upds cache w in
        TellsAll (is_closed why) upds es
  unfolding run_loop TellsAll
  run_loop-TellsAll [] cache w t = refl
  run_loop-TellsAll (upd ∷ upds) cache w t =
      let (cs, cache') = handle_update net interfaces iface_lookup upd.0 upd.1 cache in
      let same =
        handle_update-Same iface_lookup net interfaces upd.0 upd.1 cache [] t
          (empty-IsTrue iface_lookup) in
      if_holds
        (λ (r : Ran net interfaces iface_lookup cancelled list_routes).
          TellsAll (is_closed r.0) (upd ∷ upds) r.1)
        (cancelled w) (λ e. inl (refl, refl))
        (λ e. inr (
          subst
            (λ cands.
              TellsEach (is_closed (handled upd upds cs cache' w).0) (deleted_of upd) cands
                (TellsAll (is_closed (handled upd upds cs cache' w).0) upds)
                (handled upd upds cs cache' w).1)
            same.answer
            (each_candidate-TellsEach (deleted_of upd) (λ b. TellsAll b upds)
              (run_loop net interfaces iface_lookup cancelled list_routes upds)
              (run_loop-TellsAll upds) cs cache' w same.left)))
