-- ===== src/Probe/Pinger/Run/Counts.antt =====
-- What the results of a Pinger stand on (daemon/internal/probe/pinger.go): a history of samples for
-- each Target, one for each tick.
use nixos_wanwatch.Prelude.{
  if_holds, ℕ, suc, ◌≤◌, ◌<◌, ◌≡◌, refl, ap, Bool, false, Option, none, some, List, [], ◌∷◌, String,
  Result, ok, err, arith, length,
}
use nixos_wanwatch.Prelude.Int.{ℤ}
use nixos_wanwatch.Probe.Family.{Family}
use nixos_wanwatch.Probe.Float.{Floats}
use nixos_wanwatch.Probe.Window.{WindowStats, WindowError, new_window}
use nixos_wanwatch.Probe.Window.History as History
use nixos_wanwatch.Probe.Window.History.{history}
use nixos_wanwatch.Probe.Pinger.{Pinger, Datagram, lost_sample, cycle, TargetError, resolve_targets}
use nixos_wanwatch.Probe.Pinger.Cycle.{cycle_lem}
use nixos_wanwatch.Probe.Pinger.Run.{
  Windows, add_windows, context_done, Probing, probed, Ran, result_of, ticked, ticks, opened,
  prepared, closed, run,
}
use nixos_wanwatch.Probe.Pinger.Run.Stands.{
  listed, own, length-own, lookup-push_all, lookup-push_lost, Stands, add_windows-found, grows,
}
use nixos_wanwatch.Probe.Socket.{DialError, Socket, open_socket}
use nixos_wanwatch.Rtnl.Event.{Ip}
use nixos_wanwatch.Health.Wans.{ProbeResult}

module _ {W C E : Type 0} (fl : Floats) (p : Pinger)
    (dial : Family → String → W → Result (DialError E) (C × ℤ) × W)
    (if_index : String → W → Result E ℤ × W) (close_conn : C → W → W)
    (write_to : C → List ℕ → String → W → Bool × W) (now : W → ℕ) (reads : C → W → List Datagram)
    (cancelled done_first : W → Bool) (w₀ : WindowStats) (few : length p.targets ≤ 65_536)
    (once : (t : String) → listed t p.targets ≤ 1) where
  probed-Stands :
      (n : ℕ) (o : Option C) (st : Probing W C)
      → st.seq < 65_536
      → Stands p.targets w₀ n st.windows
      → let st' =
          probed fl p dial if_index close_conn write_to now reads cancelled done_first o st in
        (st'.seq < 65_536) × Stands p.targets w₀ (suc n) st'.windows
  probed-Stands n none st b s =
      (b, grows (λ t. lost_sample ∷ []) (λ t l. refl) (lookup-push_lost st.windows) s)
  probed-Stands n (some c) st b s =
      let (pushes, _, _, _) = cycle p (write_to c) now (reads c) cancelled st.seq st.world in
      let tells = (λ (t : String).
        cycle_lem p (write_to c) now (reads c) cancelled st.seq st.world t b few) in
      (
        ground (arith, (tells "").1),
        grows (λ t. own t pushes) (λ t l. omega (arith, length-own t pushes, (tells t).0, once t))
            (lookup-push_all pushes st.windows) s,
      )

  -- The results of the ticks from the one after `n` on.
  abbrev pub Results : ℕ → List (ProbeResult fl) → Type 0
  Results n [] = Unit
  Results n (r ∷ rs) =
      ((windows : Windows) × (r ≡ result_of fl p windows) × Stands p.targets w₀ (suc n) windows)
      × Results (suc n) rs

  abbrev go :
      List (W → W)
      → Probing W C
      → Ran fl p dial if_index close_conn write_to now reads cancelled done_first
  go = ticks fl p dial if_index close_conn write_to now reads cancelled done_first

  ticked-Results :
      (n : ℕ) (st : Probing W C) (o : Option E × Socket C × W)
      (next : Probing W C
        → Ran fl p dial if_index close_conn write_to now reads cancelled done_first)
      → st.seq < 65_536
      → Stands p.targets w₀ n st.windows
      → ((st' : Probing W C)
          → st'.seq < 65_536
          → Stands p.targets w₀ (suc n) st'.windows
          → Results (suc n) (next st').1)
      → Results n
          (ticked fl p dial if_index close_conn write_to now reads cancelled done_first st o next).1
  ticked-Results n st (some e, s, w) next b h k = tt
  ticked-Results n st (none, s, w) next b h k =
      let st₁ : Probing W C = record st { sock = s; world = w } in
      let st' =
        probed fl p dial if_index close_conn write_to now reads cancelled done_first s.conn st₁ in
      let (b', h') = probed-Stands n s.conn st₁ b h in
      if_holds
        (λ (r : Ran fl p dial if_index close_conn write_to now reads cancelled done_first).
          Results n r.1)
        (done_first st'.world) (λ e. tt) (λ e. ((st'.windows, refl, h'), k st' b' h'))

  ticks-Results :
      (waits : List (W → W)) (n : ℕ) (st : Probing W C)
      → st.seq < 65_536
      → Stands p.targets w₀ n st.windows
      → Results n (go waits st).1
  unfolding ticks
  ticks-Results [] n st b h = tt
  ticks-Results (wait ∷ waits) n st b h =
      let w = wait st.world in
      if_holds
        (λ (r : Ran fl p dial if_index close_conn write_to now reads cancelled done_first).
          Results n r.1)
        (done_first w) (λ e. tt)
        (λ e.
          ticked-Results n st (open_socket dial if_index close_conn st.sock w) (go waits) b h
            (λ st' b' h'. ticks-Results waits (suc n) st' b' h'))

  opened-Results :
      (waits : List (W → W)) (windows : Windows) (o : Option E × Socket C × W)
      → Stands p.targets w₀ 0 windows
      → Results 0
          (opened fl p dial if_index close_conn write_to now reads cancelled done_first waits
            windows o).1
  opened-Results waits windows (some e, s, w) h = tt
  opened-Results waits windows (none, s, w) h =
      ticks-Results waits 0 (record { sock = s; windows = windows; seq = 0; world = w })
        (omega arith) h

  new-Stands :
      new_window p.window_size ≡ ok w₀
      → (windows : Windows) → add_windows p.window_size p.targets [] ≡ ok windows
      → Stands p.targets w₀ 0 windows
  unfolding History.push_all
  new-Stands made windows h = record {
    samples = λ t. [];
    counted = λ t l. refl;
    found =
        λ t l. ground (arith, add_windows-found p.window_size w₀ made p.targets [] windows h t, l);
  }

  -- The loop was not stopped by a fault of the socket, and so has a result for each of `m` ticks.
  abbrev Each :
      ℕ → Ran fl p dial if_index close_conn write_to now reads cancelled done_first → Type 0
  Each m r = r.0 ≡ context_done → length r.1 ≡ m

  ticked-Each :
      (never : (w : W) → done_first w ≡ false) (m : ℕ) (st : Probing W C)
      (o : Option E × Socket C × W)
      (next : Probing W C
        → Ran fl p dial if_index close_conn write_to now reads cancelled done_first)
      → ((st' : Probing W C) → Each m (next st'))
      → Each
          (suc m)
          (ticked fl p dial if_index close_conn write_to now reads cancelled done_first st o next)
  ticked-Each never m st (some e, s, w) next k = λ h. ground (arith, h)
  ticked-Each never m st (none, s, w) next k =
      let st' =
        probed fl p dial if_index close_conn write_to now reads cancelled done_first s.conn
          (record st { sock = s; world = w }) in
      if_holds (Each (suc m)) (done_first st'.world) (λ e h. ground (arith, e, never st'.world))
        (λ e h. ap suc (k st' h))

  ticks-Each :
      (never : (w : W) → done_first w ≡ false) (waits : List (W → W)) (st : Probing W C)
      → Each (length waits) (go waits st)
  unfolding ticks
  ticks-Each never [] st = λ h. refl
  ticks-Each never (wait ∷ waits) st =
      let w = wait st.world in
      if_holds (Each (suc (length waits))) (done_first w) (λ e h. ground (arith, e, never w))
        (λ e.
          ticked-Each never (length waits) st (open_socket dial if_index close_conn st.sock w)
            (go waits) (ticks-Each never waits))

  opened-Each :
      (never : (w : W) → done_first w ≡ false) (waits : List (W → W)) (windows : Windows)
      (o : Option E × Socket C × W)
      → Each (length waits) (
          opened fl p dial if_index close_conn write_to now reads cancelled done_first waits windows
            o)
  opened-Each never waits windows (some e, s, w) = λ h. ground (arith, h)
  opened-Each never waits windows (none, s, w) =
      ticks-Each never waits (record { sock = s; windows = windows; seq = 0; world = w })

  -- The k-th result of a Pinger over at most 65,536 Targets, none of them twice, is the aggregate of
  -- windows in which each Target has had k Samples pushed, one for each tick so far, whatever becomes
  -- of the interface, the socket, the sends and the replies; and where no `select` takes the
  -- cancellation and the Pinger does not fail, every tick has its result.
  pub run-Results :
      (parse_ip : String → Ip) (is_v4 : List ℕ → Bool) (waits : List (W → W)) (s : Socket C) (w : W)
      → new_window p.window_size ≡ ok w₀
      → let (why, rs, _) =
          run fl p dial if_index close_conn write_to now reads cancelled done_first parse_ip is_v4
            waits s w in
        Results 0 rs
        × (((w : W) → done_first w ≡ false) → why ≡ context_done → length rs ≡ length waits)
  unfolding run
  run-Results parse_ip is_v4 waits s w made =
      of (resolve_targets parse_ip is_v4 p.family p.targets)
        (add_windows p.window_size p.targets []) refl
    where
      of :
          (a : Result TargetError (List (String × List ℕ)))
          (r : Result (String × WindowError) Windows)
          → add_windows p.window_size p.targets [] ≡ r
          → let (why, rs, _) =
              closed fl p dial if_index close_conn write_to now reads cancelled done_first (
                prepared fl p dial if_index close_conn write_to now reads cancelled done_first waits
                  s w a r) in
            Results 0 rs
            × (((w : W) → done_first w ≡ false) → why ≡ context_done → length rs ≡ length waits)
      of (err e) r q = (tt, λ never h. ground (arith, h))
      of (ok a) (err e) q = (tt, λ never h. ground (arith, h))
      of (ok a) (ok windows) q = (
        opened-Results waits windows (open_socket dial if_index close_conn s w)
            (new-Stands made windows q),
        λ never. opened-Each never waits windows (open_socket dial if_index close_conn s w),
      )
