-- ===== src/Probe/Pinger/Run/Closes.antt =====
-- A Pinger leaves no connection behind (daemon/internal/probe/pinger.go).
use nixos_wanwatch.Prelude.{
  ℕ, ◌+◌, ◌≡◌, refl, ◌∙◌, Bool, true, false, Option, none, some, List, [], ◌∷◌, String, Result, ok,
  err, if_holds, arith,
}
use nixos_wanwatch.Prelude.Int.{ℤ}
use nixos_wanwatch.Probe.Family.{Family}
use nixos_wanwatch.Probe.Float.{Floats}
use nixos_wanwatch.Probe.Icmp.{echo_request_bytes}
use nixos_wanwatch.Probe.Window.{WindowError}
use nixos_wanwatch.Probe.Pinger.{
  Pinger, Datagram, Sent, send_one, send_all, cycle, TargetError, resolve_targets,
}
use nixos_wanwatch.Probe.Pinger.Run.{
  Windows, add_windows, Probing, checked, probed, Ran, ticked, ticks, opened, prepared, run,
}
use nixos_wanwatch.Probe.Socket.{DialError, Socket, open_socket}
use nixos_wanwatch.Probe.Socket.Owned.{has, Accounts, open-Owned, close-Owned, recheck-Owned}
use nixos_wanwatch.Rtnl.Event.{Ip}

module _ {W C E : Type 0} (fl : Floats) (p : Pinger)
    (dial : Family → String → W → Result (DialError E) (C × ℤ) × W)
    (if_index : String → W → Result E ℤ × W) (close_conn : C → W → W)
    (write_to : C → List ℕ → String → W → Bool × W) (now : W → ℕ) (reads : C → W → List Datagram)
    (cancelled done_first : W → Bool) (opens : W → ℕ) (a : Accounts dial if_index close_conn opens)
    (write_keeps : (c : C) (b : List ℕ) (t : String) (w : W)
      → opens (write_to c b t w).1 ≡ opens w) where
  -- What happens between the ticks leaves the connections alone.
  abbrev pub Quiet : List (W → W) → Type 0
  Quiet [] = Unit
  Quiet (wait ∷ waits) = ((w : W) → opens (wait w) ≡ opens w) × Quiet waits

  send_one_keeps :
      (c : C) (t : String) (s : Sent W)
      → opens (send_one p (write_to c) now (reads c) cancelled t s).world ≡ opens s.world
  unfolding send_one
  send_one_keeps c t s =
      let (failed, w) = write_to c (echo_request_bytes p.family p.ident s.seq []) t s.world in
      if_holds (λ (x : Sent W). opens x.world ≡ opens s.world) failed
        (λ e. write_keeps c (echo_request_bytes p.family p.ident s.seq []) t s.world)
        (λ e. write_keeps c (echo_request_bytes p.family p.ident s.seq []) t s.world)

  send_all_keeps :
      (c : C) (ts : List String) (s : Sent W)
      → opens (send_all p (write_to c) now (reads c) cancelled ts s).world ≡ opens s.world
  unfolding send_all
  send_all_keeps c [] s = refl
  send_all_keeps c (t ∷ ts) s =
      send_all_keeps c ts (send_one p (write_to c) now (reads c) cancelled t s)
      ∙ send_one_keeps c t s

  cycle_keeps :
      (c : C) (seq : ℕ) (w : W)
      → let (_, _, _, w') = cycle p (write_to c) now (reads c) cancelled seq w in opens w' ≡ opens w
  unfolding cycle
  cycle_keeps c seq w =
      send_all_keeps c p.targets
        (record { seq = seq; inflight = []; pushes = []; failed = false; world = w })

  abbrev Ends :
      ℕ → Ran fl p dial if_index close_conn write_to now reads cancelled done_first → Type 0
  Ends base (why, rs, st) = opens st.world ≡ base + has st.sock.conn

  checked-Owned :
      (base : ℕ) (s : Socket C) (failed : Bool) (w : W)
      → opens w ≡ base + has s.conn
      → let (s', w') =
          checked fl p dial if_index close_conn write_to now reads cancelled done_first s failed
            w in
        opens w' ≡ base + has s'.conn
  checked-Owned base s true w h = recheck-Owned dial if_index close_conn opens a base s w h
  checked-Owned base s false w h = h

  probed-Owned :
      (base : ℕ) (o : Option C) (st : Probing W C)
      → opens st.world ≡ base + has st.sock.conn
      → let st' =
          probed fl p dial if_index close_conn write_to now reads cancelled done_first o st in
        opens st'.world ≡ base + has st'.sock.conn
  probed-Owned base none st h = h
  probed-Owned base (some c) st h =
      let (_, _, failed, w) = cycle p (write_to c) now (reads c) cancelled st.seq st.world in
      checked-Owned base st.sock failed w (cycle_keeps c st.seq st.world ∙ h)

  ticked-Ends :
      (base : ℕ) (st : Probing W C) (o : Option E × Socket C × W)
      (next : Probing W C
        → Ran fl p dial if_index close_conn write_to now reads cancelled done_first)
      → opens o.2 ≡ base + has o.1.conn
      → ((st' : Probing W C) → opens st'.world ≡ base + has st'.sock.conn → Ends base (next st'))
      → Ends base
          (ticked fl p dial if_index close_conn write_to now reads cancelled done_first st o next)
  ticked-Ends base st (some e, s, w) next h k = h
  ticked-Ends base st (none, s, w) next h k =
      let st' =
        probed fl p dial if_index close_conn write_to now reads cancelled done_first s.conn
          (record st { sock = s; world = w }) in
      let h' = probed-Owned base s.conn (record st { sock = s; world = w }) h in
      if_holds (Ends base) (done_first st'.world) (λ e. h') (λ e. k st' h')

  ticks-Ends :
      (base : ℕ) (waits : List (W → W)) (st : Probing W C)
      → Quiet waits
      → opens st.world ≡ base + has st.sock.conn
      → Ends base
          (ticks fl p dial if_index close_conn write_to now reads cancelled done_first waits st)
  unfolding ticks
  ticks-Ends base [] st q h = h
  ticks-Ends base (wait ∷ waits) st (q, qs) h =
      let w = wait st.world in
      if_holds (Ends base) (done_first w) (λ e. q st.world ∙ h)
        (λ e.
          ticked-Ends base st (open_socket dial if_index close_conn st.sock w)
            (ticks fl p dial if_index close_conn write_to now reads cancelled done_first waits)
            (open-Owned dial if_index close_conn opens a base st.sock w (q st.world ∙ h))
            (λ st' h'. ticks-Ends base waits st' qs h'))

  opened-Ends :
      (base : ℕ) (waits : List (W → W)) (windows : Windows) (o : Option E × Socket C × W)
      → Quiet waits
      → opens o.2 ≡ base + has o.1.conn
      → Ends base (
          opened fl p dial if_index close_conn write_to now reads cancelled done_first waits windows
            o)
  opened-Ends base waits windows (some e, s, w) q h = h
  opened-Ends base waits windows (none, s, w) q h =
      ticks-Ends base waits (record { sock = s; windows = windows; seq = 0; world = w }) q h

  prepared-Ends :
      (base : ℕ) (waits : List (W → W)) (s : Socket C) (w : W)
      (x : Result TargetError (List (String × List ℕ))) (y : Result (String × WindowError) Windows)
      → Quiet waits
      → opens w ≡ base + has s.conn
      → Ends base (
          prepared fl p dial if_index close_conn write_to now reads cancelled done_first waits s w x
            y)
  prepared-Ends base waits s w (err e) y q h = h
  prepared-Ends base waits s w (ok x) (err e) q h = h
  prepared-Ends base waits s w (ok x) (ok windows) q h =
      opened-Ends base waits windows (open_socket dial if_index close_conn s w) q
        (open-Owned dial if_index close_conn opens a base s w h)

  -- However a Pinger ends, by a cancellation, a bad Target or window or a fault of its socket, it
  -- leaves as many connections open as there were before it started, and its socket is closed, where
  -- its socket is closed at first and each dial that succeeds opens one connection, each close ends
  -- one, and nothing else opens or ends any.
  pub run-Closes :
      (parse_ip : String → Ip) (is_v4 : List ℕ → Bool) (waits : List (W → W)) (s : Socket C) (w : W)
      → Quiet waits
      → s.conn ≡ none
      → let (_, _, st) =
          run fl p dial if_index close_conn write_to now reads cancelled done_first parse_ip is_v4
            waits s w in
        (st.sock.conn ≡ none) × (opens st.world ≡ opens w)
  unfolding run
  run-Closes parse_ip is_v4 waits s w q h =
      let x = resolve_targets parse_ip is_v4 p.family p.targets in
      let y = add_windows p.window_size p.targets [] in
      let (_, _, st) =
        prepared fl p dial if_index close_conn write_to now reads cancelled done_first waits s w x
          y in
      close-Owned dial if_index close_conn opens a (opens w) st.sock st.world
        (prepared-Ends (opens w) waits s w x y q (ground (arith, h)))
