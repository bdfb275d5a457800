-- ===== src/Probe/Pinger/Run.antt =====
-- `run` of daemon/internal/probe/pinger.go: the loop over the ticker. The dial, the connection and the
-- lookup of an interface's index are parameters over a world `W`. What happens until the ticker fires
-- is a function on the world, one for each tick; the loop ends with their list or when a `select` takes
-- the cancellation, which `done_first` says: where both are ready, either is taken. The time stamps of
-- the results are left out.
pub mod Stands
pub mod Counts
pub mod Closes
use nixos_wanwatch.Prelude.{
  ℕ, Bool, Option, none, some, List, [], ◌∷◌, String, Result, ok, err, if◌then◌else◌,
}
use nixos_wanwatch.Prelude.Int.{ℤ}
use nixos_wanwatch.Prelude.Dict.{insert}
use nixos_wanwatch.Prelude.Text.{str_eq}
use nixos_wanwatch.Probe.Family.{Family}
use nixos_wanwatch.Probe.Float.{Floats}
use nixos_wanwatch.Probe.Window.{WindowStats, WindowError, new_window}
use nixos_wanwatch.Probe.Aggregate.{aggregate}
use nixos_wanwatch.Probe.Pinger.{
  Pinger, Datagram, cycle, push_all, push_lost, TargetError, resolve_targets,
}
use nixos_wanwatch.Probe.Socket.{DialError, Socket, open_socket, recheck, close}
use nixos_wanwatch.Rtnl.Event.{Ip}
use nixos_wanwatch.Health.Wans.{ProbeResult}

abbrev pub Windows : Type 0
Windows = List (String × WindowStats)

-- The loop that makes the windows, with the ones made so far.
pub add_windows : ℤ → List String → Windows → Result (String × WindowError) Windows
add_windows size [] windows = ok windows
add_windows size (t ∷ ts) windows = elim (new_window size) [
  | err e ↦ err (t, e)
  | ok w ↦ add_windows size ts (insert str_eq t w windows)
]

pub data RunError (E : Type 0) : Type 0 where
  bad_target : TargetError → RunError E
  bad_window : String × WindowError → RunError E
  socket_failed : E → RunError E
  context_done : RunError E

pub record Probing (W C : Type 0) : Type 0 where
  pub sock : Socket C
  pub windows : Windows
  pub seq : ℕ
  pub world : W

abbrev pub result_of : (fl : Floats) → Pinger → Windows → ProbeResult fl
result_of fl p windows = record { wan = p.wan; family = p.family; stats = aggregate fl windows }

module _ {W C E : Type 0} (fl : Floats) (p : Pinger)
    (dial : Family → String → W → Result (DialError E) (C × ℤ) × W)
    (if_index : String → W → Result E ℤ × W) (close_conn : C → W → W)
    (write_to : C → List ℕ → String → W → Bool × W) (now : W → ℕ) (reads : C → W → List Datagram)
    (cancelled done_first : W → Bool) where
  -- After a failed send the socket is checked.
  abbrev pub checked : Socket C → Bool → W → Socket C × W
  checked s failed w =
      let rechecked = recheck dial if_index close_conn s w in if failed then rechecked else (s, w)

  -- A tick with the socket open or absent.
  abbrev pub probed : Option C → Probing W C → Probing W C
  probed none st = record st { windows = push_lost st.windows }
  probed (some c) st =
      let (pushes, seq, failed, w) = cycle p (write_to c) now (reads c) cancelled st.seq st.world in
      let (s, w') = checked st.sock failed w in
      record { sock = s; windows = push_all pushes st.windows; seq = seq; world = w' }

  abbrev pub Ran : Type 0
  Ran = RunError E × List (ProbeResult fl) × Probing W C

  abbrev pub emitted : Windows → Ran → Ran
  emitted windows (why, rs, st) = (why, result_of fl p windows ∷ rs, st)

  -- A tick after the socket was opened, and then `next`.
  abbrev pub ticked : Probing W C → Option E × Socket C × W → (Probing W C → Ran) → Ran
  ticked st (some e, s, w) next = (socket_failed e, [], record st { sock = s; world = w })
  ticked st (none, s, w) next =
      let st' = probed s.conn (record st { sock = s; world = w }) in
      let rest = emitted st'.windows (next st') in
      if done_first st'.world then (context_done, [], st') else rest

  unfoldable pub ticks : List (W → W) → Probing W C → Ran
  ticks [] st = (context_done, [], st)
  ticks (wait ∷ waits) st =
      let w = wait st.world in
      let went = ticked st (open_socket dial if_index close_conn st.sock w) (ticks waits) in
      if done_first w then (context_done, [], record st { world = w }) else went

  abbrev pub opened : List (W → W) → Windows → Option E × Socket C × W → Ran
  opened waits windows (some e, s, w) =
      (socket_failed e, [], record { sock = s; windows = windows; seq = 0; world = w })
  opened waits windows (none, s, w) =
      ticks waits (record { sock = s; windows = windows; seq = 0; world = w })

  -- `parse_ip` and `is_v4` are of the package net. The socket is closed at the end, as `Run` defers.
  abbrev pub prepared :
      List (W → W)
      → Socket C
      → W
      → Result TargetError (List (String × List ℕ))
      → Result (String × WindowError) Windows
      → Ran
  prepared waits s w (err e) windows =
      (bad_target e, [], record { sock = s; windows = []; seq = 0; world = w })
  prepared waits s w (ok addrs) (err e) =
      (bad_window e, [], record { sock = s; windows = []; seq = 0; world = w })
  prepared waits s w (ok addrs) (ok windows) =
      opened waits windows (open_socket dial if_index close_conn s w)

  abbrev pub closed : Ran → Ran
  closed (why, rs, st) =
      let (s, w) = close dial if_index close_conn st.sock st.world in
      (why, rs, record st { sock = s; world = w })

  unfoldable pub run : (String → Ip) → (List ℕ → Bool) → List (W → W) → Socket C → W → Ran
  unfolding ticks resolve_targets add_windows
  run parse_ip is_v4 waits s w = closed (
      prepared waits s w (resolve_targets parse_ip is_v4 p.family p.targets)
        (add_windows p.window_size p.targets []))
