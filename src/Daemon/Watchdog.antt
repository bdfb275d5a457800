-- ===== src/Daemon/Watchdog.antt =====
-- What the daemon tells systemd (daemon/cmd/wanwatchd/sdnotify.go): the notification socket, the
-- interval of the watchdog, and the handshake of `runWatchdog` with the event loop (eventloop.go). The
-- environment, strconv.Atoi and the sockets are parameters.
pub mod Handshake
use Prim.Native.String.{[], ◌∷◌}
use Prim.Native.Char.{code}
use nixos_wanwatch.Prelude.{
  ℕ, zero, suc, ◌+◌, ◌-◌, ◌*◌, ◌/◌, ◌%◌, ◌^◌, ◌<◌, ◌≡◌, refl, Bool, true, false, not, ◌&&◌, ◌||◌,
  Option, none, some, List, ◌∷◌, String, Result, ok, err, if◌then◌else◌, ◌==◌, any, ltb, arith,
}
use nixos_wanwatch.Prelude.Int.{ℤ, pos, negsuc, eq_ℤ, leb_ℤ, times_int64}
use nixos_wanwatch.Prelude.Text.{str_eq}

-- A unixgram address: Go's net package writes a leading NUL for an abstract one.
pub data SocketName : Type 0 where
  abstract_name path_name : String → SocketName

unfoldable pub socket_name : String → SocketName
socket_name [] = path_name ""
socket_name (c ∷ s) = if code c == 64 then abstract_name s else path_name (c ∷ s)

pub data NotifyError (E : Type 0) : Type 0 where
  notify_dial write_failed : String → E → NotifyError E

module _ {W C E : Type 0} (getenv : String → String) (dial : SocketName → W → Result E C × W)
    (write : C → String → W → Option E × W) (close_conn : C → W → W) where
  abbrev written : C → String → Option E × W → Option (NotifyError E) × W
  written c state (none, w) = (none, close_conn c w)
  written c state (some e, w) = (some (write_failed state e), close_conn c w)

  abbrev dialled : String → String → Result E C × W → Option (NotifyError E) × W
  dialled socket state (err e, w) = (some (notify_dial socket e), w)
  dialled socket state (ok c, w) = written c state (write c state w)

  -- `none` is success.
  unfoldable pub sd_notify : String → W → Option (NotifyError E) × W
  unfolding socket_name
  sd_notify state w =
      let socket = getenv "NOTIFY_SOCKET" in
      let sent = dialled socket state (dial (socket_name socket) w) in
      if str_eq socket "" then (none, w) else sent

-- Division by 2 towards zero.
abbrev pub half : ℤ → ℤ
half (pos n) = pos (n / 2)
half (negsuc n) = elim ((n + 1) / 2) [ zero ↦ pos 0 | suc m ↦ negsuc m ]

module _ (getenv : String → String) (atoi : String → Option ℤ) (pid : ℤ) where
  abbrev is_own : Option ℤ → Bool
  is_own none = false
  is_own (some n) = eq_ℤ n pid

  abbrev half_of : Option ℤ → ℤ
  half_of none = pos 0
  half_of (some (pos zero)) = pos 0
  half_of (some (pos (suc n))) = half (times_int64 1000 (pos (suc n)))
  half_of (some (negsuc n)) = pos 0

  -- In nanoseconds; 0 is no watchdog.
  unfoldable pub watchdog_interval : ℤ
  watchdog_interval =
      let usec = getenv "WATCHDOG_USEC" in
      let owner = getenv "WATCHDOG_PID" in
      if str_eq usec ""
      then pos 0
      else if not (str_eq owner "") && not (is_own (atoi owner))
      then pos 0
      else half_of (atoi usec)

  -- Of a timeout below 2^63 nanoseconds that is this process's, the interval is half.
  pub watchdog_interval_lem :
      (n : ℕ)
      → suc n * 1000 < 2 ^ 63
      → str_eq (getenv "WATCHDOG_USEC") "" ≡ false
      → (not (str_eq (getenv "WATCHDOG_PID") "") && not (is_own (atoi (getenv "WATCHDOG_PID"))))
        ≡ false
      → atoi (getenv "WATCHDOG_USEC") ≡ some (pos (suc n))
      → watchdog_interval ≡ pos (suc n * 500)
  unfolding watchdog_interval
  watchdog_interval_lem n l u o a = ground (arith, u, o, a)

-- Where `runWatchdog` is. A challenge is known by the tick that made it.
pub data Watch : Type 0 where
  resting : Watch
  offering waiting : ℕ → Watch
  pinging : Watch
  stopped : Watch

-- Where the event loop is: at its `select`, in a handler, with a challenge to answer, or returned.
pub data LoopPlace : Type 0 where
  ready busy : LoopPlace
  answering : ℕ → LoopPlace
  returned : LoopPlace

-- `acked` has the challenges whose channel is closed; `sends` counts the WATCHDOG=1 messages and
-- `answers` the challenges that the event loop answered.
pub record Keepalive : Type 0 where
  pub watch : Watch
  pub loop : LoopPlace
  pub cancelled : Bool
  pub ticks : ℕ
  pub acked : List ℕ
  pub answers : ℕ
  pub sends : ℕ

-- What happens next, of the watchdog, of the event loop, or of both together.
pub data Event : Type 0 where
  tick take see_ack send_keepalive watch_stops : Event
  start_handler end_handler answer loop_returns : Event
  cancel : Event

-- `interval` is that of the watchdog.
unfoldable pub run_watchdog : (interval : ℤ) → Keepalive
run_watchdog interval = record {
  watch = if leb_ℤ interval (pos 0) then stopped else resting;
  loop = ready;
  cancelled = false;
  ticks = 0;
  acked = List.[];
  answers = 0;
  sends = 0;
}

-- A send that fails is logged and the loop goes on, so a send is a send.
unfoldable pub watch_step : Event → Keepalive → Watch → Option Keepalive
watch_step tick k resting = some (record k { watch = offering (k.ticks + 1); ticks = k.ticks + 1 })
watch_step see_ack k (waiting c) =
    if any (λ a. a == c) k.acked then some (record k { watch = pinging }) else none
watch_step send_keepalive k pinging = some (record k { watch = resting; sends = k.sends + 1 })
watch_step watch_stops k resting = if k.cancelled then some (record k { watch = stopped }) else none
watch_step watch_stops k (offering c) =
    if k.cancelled then some (record k { watch = stopped }) else none
watch_step watch_stops k (waiting c) =
    if k.cancelled then some (record k { watch = stopped }) else none
watch_step _ k _ = none

unfoldable pub loop_step : Event → Keepalive → LoopPlace → Option Keepalive
loop_step start_handler k ready = if k.cancelled then none else some (record k { loop = busy })
loop_step end_handler k busy = some (record k { loop = ready })
loop_step answer k (answering c) =
    some (record k { loop = ready; acked = c ∷ k.acked; answers = k.answers + 1 })
loop_step loop_returns k ready = if k.cancelled then some (record k { loop = returned }) else none
loop_step _ k _ = none

-- The channel of challenges has no buffer: the offer and its receipt are one step.
unfoldable pub take_step : Keepalive → Watch → LoopPlace → Option Keepalive
take_step k (offering c) ready = some (record k { watch = waiting c; loop = answering c })
take_step k _ _ = none

-- `none` where the step cannot be taken.
unfoldable pub step : Event → Keepalive → Option Keepalive
unfolding watch_step loop_step take_step
step take k = take_step k k.watch k.loop
step cancel k = some (record k { cancelled = true })
step tick k = watch_step tick k k.watch
step see_ack k = watch_step see_ack k k.watch
step send_keepalive k = watch_step send_keepalive k k.watch
step watch_stops k = watch_step watch_stops k k.watch
step start_handler k = loop_step start_handler k k.loop
step end_handler k = loop_step end_handler k k.loop
step answer k = loop_step answer k k.loop
step loop_returns k = loop_step loop_returns k k.loop

abbrev then_steps : Option Keepalive → (Keepalive → Option Keepalive) → Option Keepalive
then_steps none f = none
then_steps (some k) f = f k

unfoldable pub steps : List Event → Keepalive → Option Keepalive
unfolding step
steps List.[] k = some k
steps (e ∷ es) k = then_steps (step e k) (steps es)
