-- ===== src/Daemon/Watchdog/Handshake/Turns.antt =====
-- The turns of the event loop and of both sides (daemon/cmd/wanwatchd/sdnotify.go, eventloop.go).
use nixos_wanwatch.Prelude.{
  subst, ◌↔◌, if_holds, ℕ, ◌+◌, ◌≤◌, ◌≡◌, refl, Bool, true, false, Option, none, some, List, [],
  ◌∷◌, arith,
}
use nixos_wanwatch.Prelude.Int.{ℤ, pos, leb_ℤ}
use nixos_wanwatch.Daemon.Watchdog.{
  Watch, resting, offering, waiting, pinging, stopped, LoopPlace, ready, busy, answering, returned,
  Keepalive, Event, tick, take, see_ack, send_keepalive, watch_stops, start_handler, end_handler,
  answer, loop_returns, cancel, run_watchdog, loop_step, step, steps, then_steps,
}
use nixos_wanwatch.Daemon.Watchdog.Handshake.{
  IsFree, Agree, IsPaired, Keeps, at, take_step-IsPaired, watch_step-IsPaired,
}

-- What holds of the places at which the loop answers nothing is the same for all of them.
free_waiting :
    (c : ℕ) (l : LoopPlace) (k : Keepalive)
    → IsFree l
    → Agree (waiting c) l k ↔ ((k.answers ≡ k.sends + 1) × (c ≡ k.ticks))
free_waiting c (answering d) k f = elim f [ ]
free_waiting c ready k f = (λ v. v, λ v. v)
free_waiting c busy k f = (λ v. v, λ v. v)
free_waiting c returned k f = (λ v. v, λ v. v)

free_stopped :
    (l : LoopPlace) (k : Keepalive)
    → IsFree l
    → Agree stopped l k ↔ ((k.sends ≤ k.answers) × (k.answers ≤ k.sends + 1))
free_stopped (answering d) k f = elim f [ ]
free_stopped ready k f = (λ v. v, λ v. v)
free_stopped busy k f = (λ v. v, λ v. v)
free_stopped returned k f = (λ v. v, λ v. v)

-- The event loop moves between such places.
move :
    (w : Watch) (l l' : LoopPlace) (x : Bool) (n : ℕ) (a : List ℕ) (m s : ℕ)
    → IsFree l
    → IsFree l'
    → IsPaired (at w l x n a m s)
    → IsPaired (at w l' x n a m s)
move w l l' x n a m s f f' v = record { agree = of w v.agree; fresh = v.fresh; few = v.few }
  where
    of : (w : Watch) → Agree w l (at w l x n a m s) → Agree w l' (at w l' x n a m s)
    of resting v = (f', v.1)
    of (offering c) v = (f', v.1, v.2, v.3, v.4)
    of (waiting c) v =
        (free_waiting c l' (at (waiting c) l' x n a m s) f').1
          ((free_waiting c l (at (waiting c) l x n a m s) f).0 v)
    of pinging v = (f', v.1)
    of stopped v =
        (free_stopped l' (at stopped l' x n a m s) f').1
          ((free_stopped l (at stopped l x n a m s) f).0 v)

-- The answer to the challenge that was taken.
answered :
    (w : Watch) (d : ℕ) (x : Bool) (n : ℕ) (a : List ℕ) (m s : ℕ)
    → IsPaired (at w (answering d) x n a m s)
    → IsPaired (at w ready x n (d ∷ a) (m + 1) s)
answered resting d x n a m s v = ground (arith, v.agree.0)
answered (offering c) d x n a m s v = ground (arith, v.agree.0)
answered pinging d x n a m s v = ground (arith, v.agree.0)
answered (waiting c) d x n a m s v = record {
  agree = (omega (arith, v.agree.0), v.agree.2);
  fresh = λ c h. ground (arith, v.fresh c h, v.agree.3, h);
  few = omega (arith, v.agree.1);
}
answered stopped d x n a m s v = record {
  agree = (omega (arith, v.agree.0), omega (arith, v.agree.0));
  fresh = λ c h. ground (arith, v.fresh c h, v.agree.2, h);
  few = omega (arith, v.agree.1);
}

loop_step-IsPaired :
    (e : Event) (w : Watch) (l : LoopPlace) (x : Bool) (n : ℕ) (a : List ℕ) (m s : ℕ)
    → IsPaired (at w l x n a m s)
    → Keeps (loop_step e (at w l x n a m s) l)
unfolding loop_step
loop_step-IsPaired start_handler w ready x n a m s v =
    if_holds Keeps x (λ t. tt) (λ t. move w ready busy x n a m s tt tt v)
loop_step-IsPaired end_handler w busy x n a m s v = move w busy ready x n a m s tt tt v
loop_step-IsPaired answer w (answering d) x n a m s v = answered w d x n a m s v
loop_step-IsPaired loop_returns w ready x n a m s v =
    if_holds Keeps x (λ t. move w ready returned x n a m s tt tt v) (λ t. tt)
loop_step-IsPaired e w l x n a m s v = tt

cancel-IsPaired :
    (w : Watch) (l : LoopPlace) (x : Bool) (n : ℕ) (a : List ℕ) (m s : ℕ)
    → IsPaired (at w l x n a m s)
    → IsPaired (at w l true n a m s)
cancel-IsPaired w l x n a m s v = record { agree = of w l v.agree; fresh = v.fresh; few = v.few }
  where
    of :
        (w : Watch) (l : LoopPlace) → Agree w l (at w l x n a m s) → Agree w l (at w l true n a m s)
    of resting l v = v
    of (offering c) l v = v
    of (waiting c) (answering d) v = v
    of (waiting c) ready v = v
    of (waiting c) busy v = v
    of (waiting c) returned v = v
    of pinging l v = v
    of stopped (answering d) v = v
    of stopped ready v = v
    of stopped busy v = v
    of stopped returned v = v

step-IsPaired : (e : Event) (k : Keepalive) → IsPaired k → Keeps (step e k)
unfolding step
step-IsPaired take k v =
    take_step-IsPaired k.watch k.loop k.cancelled k.ticks k.acked k.answers k.sends v
step-IsPaired cancel k v =
    cancel-IsPaired k.watch k.loop k.cancelled k.ticks k.acked k.answers k.sends v
step-IsPaired tick k v =
    watch_step-IsPaired tick k.watch k.loop k.cancelled k.ticks k.acked k.answers k.sends v
step-IsPaired see_ack k v =
    watch_step-IsPaired see_ack k.watch k.loop k.cancelled k.ticks k.acked k.answers k.sends v
step-IsPaired send_keepalive k v =
    watch_step-IsPaired send_keepalive k.watch k.loop k.cancelled k.ticks k.acked k.answers k.sends
      v
step-IsPaired watch_stops k v =
    watch_step-IsPaired watch_stops k.watch k.loop k.cancelled k.ticks k.acked k.answers k.sends v
step-IsPaired start_handler k v =
    loop_step-IsPaired start_handler k.watch k.loop k.cancelled k.ticks k.acked k.answers k.sends v
step-IsPaired end_handler k v =
    loop_step-IsPaired end_handler k.watch k.loop k.cancelled k.ticks k.acked k.answers k.sends v
step-IsPaired answer k v =
    loop_step-IsPaired answer k.watch k.loop k.cancelled k.ticks k.acked k.answers k.sends v
step-IsPaired loop_returns k v =
    loop_step-IsPaired loop_returns k.watch k.loop k.cancelled k.ticks k.acked k.answers k.sends v

then-IsPaired :
    (o : Option Keepalive) (f : Keepalive → Option Keepalive)
    → ((k : Keepalive) → IsPaired k → Keeps (f k))
    → Keeps o
    → Keeps (then_steps o f)
then-IsPaired none f h v = tt
then-IsPaired (some k) f h v = h k v

steps-IsPaired : (es : List Event) (k : Keepalive) → IsPaired k → Keeps (steps es k)
unfolding steps
steps-IsPaired [] k v = v
steps-IsPaired (e ∷ es) k v =
    then-IsPaired (step e k) (steps es) (steps-IsPaired es) (step-IsPaired e k v)

start-IsPaired : (interval : ℤ) → IsPaired (run_watchdog interval)
unfolding run_watchdog
start-IsPaired interval =
    if_holds (λ w. IsPaired (at w ready false 0 [] 0 0)) (leb_ℤ interval (pos 0))
      (λ t. record { agree = (omega arith, omega arith); fresh = λ c h. refl; few = omega arith })
      (λ t. record { agree = (tt, refl); fresh = λ c h. refl; few = omega arith })

counts :
    (w : Watch) (l : LoopPlace) (x : Bool) (n : ℕ) (a : List ℕ) (m s : ℕ)
    → Agree w l (at w l x n a m s)
    → (s ≤ m) × (m ≤ s + 1)
counts resting l x n a m s v = (omega (arith, v.1), omega (arith, v.1))
counts (offering c) l x n a m s v = (omega (arith, v.1), omega (arith, v.1))
counts (waiting c) (answering d) x n a m s v = (omega (arith, v.0), omega (arith, v.0))
counts (waiting c) ready x n a m s v = (omega (arith, v.0), omega (arith, v.0))
counts (waiting c) busy x n a m s v = (omega (arith, v.0), omega (arith, v.0))
counts (waiting c) returned x n a m s v = (omega (arith, v.0), omega (arith, v.0))
counts pinging l x n a m s v = (omega (arith, v.1), omega (arith, v.1))
counts stopped (answering d) x n a m s v = (omega (arith, v.0), omega (arith, v.0))
counts stopped ready x n a m s v = v
counts stopped busy x n a m s v = v
counts stopped returned x n a m s v = v

-- However the watchdog and the event loop take turns, every WATCHDOG=1 that was sent has an answer of
-- the event loop of its own, to a challenge of its own, and at most one answer was not yet followed
-- by its send: while the event loop is stuck, at most one more keepalive goes out.
pub sends_answered :
    (interval : ℤ) (es : List Event) (k : Keepalive)
    → steps es (run_watchdog interval) ≡ some k
    → (k.sends ≤ k.answers) × (k.answers ≤ k.sends + 1) × (k.answers ≤ k.ticks)
sends_answered interval es k h =
    let v : IsPaired k =
      subst Keeps h (steps-IsPaired es (run_watchdog interval) (start-IsPaired interval)) in
    let (a, b) = counts k.watch k.loop k.cancelled k.ticks k.acked k.answers k.sends v.agree in
    (a, b, v.few)
