-- ===== src/Daemon/Watchdog/Handshake.antt =====
-- The watchdog's sends against the answers of the event loop (daemon/cmd/wanwatchd/sdnotify.go).
pub mod Turns
use nixos_wanwatch.Prelude.{
  subst, ◌↔◌, if_holds, ℕ, ◌+◌, ◌≤◌, ◌<◌, ◌≡◌, refl, Bool, true, false, Option, none, some, List,
  [], ◌∷◌, if◌then◌else◌, ◌==◌, ==_iff, any, arith, ◌⊎◌, inl, inr,
}
use nixos_wanwatch.Prelude.Int.{ℤ, pos, leb_ℤ}
use nixos_wanwatch.Daemon.Watchdog.{
  Watch, resting, offering, waiting, pinging, stopped, LoopPlace, ready, busy, answering, returned,
  Keepalive, Event, tick, take, see_ack, send_keepalive, watch_stops, start_handler, end_handler,
  answer, loop_returns, cancel, run_watchdog, watch_step, loop_step, take_step, step, steps,
  then_steps,
}

abbrev acked_by : ℕ → List ℕ → Bool
acked_by c = any (λ a. a == c)

-- The loop answers nothing.
abbrev IsFree : LoopPlace → Type 0
IsFree (answering c) = ⊥
IsFree _ = Unit

-- What the places say of the counts: the open answer is to the last challenge, and each answer is
-- good for one send.
abbrev Agree : Watch → LoopPlace → Keepalive → Type 0
Agree resting l k = IsFree l × (k.answers ≡ k.sends)
Agree (offering c) l k =
    IsFree l
    × (k.answers ≡ k.sends)
    × (k.answers < k.ticks)
    × (c ≡ k.ticks)
    × (acked_by c k.acked ≡ false)
Agree (waiting c) (answering d) k =
    (k.answers ≡ k.sends)
    × (k.answers < k.ticks)
    × (c ≡ k.ticks)
    × (d ≡ k.ticks)
    × (acked_by c k.acked ≡ false)
Agree (waiting c) l k = (k.answers ≡ k.sends + 1) × (c ≡ k.ticks)
Agree pinging l k = IsFree l × (k.answers ≡ k.sends + 1)
Agree stopped (answering d) k = (k.answers ≡ k.sends) × (k.answers < k.ticks) × (d ≡ k.ticks)
Agree stopped l k = (k.sends ≤ k.answers) × (k.answers ≤ k.sends + 1)

record IsPaired (k : Keepalive) : Type 0 where
  agree : Agree k.watch k.loop k
  fresh : (c : ℕ) → k.ticks < c → acked_by c k.acked ≡ false
  few : k.answers ≤ k.ticks

-- What holds of the state after a step, if it can be taken.
abbrev Keeps : Option Keepalive → Type 0
Keeps none = Unit
Keeps (some k) = IsPaired k

abbrev at : Watch → LoopPlace → Bool → ℕ → List ℕ → ℕ → ℕ → Keepalive
at w l x n a m s = record {
  watch = w;
  loop = l;
  cancelled = x;
  ticks = n;
  acked = a;
  answers = m;
  sends = s;
}

take_step-IsPaired :
    (w : Watch) (l : LoopPlace) (x : Bool) (n : ℕ) (a : List ℕ) (m s : ℕ)
    → IsPaired (at w l x n a m s)
    → Keeps (take_step (at w l x n a m s) w l)
unfolding take_step
take_step-IsPaired (offering c) ready x n a m s v = record {
  agree = (v.agree.1, v.agree.2, v.agree.3, v.agree.3, v.agree.4);
  fresh = v.fresh;
  few = v.few;
}
take_step-IsPaired w l x n a m s v = tt

-- The watchdog may stop where it waits for something.
stop_resting :
    (l : LoopPlace) (x : Bool) (n : ℕ) (a : List ℕ) (m s : ℕ)
    → IsPaired (at resting l x n a m s)
    → IsPaired (at stopped l x n a m s)
stop_resting l x n a m s v = record {
  agree = of l v.agree.0 v.agree.1;
  fresh = v.fresh;
  few = v.few;
}
  where
    of : (l : LoopPlace) → IsFree l → m ≡ s → Agree stopped l (at stopped l x n a m s)
    of (answering d) f e = elim f [ ]
    of ready f e = (omega (arith, e), omega (arith, e))
    of busy f e = (omega (arith, e), omega (arith, e))
    of returned f e = (omega (arith, e), omega (arith, e))

stop_waiting :
    (c : ℕ) (l : LoopPlace) (x : Bool) (n : ℕ) (a : List ℕ) (m s : ℕ)
    → IsPaired (at (waiting c) l x n a m s)
    → IsPaired (at stopped l x n a m s)
stop_waiting c l x n a m s v = record { agree = of l v.agree; fresh = v.fresh; few = v.few }
  where
    of :
        (l : LoopPlace)
        → Agree (waiting c) l (at (waiting c) l x n a m s)
        → Agree stopped l (at stopped l x n a m s)
    of (answering d) (e, f, g, h, i) = (e, f, h)
    of ready (e, f) = (omega (arith, e), omega (arith, e))
    of busy (e, f) = (omega (arith, e), omega (arith, e))
    of returned (e, f) = (omega (arith, e), omega (arith, e))

-- Only an answered challenge shows as answered.
seen :
    (c : ℕ) (l : LoopPlace) (x : Bool) (n : ℕ) (a : List ℕ) (m s : ℕ)
    → acked_by c a ≡ true
    → IsPaired (at (waiting c) l x n a m s)
    → IsPaired (at pinging l x n a m s)
seen c l x n a m s t v = record { agree = of l v.agree; fresh = v.fresh; few = v.few }
  where
    of : (l : LoopPlace) → Agree (waiting c) l (at (waiting c) l x n a m s) → IsFree l × (m ≡ s + 1)
    of (answering d) (e, f, g, h, i) = ground (arith, t, i)
    of ready (e, f) = (tt, e)
    of busy (e, f) = (tt, e)
    of returned (e, f) = (tt, e)

watch_step-IsPaired :
    (e : Event) (w : Watch) (l : LoopPlace) (x : Bool) (n : ℕ) (a : List ℕ) (m s : ℕ)
    → IsPaired (at w l x n a m s)
    → Keeps (watch_step e (at w l x n a m s) w)
unfolding watch_step
watch_step-IsPaired tick resting l x n a m s v = record {
  agree = (v.agree.0, v.agree.1, omega (arith, v.few), refl, v.fresh (n + 1) (omega arith));
  fresh = λ c h. v.fresh c (omega (arith, h));
  few = omega (arith, v.few);
}
watch_step-IsPaired see_ack (waiting c) l x n a m s v =
    if_holds Keeps (acked_by c a) (λ t. seen c l x n a m s t v) (λ t. tt)
watch_step-IsPaired send_keepalive pinging l x n a m s v = record {
  agree = (v.agree.0, v.agree.1);
  fresh = v.fresh;
  few = v.few;
}
watch_step-IsPaired watch_stops resting l x n a m s v =
    if_holds Keeps x (λ t. stop_resting l x n a m s v) (λ t. tt)
watch_step-IsPaired watch_stops (offering c) l x n a m s v =
    if_holds Keeps x
      (λ t.
        stop_resting l x n a m s
          (record { agree = (v.agree.0, v.agree.1); fresh = v.fresh; few = v.few }))
      (λ t. tt)
watch_step-IsPaired watch_stops (waiting c) l x n a m s v =
    if_holds Keeps x (λ t. stop_waiting c l x n a m s v) (λ t. tt)
watch_step-IsPaired e w l x n a m s v = tt
