-- ===== src/Rtnl/Subscription.antt =====
-- `StartWith` of daemon/internal/rtnl/subscriber.go and route.go, which differ in their reads: a
-- subscription, its snapshot, and the goroutine that runs the loop. The netlink library, the snapshot
-- and the loop are parameters over a world `W`; `S` is the snapshot with what the loop goes on from.
use nixos_wanwatch.Prelude.{
  ℕ, ◌+◌, ◌≡◌, refl, ◌∙◌, Bool, Option, none, some, String, Result, ok, err, if◌then◌else◌, ap,
  if_holds, arith,
}

-- The errors of the start: of the subscription, of the snapshot, and the cancellation.
pub data StartError (E R : Type 0) : Type 0 where
  subscribe_failed : E → StartError E R
  snapshot_failed : R → StartError E R
  start_cancelled : StartError E R

-- What the goroutine reports: the end of the loop, or for a closed channel what the library reported.
pub data ExitError (E X : Type 0) : Type 0 where
  subscription_ended : String → E → ExitError E X
  loop_ended : X → ExitError E X

-- `translateSubClose`
unfoldable pub translate_sub_close :
    {E X : Type 0} → (X → Bool) → X → Option E → String → ExitError E X
translate_sub_close is_closed x none label = loop_ended x
translate_sub_close is_closed x (some cause) label =
    if is_closed x then subscription_ended label cause else loop_ended x

-- `close_done` closes `done`, and `drain` reads until the library has closed its channel. `reported`
-- is the error that the library's callback stored.
pub record Library (W E : Type 0) : Type 0 where
  pub subscribe : W → Option E × W
  pub close_done : W → W
  pub drain : W → W
  pub reported : W → Option E
  pub cancelled : W → Bool

module _ {W E R S X : Type 0} (lib : Library W E) (read_snapshot : W → Result R S × W)
    (run_loop : S → W → X × W) (is_closed : X → Bool) (label : String) where
  unfoldable pub close_and_drain : W → W
  close_and_drain w = lib.drain (lib.close_done w)

  abbrev snapped : Result R S × W → Result (StartError E R) S × W
  snapped (err e, w) = (err (snapshot_failed e), close_and_drain w)
  snapped (ok s, w) =
      let stopped = close_and_drain w in
      if lib.cancelled w then (err start_cancelled, stopped) else (ok s, w)

  abbrev subscribed : Option E × W → Result (StartError E R) S × W
  subscribed (some e, w) = (err (subscribe_failed e), lib.close_done w)
  subscribed (none, w) = snapped (read_snapshot w)

  unfoldable pub start_with : W → Result (StartError E R) S × W
  unfolding close_and_drain
  start_with w = subscribed (lib.subscribe w)

  abbrev exited : X × W → ExitError E X × W
  exited (x, w) = (translate_sub_close is_closed x (lib.reported w) label, close_and_drain w)

  -- The goroutine, from a start that succeeded.
  unfoldable pub run_to_exit : S → W → ExitError E X × W
  unfolding translate_sub_close close_and_drain
  run_to_exit s w = exited (run_loop s w)

  -- `receivers` counts the library's receivers that run, and `alive` is 1 while that of this
  -- subscription is one of them and 0 otherwise. The library promises: a subscription that succeeds
  -- starts a receiver, and one that fails starts none; a receiver ends when `done` is closed and its
  -- channel drained, and it may end before by itself, on an error; other receivers are left alone.
  pub record Counts (receivers alive : W → ℕ) : Type 0 where
    pub subscribe_starts :
        (w w' : W) → lib.subscribe w ≡ (none, w') → receivers w' ≡ receivers w + alive w'
    pub subscribe_fails :
        (w w' : W) (e : E)
        → lib.subscribe w ≡ (some e, w')
        → receivers (lib.close_done w') ≡ receivers w
    pub close_ends :
        (w : W) (n : ℕ) → receivers w ≡ n + alive w → receivers (lib.drain (lib.close_done w)) ≡ n
    pub snapshot_keeps :
        (w : W) (n : ℕ)
        → receivers w ≡ n + alive w
        → receivers (read_snapshot w).1 ≡ n + alive (read_snapshot w).1
    pub loop_keeps :
        (s : S) (w : W) (n : ℕ)
        → receivers w ≡ n + alive w
        → receivers (run_loop s w).1 ≡ n + alive (run_loop s w).1

  -- The receiver that a start leaves: none where it failed.
  abbrev pub left_by : (W → ℕ) → Result (StartError E R) S × W → ℕ
  left_by alive (err e, w) = 0
  left_by alive (ok s, w) = alive w

  module _ {receivers alive : W → ℕ} (k : Counts receivers alive) where
    snapped_counts :
        (n : ℕ) (x : Result R S × W)
        → receivers x.1 ≡ n + alive x.1
        → receivers (snapped x).1 ≡ n + left_by alive (snapped x)
    unfolding close_and_drain
    snapped_counts n (err e, w) h = omega (arith, k.close_ends w n h)
    snapped_counts n (ok s, w) h =
        if_holds (λ (x : Result (StartError E R) S × W). receivers x.1 ≡ n + left_by alive x)
          (lib.cancelled w) (λ e. omega (arith, k.close_ends w n h)) (λ e. h)

    subscribed_counts :
        (w : W) (x : Option E × W)
        → lib.subscribe w ≡ x
        → receivers (subscribed x).1 ≡ receivers w + left_by alive (subscribed x)
    subscribed_counts w (some e, w') h = omega (arith, k.subscribe_fails w w' e h)
    subscribed_counts w (none, w') h =
        snapped_counts (receivers w) (read_snapshot w')
          (k.snapshot_keeps w' (receivers w) (k.subscribe_starts w w' h))

    left_of : (x : Result (StartError E R) S × W) (s : S) → x.0 ≡ ok s → left_by alive x ≡ alive x.1
    left_of (err e, w) s h = cc
    left_of (ok t, w) s h = refl

    -- A start that fails, at the subscription, at its snapshot or by a cancellation, leaves no receiver
    -- of the library behind, and one that succeeds leaves at most its own; that is gone when the
    -- goroutine reports its end, whether the loop ended by itself or because the receiver did. A
    -- subscription starts one receiver if it succeeds and none if not, a close of `done` with the
    -- draining ends it, and otherwise it only ends by itself.
    pub start_with-receivers :
        (w : W)
        → let (r, w') = start_with w in
          (receivers w' ≡ receivers w + left_by alive (r, w'))
          × ((s : S) → r ≡ ok s → receivers (run_to_exit s w').1 ≡ receivers w)
    unfolding start_with run_to_exit close_and_drain
    start_with-receivers w =
        let (r, w') = start_with w in
        let counted : receivers w' ≡ receivers w + left_by alive (r, w') =
          subscribed_counts w (lib.subscribe w) refl in
        (
          counted,
          λ s e. k.close_ends (run_loop s w').1 (receivers w) (
              k.loop_keeps s w' (receivers w)
                (counted ∙ ap (λ n. receivers w + n) (left_of (r, w') s e))),
        )
