-- ===== src/Tests/LifeRuns.antt =====
-- The theorems on the life of the process: its start, its parts and its watchdog.
use nixos_wanwatch.Prelude.{
  if◌then◌else◌, Result, Bool, Option, ℕ, ◌+◌, ◌<◌, ◌≤◌, ◌≡◌, refl, true, false, none, some, err,
  List, [], ◌∷◌, map, String, ok, In, arith,
}
use nixos_wanwatch.Prelude.Int.{pos}
use nixos_wanwatch.Prelude.Dict.{lookup, insert}
use nixos_wanwatch.Probe.Family.{Family, v4, v6}
use nixos_wanwatch.Probe.Ident.{IdentKey, ident_space, same_ident, find_free, allocate_idents}
use nixos_wanwatch.Probe.Pinger.{Pinger}
use nixos_wanwatch.Rtnl.Subscription.{
  left_by, Library, Counts, start_with, run_to_exit, start_with-receivers,
}
use nixos_wanwatch.Metrics.{registry, is_distinct}
use nixos_wanwatch.Daemon.Process.{Error, text, wrapped, parse_log_level, exit_error}
use nixos_wanwatch.Daemon.Probers.{start_probers, pinger_of, ident_keys_for}
use nixos_wanwatch.Daemon.Probers.Started.{start_probers_lem}
use nixos_wanwatch.Daemon.Start.{values, Surroundings, run}
use nixos_wanwatch.Daemon.Start.Clean.{faulted, progress}
use nixos_wanwatch.Daemon.Watchdog.{
  Keepalive, Event, tick, take, answer, see_ack, send_keepalive, start_handler, run_watchdog, steps,
  resting, busy,
}
use nixos_wanwatch.Daemon.Watchdog.Handshake.Turns.{sends_answered}
use nixos_wanwatch.Tests.ConfigRuns.{config}
use nixos_wanwatch.Rtnl.Event.{LinkEvent}
use nixos_wanwatch.Daemon.{Outside, new_daemon}
use nixos_wanwatch.Daemon.Loop.{bootstrap}
use nixos_wanwatch.Tests.HealthRuns.{counts}

-- No name is registered twice, so that `MustRegister` does not panic.
all_registered : is_distinct registry ≡ true
unfolding is_distinct
all_registered = refl

-- One keepalive goes out before the event loop is stuck in a handler.
abbrev turns : List Event
turns = tick ∷ take ∷ answer ∷ see_ack ∷ send_keepalive ∷ start_handler ∷ []

abbrev stuck : Keepalive
stuck = record {
  watch = resting;
  loop = busy;
  cancelled = false;
  ticks = 1;
  acked = 1 ∷ [];
  answers = 1;
  sends = 1;
}

gets_stuck : steps turns (run_watchdog (pos 500)) ≡ some stuck
unfolding steps run_watchdog
gets_stuck = refl

sends_answered_example :
    (stuck.sends ≤ stuck.answers)
    × (stuck.answers ≤ stuck.sends + 1)
    × (stuck.answers ≤ stuck.ticks)
sends_answered_example = sends_answered (pos 500) turns stuck gets_stuck

abbrev key : Family → IdentKey
key fam = record { wan = "primary"; family = fam }

abbrev first_ident : IdentKey → ℕ
first_ident k = 0

abbrev alive : ℕ × Bool → ℕ
alive w = if w.1 then 1 else 0

abbrev running : ℕ × Bool → ℕ
running w = w.0 + alive w

-- The world is the number of other receivers and whether the subscription's own runs. That ends by
-- itself, on an error, while the loop runs.
abbrev library : Library (ℕ × Bool) String
library = record {
  subscribe = λ w. (none, (running w, true));
  close_done = λ w. w;
  drain = λ w. (w.0, false);
  reported = λ w. some "ENOBUFS";
  cancelled = λ w. false;
}

abbrev dump : ℕ × Bool → Result String ℕ × (ℕ × Bool)
dump w = (ok 7, w)

abbrev loop : ℕ → ℕ × Bool → ℕ × (ℕ × Bool)
loop s w = (s, (w.0, false))

library-Counts : Counts {R = String} {X = ℕ} library dump loop (λ x. true) "link" running alive
library-Counts = record {
  subscribe_starts = λ w w' h. ground (arith, h);
  subscribe_fails = λ w w' e h. ground (arith, h);
  close_ends = λ w n h. omega (arith, h);
  snapshot_keeps = λ w n h. h;
  loop_keeps = λ s w n h. omega (arith, h);
}

abbrev idle : ℕ × Bool
idle = (2, false)

start_with_example :
    let (r, w') = start_with {R = String} {X = ℕ} library dump loop (λ x. true) "link" idle in
    (running w'
      ≡ running idle
        + left_by {R = String} {X = ℕ} library dump loop (λ x. true) "link" alive (r, w'))
    × ((s : ℕ)
        → r ≡ ok s
        → running (run_to_exit {R = String} library dump loop (λ x. true) "link" s w').1
          ≡ running idle)
start_with_example = start_with-receivers library dump loop (λ x. true) "link" library-Counts idle

started :
    start_probers first_ident config
    ≡ ok (map (pinger_of config ((key v4, 0) ∷ (key v6, 1) ∷ [])) (ident_keys_for config))
unfolding start_probers pinger_of ident_keys_for allocate_idents lookup find_free insert same_ident
started = refl

start_probers_example :
    let ps = map (pinger_of config ((key v4, 0) ∷ (key v6, 1) ∷ [])) (ident_keys_for config) in
    ((p q : Pinger)
      → In p ps
      → In q ps
      → p.ident ≡ q.ident
      → (p.wan ≡ q.wan) × (p.family ≡ q.family))
    × ((p : Pinger) → In p ps → p.ident < ident_space)
start_probers_example = start_probers_lem first_ident config started

-- The world is the cause of the context.
abbrev outside : Outside counts (Option Error) String
outside = record {
  ensure_rule = λ r w. (0, none, w);
  if_index = λ name w. (ok (pos 3), w);
  write_route = λ r w. (none, w);
  interface_addrs = λ name w. (ok [], w);
  flush_conntrack = λ fam ip w. (none, w);
  notify = λ h w. (true, w);
  close_hooks = λ w. w;
  write_state = λ s w. (none, w);
  cancelled = λ w. false;
  now = λ w. 0;
  version = "1.0";
  is_v4 = λ bytes. true;
  equal_ip = λ a b. false;
  ip_text = λ bytes. "192.0.2.1";
  itoa = λ n. "0";
}

-- The context keeps its first cause; `links` is how the link subscriber starts.
abbrev surroundings : Result String (List LinkEvent) → Surroundings (Option Error) String
surroundings links = record {
  flag_values = λ args. values none (some "debug");
  load_config = λ path. ok config;
  initial_ident = first_ident;
  serve_metrics = λ socket w. w;
  launch = λ ps w. w;
  start_links = λ names w. (links, w);
  start_routes = λ names w. (ok [], w);
  supervise = λ part w. w;
  sd_ready = λ w. w;
  cancel = λ e w. elim w [ none ↦ some e | some c ↦ some c ];
  cause = λ w. w;
  metrics_done = λ w. w;
  error_of = λ e. text e;
  ident_error = λ e. text "idents";
}

-- The links cannot be subscribed to.
abbrev no_links : Result String (List LinkEvent)
no_links = err "no netlink"

abbrev fault : Error
fault = wrapped "link subscriber" (wrapped "rtnl link subscriber start" (text "no netlink"))

faults : progress outside (surroundings no_links) [] none ≡ faulted fault none
unfolding new_daemon bootstrap start_probers pinger_of ident_keys_for allocate_idents lookup
    find_free insert same_ident parse_log_level
faults = refl

fails : (run outside (surroundings no_links) [] [] none).0 ≡ some (wrapped "daemon stopped" fault)
unfolding run new_daemon bootstrap find_free insert same_ident exit_error
fails = refl
