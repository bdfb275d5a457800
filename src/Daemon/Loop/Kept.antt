-- ===== src/Daemon/Loop/Kept.antt =====
-- The daemon's Groups over any messages (daemon/cmd/wanwatchd/daemon.go, eventloop.go).
use text.Mathlib.TextEquality.{eq_iff}
use mathlib.Core.Option as Option
use nixos_wanwatch.Prelude.{
  ℕ, ◌≡◌, refl, sym, ◌∙◌, subst, true, Option, none, some, List, [], ◌∷◌, String, All, arith,
}
use nixos_wanwatch.Prelude.Dict.{lookup, lookup-map}
use nixos_wanwatch.Prelude.Text.{str_eq}
use nixos_wanwatch.Probe.Float.{Floats}
use nixos_wanwatch.Selector
use nixos_wanwatch.Config.Types.{Config}
use nixos_wanwatch.Health.Wans as Wans
use nixos_wanwatch.Health.Wans.{ProbeResult}
use nixos_wanwatch.Decision
use nixos_wanwatch.Decision.{new_group}
use nixos_wanwatch.Decision.Steps.{new_group-IsValid}
use nixos_wanwatch.Daemon.{Outside, Env, Daemon, GatewayCache, new_daemon}
use nixos_wanwatch.Daemon.Handlers.{Running}
use nixos_wanwatch.Daemon.Handlers.Kept.{Kept, IsKept, ask-IsKept, own-IsKept}
use nixos_wanwatch.Daemon.Loop.Holds.{event_loop-Holds, prime-Holds}
use nixos_wanwatch.Daemon.Loop.{
  Message, challenge, probe_result, link_event, route_event, StartupSnapshot, event_loop, prime,
  serve,
}

-- Health and the gateways have no part in it.
pub observed-IsKept :
    {fl : Floats} (d : Daemon fl) (h : Wans.Wans fl) (c : GatewayCache)
    → IsKept d
    → IsKept (record d { health = h; gateways = c })
observed-IsKept d h c v = record {
  named = v.named;
  kept = λ name gr e.
      let k = v.kept name gr e in
      record { own = k.own; same_name = k.same_name; valid = k.valid; waits = k.waits };
}

named_at :
    (name : String) (g : Selector.Group) (m : List (String × Selector.Group))
    → All (λ e. e.1.name ≡ e.0) m
    → lookup str_eq name m ≡ some g
    → g.name ≡ name
unfolding lookup
named_at name g [] a h = ground arith
named_at name g ((j, x) ∷ m) a h = ground (arith, eq_iff j name, named_at name g m)

new_cfg : (cfg : Selector.Group) → (new_group cfg).cfg ≡ cfg
unfolding new_group
new_cfg cfg = refl

new_group-Kept :
    (fl : Floats) (cfg : Config) (started : ℕ) (name : String) (g : Selector.Group)
    → All (λ e. e.1.name ≡ e.0) cfg.groups
    → lookup str_eq name cfg.groups ≡ some g
    → Kept (new_daemon fl cfg started) name (new_group g)
unfolding new_daemon new_group lookup
new_group-Kept fl cfg started name g a h = record {
  own = h;
  same_name = named_at name g cfg.groups a h;
  valid = new_group-IsValid g;
  waits = tt;
}

new_group-Kept_at :
    (fl : Floats) (cfg : Config) (started : ℕ) (name : String) (gr : Decision.Group)
    (o : Option Selector.Group)
    → All (λ e. e.1.name ≡ e.0) cfg.groups
    → lookup str_eq name cfg.groups ≡ o
    → Option.map new_group o ≡ some gr
    → Kept (new_daemon fl cfg started) name gr
new_group-Kept_at fl cfg started name gr none a h e = ground arith
new_group-Kept_at fl cfg started name gr (some g) a h e =
    subst (Kept (new_daemon fl cfg started) name) (ground (arith, e))
      (new_group-Kept fl cfg started name g a h)

pub new_daemon-IsKept :
    (fl : Floats) (cfg : Config) (started : ℕ)
    → All (λ e. e.1.name ≡ e.0) cfg.groups
    → IsKept (new_daemon fl cfg started)
unfolding new_daemon
new_daemon-IsKept fl cfg started a = record {
  named = a;
  kept = λ name gr e.
      new_group-Kept_at fl cfg started name gr (lookup str_eq name cfg.groups) a refl
        (sym (lookup-map str_eq new_group name cfg.groups) ∙ e);
}

module _ {fl : Floats} {W E : Type 0} (out : Outside fl W E) where
  abbrev May : String × Selector.Group → Type 0
  May e = e.1.name ≡ e.0

  abbrev Holds : Running out → Type 0
  Holds s = IsKept s.0

  -- From start-up on, after any messages and whatever the kernel, the Hooks and the State file do, each
  -- Group of the daemon runs on its own configuration, is valid, and keeps a vacated WAN only while it
  -- has no Selection. The Groups of the configuration stand under their names, as Parse leaves them.
  pub serve-IsKept :
      (cfg : Config) (started : ℕ) (snapshot : StartupSnapshot) (ms : List (Message fl))
      (env : Env W)
      → All (λ e. e.1.name ≡ e.0) cfg.groups
      → IsKept (serve out ms (prime out snapshot (new_daemon fl cfg started, env))).0
  unfolding serve
  serve-IsKept cfg started snapshot ms env a =
      event_loop-Holds out Holds May (λ d env v. v.named) (ask-IsKept out) (own-IsKept out)
        (λ d env v. v) (λ d env h c v. observed-IsKept d h c v) ms
        (prime out snapshot (new_daemon fl cfg started, env))
        (prime-Holds out Holds May (λ d env v. v.named) (ask-IsKept out) (own-IsKept out)
          (λ d env v. v) (λ d env h c v. observed-IsKept d h c v) snapshot
          (new_daemon fl cfg started, env) (new_daemon-IsKept fl cfg started a))

  -- A message that is taken after the context was cancelled is dropped: nothing is decided, written or
  -- published by it or by any after it.
  pub event_loop_cancelled :
      (ms : List (Message fl)) (d : Daemon fl) (env : Env W)
      → out.cancelled env.world ≡ true
      → event_loop out ms (d, env) ≡ (d, env)
  unfolding event_loop
  event_loop_cancelled [] d env h = refl
  event_loop_cancelled (challenge ∷ ms) d env h = event_loop_cancelled ms d env h
  event_loop_cancelled (probe_result r ∷ ms) d env h = ground arith
  event_loop_cancelled (link_event e ∷ ms) d env h = ground arith
  event_loop_cancelled (route_event e ∷ ms) d env h = ground arith
