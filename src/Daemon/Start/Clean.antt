-- ===== src/Daemon/Start/Clean.antt =====
-- With which cause the process exits with status 0 (daemon/cmd/wanwatchd/main.go).
use nixos_wanwatch.Prelude.{◌≡◌, ◌≢◌, ◌↔◌, true, Option, none, some, List, String, Result, ok, err}
use nixos_wanwatch.Probe.Float.{Floats}
use nixos_wanwatch.Probe.Ident.{IdentError}
use nixos_wanwatch.Probe.Pinger.{Pinger}
use nixos_wanwatch.Rtnl.Event.{LinkEvent, RouteEvent}
use nixos_wanwatch.Config.Types.{Config}
use nixos_wanwatch.Daemon.{Outside, Env, Daemon, new_daemon}
use nixos_wanwatch.Daemon.Loop.{bootstrap}
use nixos_wanwatch.Daemon.Probers.{start_probers}
use nixos_wanwatch.Daemon.Process.{Level, parse_log_level, Error, wrapped, is_clean_shutdown}
use nixos_wanwatch.Daemon.Start.{
  FlagValues, help_wanted, bad_flags, values, or_default, first_of, Surroundings, Exit,
  start_link_subscriber, start_route_subscriber,
}

module _ {fl : Floats} {W E : Type 0} (out : Outside fl W E) (env : Surroundings W E) where
  -- What is documented of `context.WithCancelCause`: a cancel records its cause where none is, and the
  -- first cause stays.
  pub record Records : Type 0 where
    pub cancel_first :
        (e : Error) (w : W) → env.cause w ≡ none → env.cause (env.cancel e w) ≡ some e
    pub cancel_keeps :
        (e c : Error) (w : W) → env.cause w ≡ some c → env.cause (env.cancel e w) ≡ some c
    pub wait_keeps :
        (c : Error) (w : W) → env.cause w ≡ some c → env.cause (env.metrics_done w) ≡ some c

  -- How far the start comes: the help is asked for, nothing is started, a part cannot be started, or
  -- all parts are.
  pub data Progress : Type 0 where
    asked refused complete : Progress
    faulted : Error → W → Progress

  -- The faults of the parts, in their order.
  abbrev routes_fault : Result Error (List RouteEvent) × W → Progress
  routes_fault (err x, w) = faulted (wrapped "route subscriber" x) w
  routes_fault (ok _, w) = complete

  abbrev links_fault : Config → Result Error (List LinkEvent) × W → Progress
  links_fault cfg (err x, w) = faulted (wrapped "link subscriber" x) w
  links_fault cfg (ok _, w) = routes_fault (start_route_subscriber out env cfg w)

  abbrev probers_fault : Config → W → Result IdentError (List Pinger) → Progress
  probers_fault cfg w (err x) = faulted (wrapped "probers" (env.ident_error x)) w
  probers_fault cfg w (ok pingers) =
      links_fault cfg (start_link_subscriber out env cfg (env.launch pingers w))

  abbrev bootstrap_fault : Config → Option E × Env W → Progress
  bootstrap_fault cfg (some x, e) = faulted (wrapped "bootstrap" (env.error_of x)) e.world
  bootstrap_fault cfg (none, e) = probers_fault cfg e.world (start_probers env.initial_ident cfg)

  abbrev level_fault : Config → W → Result String Level → Progress
  level_fault cfg w (err name) = refused
  level_fault cfg w (ok level) =
      let w' = env.serve_metrics cfg.global.metrics_socket w in
      bootstrap_fault cfg
        (bootstrap out (new_daemon fl cfg (out.now w')) (record { metrics = List.[]; world = w' }))

  abbrev config_fault : String → W → Result E Config → Progress
  config_fault level w (err e) = refused
  config_fault level w (ok cfg) =
      level_fault cfg w (parse_log_level (first_of level cfg.global.log_level))

  abbrev flags_fault : W → FlagValues E → Progress
  flags_fault w help_wanted = asked
  flags_fault w (bad_flags e) = refused
  flags_fault w (values config level) =
      config_fault (or_default "" level) w
        (env.load_config (or_default "/etc/wanwatch/config.json" config))

  abbrev pub progress : List String → W → Progress
  progress args w = flags_fault w (env.flag_values args)

  -- The cause that stands where a fault finds one, else the fault.
  abbrev pub first : Error → Option Error → Error
  first e none = e
  first e (some c) = c

  -- The exit status by how far the start came; `none` is status 0.
  abbrev pub Exits : Progress → Exit out env → Type 0
  Exits asked x = x.0 ≡ none
  Exits refused x = x.0 ≢ none
  Exits (faulted e w) x = (x.0 ≡ none) ↔ (is_clean_shutdown (some (first e (env.cause w))) ≡ true)
  Exits complete x = (x.0 ≡ none) ↔ (is_clean_shutdown (env.cause x.1) ≡ true)
