-- ===== src/Daemon/Start.antt =====
-- The life of the process: `run` of daemon/cmd/wanwatchd/main.go, with its flags, and the starts of the
-- subscribers (subscribers.go). What is started in
-- the background, the subscribers' starts, systemd, and the context with its cause are one record
-- over a world `W`; the daemon's own parts are those of the other files.
pub mod Clean
use nixos_wanwatch.Prelude.{
  ◌≡◌, ◌⊎◌, inl, inr, refl, true, Option, none, some, List, String, Result, ok, err, if◌then◌else◌,
  arith, ℕ,
}
use nixos_wanwatch.Prelude.Text.{str_eq}
use nixos_wanwatch.Probe.Float.{Floats}
use nixos_wanwatch.Probe.Ident.{IdentKey, IdentError}
use nixos_wanwatch.Probe.Pinger.{Pinger}
use nixos_wanwatch.Rtnl.Event.{LinkEvent, RouteEvent}
use nixos_wanwatch.Config.Types.{Config}
use nixos_wanwatch.Daemon.{Outside, Env, Daemon, new_daemon}
use nixos_wanwatch.Daemon.Handlers.{Running}
use nixos_wanwatch.Daemon.Loop.{Message, bootstrap, prime, serve}
use nixos_wanwatch.Daemon.Probers.{start_probers}
use nixos_wanwatch.Daemon.Process.{
  Level, parse_log_level, Error, text, wrapped, is_clean_shutdown, exit_error, watched_interfaces,
}

-- What the package flag makes of the arguments: the help was asked for, an error, or the values that
-- were given.
pub data FlagValues (E : Type 0) : Type 0 where
  help_wanted : FlagValues E
  bad_flags : E → FlagValues E
  values : (config log_level : Option String) → FlagValues E

pub record Flags : Type 0 where
  pub config_path : String
  pub log_level : String

abbrev pub or_default : String → Option String → String
or_default d none = d
or_default d (some s) = s

-- `none` is ErrHelp.
unfoldable pub parse_flags : {E : Type 0} → FlagValues E → Result (Option E) Flags
parse_flags help_wanted = err none
parse_flags (bad_flags e) = err (some e)
parse_flags (values config level) = ok (record {
  config_path = or_default "/etc/wanwatch/config.json" config;
  log_level = or_default "" level;
})

-- `cmp.Or`
abbrev pub first_of : String → String → String
first_of a b = if str_eq a "" then b else a

pub record Surroundings (W E : Type 0) : Type 0 where
  pub flag_values : List String → FlagValues E
  pub load_config : String → Result E Config
  pub initial_ident : IdentKey → ℕ
  pub serve_metrics : String → W → W
  pub launch : List Pinger → W → W
  pub start_links : List String → W → Result E (List LinkEvent) × W
  pub start_routes : List String → W → Result E (List RouteEvent) × W
  pub supervise : String → W → W
  pub sd_ready : W → W
  pub cancel : Error → W → W
  pub cause : W → Option Error
  pub metrics_done : W → W
  pub error_of : E → Error
  pub ident_error : IdentError → Error

module _ {fl : Floats} {W E : Type 0} (out : Outside fl W E) (env : Surroundings W E) where
  abbrev pub Exit : Type 0
  Exit = Option Error × W

  -- `exitError`, which waits for the metrics server.
  abbrev pub finish : W → Exit
  finish w = let w' = env.metrics_done w in (exit_error (env.cause w'), w')

  abbrev pub give_up : String → Error → W → Exit
  give_up part e w = finish (env.cancel (wrapped part e) w)

  -- A subscriber's start, and the supervision of its exit.
  abbrev pub subscriber : {A : Type 0} → String → String → Result E A × W → Result Error A × W
  subscriber part what (err x, w) = (err (wrapped what (env.error_of x)), w)
  subscriber part what (ok events, w) = (ok events, env.supervise part w)

  abbrev pub start_link_subscriber : Config → W → Result Error (List LinkEvent) × W
  start_link_subscriber cfg w =
      subscriber "link subscriber" "rtnl link subscriber start"
        (env.start_links (watched_interfaces cfg) w)

  abbrev pub start_route_subscriber : Config → W → Result Error (List RouteEvent) × W
  start_route_subscriber cfg w =
      subscriber "route subscriber" "rtnl route subscriber start"
        (env.start_routes (watched_interfaces cfg) w)

  -- `messages` is what the event loop takes.
  abbrev pub served : List (Message fl) → Running out → Exit
  served messages (d, e) =
      let (_, e') = serve out messages (d, record e { world = env.sd_ready e.world }) in
      finish e'.world

  abbrev pub with_routes :
      List (Message fl) → Running out → List LinkEvent → Result Error (List RouteEvent) × W → Exit
  with_routes messages (d, e) links (err x, w) = give_up "route subscriber" x w
  with_routes messages (d, e) links (ok routes, w) =
      served messages
        (prime out (record { links = links; routes = routes }) (d, record e { world = w }))

  abbrev pub with_links : List (Message fl) → Running out → Result Error (List LinkEvent) × W → Exit
  with_links messages (d, e) (err x, w) = give_up "link subscriber" x w
  with_links messages (d, e) (ok links, w) =
      with_routes messages (d, record e { world = w }) links (start_route_subscriber d.cfg w)

  abbrev pub with_probers : List (Message fl) → Running out → Result IdentError (List Pinger) → Exit
  with_probers messages (d, e) (err x) = give_up "probers" (env.ident_error x) e.world
  with_probers messages (d, e) (ok pingers) =
      with_links messages (d, e) (start_link_subscriber d.cfg (env.launch pingers e.world))

  abbrev pub bootstrapped : List (Message fl) → Daemon fl → Option E × Env W → Exit
  bootstrapped messages d (some x, e) = give_up "bootstrap" (env.error_of x) e.world
  bootstrapped messages d (none, e) =
      with_probers messages (d, e) (start_probers env.initial_ident d.cfg)

  abbrev pub with_level : List (Message fl) → Config → W → Result String Level → Exit
  with_level messages cfg w (err name) = (some (wrapped "log-level" (text name)), w)
  with_level messages cfg w (ok level) =
      let w' = env.serve_metrics cfg.global.metrics_socket w in
      let d = new_daemon fl cfg (out.now w') in
      bootstrapped messages d (bootstrap out d (record { metrics = List.[]; world = w' }))

  abbrev pub with_config : List (Message fl) → Flags → W → Result E Config → Exit
  with_config messages f w (err e) = (some (wrapped "config" (env.error_of e)), w)
  with_config messages f w (ok cfg) =
      with_level messages cfg w (parse_log_level (first_of f.log_level cfg.global.log_level))

  abbrev pub with_flags : List (Message fl) → W → Result (Option E) Flags → Exit
  with_flags messages w (err none) = (none, w)
  with_flags messages w (err (some e)) = (some (wrapped "flags" (env.error_of e)), w)
  with_flags messages w (ok f) = with_config messages f w (env.load_config f.config_path)

  -- `none` is exit status 0.
  unfoldable pub run : List String → List (Message fl) → W → Exit
  unfolding parse_flags parse_log_level bootstrap prime serve start_probers new_daemon
  run args messages w = with_flags messages w (parse_flags (env.flag_values args))
