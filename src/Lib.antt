-- ===== src/Lib.antt =====
-- nixos-wanwatch: a verification of the daemon's core logic.
--
-- The daemon (daemon/) probes each WAN's Targets, folds probe results and link events into WAN
-- Health, lets each Group select a WAN among its healthy Members, and applies the Selection to the
-- kernel's routing tables. One event loop owns the state, so an execution is a sequence of calls.
--
-- The parts, with the file or folder of this library that models each:
-- * Probe/Window (daemon/internal/probe/stats.go): WindowStats as a record with its buffer, head and
--   filled flag; `new_window`, `push`, `len`, `for_each`, `loss_counts`, `mean_rtt` and, in
--   Probe/Window/Jitter, `jitter_micros` are NewWindow and the methods of the same names. The
--   callback of forEach gets its captured variables as an accumulator.
-- * Probe/Aggregate (daemon/internal/probe/result.go): `aggregate` is Aggregate. big.Rat is an
--   unreduced fraction (Probe/Float), and float64, which is only reported, is a parameter `Floats`.
-- * Probe/Icmp (daemon/internal/probe/icmp.go): the bytes of echo messages and their checksum.
--   Bytes are numbers; uint32 sums wrap at 2 ^ 32. The carry loop runs on `carry_rounds` = 2 rounds
--   of fuel, which are enough for every 32-bit sum.
-- * Probe/Ident (daemon/internal/probe/ident.go): `allocate_idents` is AllocateIdents, with the two
--   maps passed along; the SHA-256 start is a parameter. The search has 65536 offsets, the bound of
--   the source's loop.
-- * Health/Hysteresis (daemon/internal/health/hysteresis.go): `new_hysteresis`, `observe`, `seed`.
-- * Health/Thresholds (daemon/internal/health/health.go): `evaluate_thresholds` and its helpers.
-- * Health/Wans (daemon/internal/health/health.go): the WANs and their Families; `new_wans`, `probe`,
--   `healthy_wan` and `member_health` are New, Probe, Healthy and MemberHealth, and `link` of
--   Health/Wans/Links is Link. The entries of Go's map are pointers: an update writes the new WAN
--   under its key.
-- * Selector (daemon/internal/selector): the Strategies and primaryBackup.
-- * Decision (daemon/internal/decision/group.go): a Group, with the injected ApplyRoutes and clock as
--   parameters over a world `W`; `recompute`, `probe` and `route_observed` are the methods that the
--   daemon calls.
-- * Config/Types, Config/Validate and Config/Load (daemon/internal/config/config.go): the structs,
--   Validate, and Load with Parse; the read of the file, the JSON decoder and net/netip are parameters.
-- * Rtnl (daemon/internal/rtnl): the events, the retry of an interrupted dump (Rtnl/Dump, at most 4
--   attempts, as in the source), from route messages to one default per interface and Family
--   (Rtnl/Route; the snapshot and the loop are Rtnl/Route/Loop), and from link messages to the changes
--   of the watched links (Rtnl/Links, for subscriber.go). Rtnl/Subscription is StartWith of both
--   subscribers and the goroutine that it starts. The package net and the netlink library are
--   parameters.
-- * Apply (daemon/internal/apply): Apply.antt models apply.go, Apply/Route the writing of default
--   routes, Apply/Rule the ensuring of one fwmark rule and Apply/Conntrack the flush of a vacated
--   WAN's flows (at most 2 dumps, as in the source), over the netlink calls as parameters.
-- * Probe/Pinger and Probe/Socket (daemon/internal/probe/pinger.go, socket.go): `cycle` is one cycle
--   of a Pinger as the samples that it pushes; what ReadFrom returns until it fails is a list, so
--   the read loop needs no fuel. `open_socket`, `recheck` and `close` are the methods of socket,
--   Probe/Dial is dialICMPVia and bindToDevice, and Probe/Pinger/Run is run, over the list of what
--   happens before each tick, so the loop needs no fuel either.
-- * Health/Wans/Snapshot (daemon/internal/health/health.go): `snapshot` is Snapshot.
-- * State (daemon/internal/state): State.antt has the published data, State/Writer the atomic write of
--   the State file (state.go), State/Hooks the running of Hooks, their capped output and their
--   environment (hooks.go), and State/Notifier the queue before them (notifications.go).
-- * Daemon (daemon/cmd/wanwatchd): Daemon.antt has the struct daemon (daemon.go) and, as one record
--   `Outside` over a world `W`, the kernel, the Hooks, the State file, the context and the clock.
--   Daemon/Gateways is the gateway cache (gateway.go), Daemon/Routes applyRoutes, Daemon/Publish
--   publishDecision and what it calls, Daemon/Handlers the handlers of probe results, link events and
--   route events, Daemon/Loop bootstrap, prime and the event loop (eventloop.go), which handles a
--   list of messages in the order in which `select` takes them, and Daemon/Process the supervision
--   of the parts and the exit status (main.go). The handlers call the Groups of Decision with
--   applyRoutes as their Apply, and the WANs of Health. Daemon/Start is `run` (main.go) with its flags
--   and the starts of the subscribers (subscribers.go), Daemon/Probers the Pingers that it starts
--   (probers.go), Daemon/Kernel the kernel over netlink by the operations of Apply (kernel.go,
--   helpers.go), and Daemon/Watchdog the notification of systemd and, as steps that the two goroutines
--   take in any order, the handshake of runWatchdog with the event loop (sdnotify.go). Daemon/World,
--   the files World below Decision, Apply and Daemon, Daemon/Loop/Tables and Daemon/Kernel/Sound follow
--   what the daemon does to the world.
-- * Metrics (daemon/internal/metrics): the metrics that are registered, and in Metrics/Server Serve.
-- * Prelude (no source): shared helpers, lists over native numbers, `int` as an integer whose
--   increment wraps, texts, maps, sorting. Tests: runs of the theorems at concrete values.
--
-- Conventions. A Go map is an association list in an order in which Go may visit it. A nil pointer, a
-- NaN gauge and an `ok` result of false are `none`. Metrics that are set or raised are recorded in the
-- state that writes them. Errors are values that keep what the message names. Indices and lengths of
-- slices are natural numbers, since slices fit in memory.
--
-- Not modelled: logging; signals; the scheduling of goroutines beyond the orders that a list of
-- messages, ticks or steps stands for; deadlines; the JSON decoder and encoder; the netlink library and
-- the bytes of its requests, among them those of the filtered conntrack deletion; the attributes of
-- Hook processes; the Prometheus library and its handler; time stamps of events and results. They are
-- input and output or third-party code. What the modelled code uses of them is a parameter.
pub mod Prelude
pub mod Probe
pub mod Health
pub mod Selector
pub mod Decision
pub mod State
pub mod Rtnl
pub mod Apply
pub mod Daemon
pub mod Metrics
pub mod Config
pub mod Tests
