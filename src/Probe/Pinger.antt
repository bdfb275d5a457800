-- ===== src/Probe/Pinger.antt =====
-- daemon/internal/probe/pinger.go: one cycle of probes, as the samples that it pushes. The connection
-- is a parameter over a world `W`; what `ReadFrom` returns until it fails is a list.
pub mod Samples
pub mod Cycle
pub mod Run
use nixos_wanwatch.Prelude.{
  ℕ, ◌+◌, ◌-◌, ◌%◌, ◌≡◌, Bool, true, false, not, ◌&&◌, ◌||◌, Option, none, some, List, [], ◌∷◌,
  ◌++◌, map, String, ◌==◌, Result, ok, err, ◌>>◌, ◌>>=◌, refuse_if, if◌then◌else◌,
}
use nixos_wanwatch.Prelude.Int.{ℤ}
use nixos_wanwatch.Prelude.Dict.{lookup, insert, delete}
use nixos_wanwatch.Prelude.Text.{str_eq}
use nixos_wanwatch.Probe.Family.{Family, v4, v6, eq_family}
use nixos_wanwatch.Probe.Icmp.{ReplyError, echo_request_bytes, parse_echo_reply}
use nixos_wanwatch.Probe.Window.{Sample, WindowStats, push}
use nixos_wanwatch.Rtnl.Event.{Ip}

pub record Pinger : Type 0 where
  pub wan : String
  pub family : Family
  pub interface : String
  pub targets : List String
  pub ident : ℕ
  pub interval : ℤ  -- in nanoseconds, as the next
  pub timeout : ℤ
  pub window_size : ℤ

pub record Pending : Type 0 where
  pub target : String
  pub sent : ℕ  -- in microseconds

abbrev pub Inflight : Type 0
Inflight = List (ℕ × Pending)

abbrev pub eq_seq : ℕ → ℕ → Bool
eq_seq a b = a == b

-- A Sample for the window of a Target.
abbrev pub Push : Type 0
Push = String × Sample

abbrev pub lost_sample : Sample
lost_sample = record { rtt_micros = 0; lost = true }

-- `seq++` on a uint16
abbrev pub next_seq : ℕ → ℕ
next_seq seq = (seq + 1) % 65_536

-- `recordLoss`
unfoldable pub record_loss : Inflight → List Push
record_loss = map (λ e. (e.1.target, lost_sample))

-- A datagram that was read, and the time when it is handled.
pub record Datagram : Type 0 where
  pub bytes : List ℕ
  pub at : ℕ

abbrev matched : Datagram → ℕ → Inflight → Option Pending → Inflight × List Push
matched d seq inflight none = (inflight, [])
matched d seq inflight (some p) = (
  delete eq_seq seq inflight,
  (p.target, record { rtt_micros = d.at - p.sent; lost = false }) ∷ [],
)

abbrev parsed : Pinger → Datagram → Inflight → Result ReplyError (ℕ × ℕ) → Inflight × List Push
parsed p d inflight (err e) = (inflight, [])
parsed p d inflight (ok (ident, seq)) =
    if ident == p.ident then matched d seq inflight (lookup eq_seq seq inflight) else (inflight, [])

-- One turn of the read loop.
unfoldable pub receive : Pinger → Inflight → Datagram → Inflight × List Push
unfolding parse_echo_reply lookup delete
receive p inflight d = parsed p d inflight (parse_echo_reply p.family d.bytes)

abbrev pub is_empty : Inflight → Bool
is_empty [] = true
is_empty (_ ∷ _) = false

-- The read loop until nothing is in flight or a read fails, which is the end of the list.
unfoldable pub read_loop : Pinger → Inflight → List Datagram → Inflight × List Push
unfolding receive
read_loop p inflight [] = (inflight, [])
read_loop p inflight (d ∷ ds) =
    let (inflight', pushes) = receive p inflight d in
    let (left, later) = read_loop p inflight' ds in
    if is_empty inflight then (inflight, []) else (left, pushes ++ later)

-- What the send loop leaves: the next sequence number, the probes in flight, the samples pushed and
-- whether a send failed.
pub record Sent (W : Type 0) : Type 0 where
  pub seq : ℕ
  pub inflight : Inflight
  pub pushes : List Push
  pub failed : Bool
  pub world : W

-- A failed send: a lost Sample at once.
abbrev pub missed : {W : Type 0} → String → Sent W → W → Sent W
missed target s w = record {
  seq = next_seq s.seq;
  inflight = s.inflight;
  pushes = s.pushes ++ (target, lost_sample) ∷ [];
  failed = true;
  world = w;
}

abbrev pub launched : {W : Type 0} → String → ℕ → Sent W → W → Sent W
launched target at s w = record {
  seq = next_seq s.seq;
  inflight = insert eq_seq s.seq (record { target = target; sent = at }) s.inflight;
  pushes = s.pushes;
  failed = s.failed;
  world = w;
}

module _ {W : Type 0} (p : Pinger) (write_to : List ℕ → String → W → Bool × W) (now : W → ℕ)
    (reads : W → List Datagram) (cancelled : W → Bool) where
  -- `write_to` sends to a Target's address and returns whether it failed.
  pub send_one : String → Sent W → Sent W
  unfolding echo_request_bytes insert
  send_one target s =
      let (failed, w) = write_to (echo_request_bytes p.family p.ident s.seq []) target s.world in
      if failed then missed target s w else launched target (now w) s w

  pub send_all : List String → Sent W → Sent W
  unfolding send_one
  send_all [] s = s
  send_all (target ∷ targets) s = send_all targets (send_one target s)

  -- The samples after the send loop.
  unfoldable pub collect : Sent W → List Push
  unfolding read_loop record_loss
  collect s =
      let (left, pushes) = read_loop p s.inflight (reads s.world) in
      if cancelled s.world then record_loss s.inflight else pushes ++ record_loss left

  -- The samples in order, the next sequence number, whether a send failed, and the world after the
  -- sends.
  unfoldable pub cycle : ℕ → W → List Push × ℕ × Bool × W
  unfolding send_all collect
  cycle seq w =
      let s =
        send_all p.targets
          (record { seq = seq; inflight = []; pushes = []; failed = false; world = w }) in
      (s.pushes ++ collect s, s.seq, s.failed, s.world)

-- The pushes go to windows that stand in a map; every Target has one.
abbrev push_to :
    Sample → String → List (String × WindowStats) → Option WindowStats → List (String × WindowStats)
push_to x target windows none = windows
push_to x target windows (some w) = insert str_eq target (push w x) windows

pub push_all : List Push → List (String × WindowStats) → List (String × WindowStats)
unfolding insert lookup
push_all [] windows = windows
push_all ((target, x) ∷ pushes) windows =
    push_all pushes (push_to x target windows (lookup str_eq target windows))

-- A tick without a socket.
pub push_lost : List (String × WindowStats) → List (String × WindowStats)
push_lost = map (λ e. (e.0, push e.1 lost_sample))

pub data TargetError : Type 0 where
  not_literal not_v4 is_v4_literal : String → TargetError

abbrev check_target : (List ℕ → Bool) → Family → String → Ip → Result TargetError (List ℕ)
check_target is_v4 fam t none = err (not_literal t)
check_target is_v4 fam t (some bytes) =
    refuse_if (eq_family fam v4 && not (is_v4 bytes)) (not_v4 t)
    >> refuse_if (eq_family fam v6 && is_v4 bytes) (is_v4_literal t)
    >> ok bytes

-- `parse_ip` and `is_v4` are of the package net.
pub resolve_targets :
    (String → Ip)
    → (List ℕ → Bool)
    → Family
    → List String
    → Result TargetError (List (String × List ℕ))
resolve_targets parse_ip is_v4 fam [] = ok []
resolve_targets parse_ip is_v4 fam (t ∷ ts) =
    check_target is_v4 fam t (parse_ip t)
    >>= (λ bytes. resolve_targets parse_ip is_v4 fam ts >>= (λ rest. ok ((t, bytes) ∷ rest)))
