-- ===== src/Probe/Dial.antt =====
-- The dial of a Pinger's socket (dialICMPVia, bindToDevice and wrapBindError of
-- daemon/internal/probe/pinger.go). The packages net and unix are parameters over a world `W`: `Packet`
-- is a PacketConn, `C` an IPConn and `Raw` what SyscallConn gives.
use nixos_wanwatch.Prelude.{
  ok_count, ℕ, suc, ◌+◌, ◌≡◌, refl, ◌∙◌, Bool, false, Option, none, some, String, Result, ok, err,
  if◌then◌else◌, arith,
}
use nixos_wanwatch.Prelude.Int.{ℤ, pos}
use nixos_wanwatch.Probe.Family.{Family, v6, eq_family}
use nixos_wanwatch.Probe.Socket.{DialError, no_device, dial_failed}

-- The hint goes with a missing permission.
pub data BindError (E : Type 0) : Type 0 where
  need_cap_net_raw : E → BindError E
  bind_error : E → BindError E

pub data DialFault (E : Type 0) : Type 0 where
  listen_failed : E → DialFault E
  not_ip_conn : String → DialFault E
  bind_failed : BindError E → DialFault E

abbrev pub network_of : Family → String
network_of fam = if eq_family fam v6 then "ip6:ipv6-icmp" else "ip4:icmp"

abbrev hinted : {E : Type 0} → (E → Bool) → E → BindError E
hinted is_permission e = if is_permission e then need_cap_net_raw e else bind_error e

-- `is_permission` is `errors.Is` with os.ErrPermission.
unfoldable pub wrap_bind_error : {E : Type 0} → (E → Bool) → Option E → Option (BindError E)
wrap_bind_error is_permission none = none
wrap_bind_error is_permission (some e) = some (hinted is_permission e)

-- What the packages net and unix do. `control` fails or lets its function run; `set_device` sets
-- SO_BINDTODEVICE, and `get_index` reads SO_BINDTOIFINDEX.
pub record Sockets (W E Packet C Raw : Type 0) : Type 0 where
  pub listen : String → W → Result E Packet × W
  pub as_ip_conn : Packet → Option C
  pub syscall_conn : C → Result E Raw
  pub control : Raw → W → Option E × W
  pub set_device : Raw → String → W → Option E × W
  pub get_index : Raw → W → Result E ℤ × W
  pub close_packet : Packet → W → W
  pub close_ip : C → W → W
  pub is_permission : E → Bool
  pub is_no_device : E → Bool

module _ {W E Packet C Raw : Type 0} (net : Sockets W E Packet C Raw) where
  abbrev pub Bound : Type 0
  Bound = Result (BindError E) ℤ × W

  -- The options' error, then the index.
  abbrev finished : Option (BindError E) → ℤ → W → Bound
  finished none i w = (ok i, w)
  finished (some e) i w = (err e, w)

  abbrev after_get : Result E ℤ × W → Bound
  after_get (ok i, w) = finished (wrap_bind_error net.is_permission none) i w
  after_get (err e, w) = finished (wrap_bind_error net.is_permission (some e)) (pos 0) w

  abbrev after_set : Raw → Option E × W → Bound
  after_set raw (some e, w) = finished (wrap_bind_error net.is_permission (some e)) (pos 0) w
  after_set raw (none, w) = after_get (net.get_index raw w)

  abbrev controlled : Raw → String → Option E × W → Bound
  controlled raw iface (some e, w) = (err (bind_error e), w)
  controlled raw iface (none, w) = after_set raw (net.set_device raw iface w)

  abbrev with_raw : String → Result E Raw → W → Bound
  with_raw iface (err e) w = (err (bind_error e), w)
  with_raw iface (ok raw) w = controlled raw iface (net.control raw w)

  unfoldable pub bind_to_device : C → String → W → Bound
  unfolding wrap_bind_error
  bind_to_device c iface w = with_raw iface (net.syscall_conn c) w

  abbrev pub Dialled : Type 0
  Dialled = Result (DialFault E) (C × ℤ) × W

  abbrev pub bound : C → Bound → Dialled
  bound c (err e, w) = (err (bind_failed e), net.close_ip c w)
  bound c (ok i, w) = (ok (c, i), w)

  abbrev pub converted : String → String → Packet → Option C → W → Dialled
  converted network iface pc none w = (err (not_ip_conn network), net.close_packet pc w)
  converted network iface pc (some c) w = bound c (bind_to_device c iface w)

  abbrev pub listened : String → String → Result E Packet × W → Dialled
  listened network iface (err e, w) = (err (listen_failed e), w)
  listened network iface (ok pc, w) = converted network iface pc (net.as_ip_conn pc) w

  unfoldable pub dial_icmp_via : Family → String → W → Dialled
  unfolding bind_to_device
  dial_icmp_via fam iface w =
      let network = network_of fam in listened network iface (net.listen network w)

  -- ENODEV anywhere in the error is an absent interface.
  abbrev is_absent : DialFault E → Bool
  is_absent (listen_failed e) = net.is_no_device e
  is_absent (not_ip_conn network) = false
  is_absent (bind_failed (need_cap_net_raw e)) = net.is_no_device e
  is_absent (bind_failed (bind_error e)) = net.is_no_device e

  abbrev classified : Dialled → Result (DialError (DialFault E)) (C × ℤ) × W
  classified (ok c, w) = (ok c, w)
  classified (err e, w) = (err (if is_absent e then no_device else dial_failed e), w)

  -- `dialICMP` as the socket uses it.
  unfoldable pub dial_icmp : Family → String → W → Result (DialError (DialFault E)) (C × ℤ) × W
  unfolding dial_icmp_via
  dial_icmp fam iface w = classified (dial_icmp_via fam iface w)

  -- What the packages promise: a listen that succeeds opens one connection, a close ends one, and
  -- nothing else opens or ends any.
  pub record Counts (opens : W → ℕ) : Type 0 where
    pub listen_opens :
        (n : String) (w : W) (c : Packet) (w' : W)
        → net.listen n w ≡ (ok c, w')
        → opens w' ≡ suc (opens w)
    pub listen_fails :
        (n : String) (w : W) (e : E) (w' : W) → net.listen n w ≡ (err e, w') → opens w' ≡ opens w
    pub control_keeps : (r : Raw) (w : W) → opens (net.control r w).1 ≡ opens w
    pub set_keeps : (r : Raw) (i : String) (w : W) → opens (net.set_device r i w).1 ≡ opens w
    pub get_keeps : (r : Raw) (w : W) → opens (net.get_index r w).1 ≡ opens w
    pub close_packet_ends :
        (c : Packet) (w : W) (n : ℕ) → opens w ≡ suc n → opens (net.close_packet c w) ≡ n
    pub close_ip_ends : (c : C) (w : W) (n : ℕ) → opens w ≡ suc n → opens (net.close_ip c w) ≡ n

  module _ {opens : W → ℕ} (k : Counts opens) where
    finished_keeps : (o : Option (BindError E)) (i : ℤ) (w : W) → opens (finished o i w).1 ≡ opens w
    finished_keeps none i w = refl
    finished_keeps (some e) i w = refl

    after_get_keeps : (x : Result E ℤ × W) → opens (after_get x).1 ≡ opens x.1
    after_get_keeps (ok i, w) = finished_keeps (wrap_bind_error net.is_permission none) i w
    after_get_keeps (err e, w) =
        finished_keeps (wrap_bind_error net.is_permission (some e)) (pos 0) w

    after_set_keeps : (raw : Raw) (x : Option E × W) → opens (after_set raw x).1 ≡ opens x.1
    after_set_keeps raw (some e, w) =
        finished_keeps (wrap_bind_error net.is_permission (some e)) (pos 0) w
    after_set_keeps raw (none, w) = after_get_keeps (net.get_index raw w) ∙ k.get_keeps raw w

    controlled_keeps :
        (raw : Raw) (iface : String) (x : Option E × W)
        → opens (controlled raw iface x).1 ≡ opens x.1
    controlled_keeps raw iface (some e, w) = refl
    controlled_keeps raw iface (none, w) =
        after_set_keeps raw (net.set_device raw iface w) ∙ k.set_keeps raw iface w

    with_raw_keeps :
        (iface : String) (r : Result E Raw) (w : W) → opens (with_raw iface r w).1 ≡ opens w
    with_raw_keeps iface (err e) w = refl
    with_raw_keeps iface (ok raw) w =
        controlled_keeps raw iface (net.control raw w) ∙ k.control_keeps raw w

    bind_keeps : (c : C) (iface : String) (w : W) → opens (bind_to_device c iface w).1 ≡ opens w
    unfolding bind_to_device
    bind_keeps c iface w = with_raw_keeps iface (net.syscall_conn c) w

    bound_counts :
        (c : C) (x : Bound) (n : ℕ)
        → opens x.1 ≡ suc n
        → opens (bound c x).1 ≡ n + ok_count (bound c x).0
    bound_counts c (err e, w) n h = omega (arith, k.close_ip_ends c w n h)
    bound_counts c (ok i, w) n h = omega (arith, h)

    converted_counts :
        (network iface : String) (pc : Packet) (o : Option C) (w : W) (n : ℕ)
        → opens w ≡ suc n
        → let (r, w') = converted network iface pc o w in opens w' ≡ n + ok_count r
    converted_counts network iface pc none w n h = omega (arith, k.close_packet_ends pc w n h)
    converted_counts network iface pc (some c) w n h =
        bound_counts c (bind_to_device c iface w) n (bind_keeps c iface w ∙ h)

    listened_counts :
        (network iface : String) (w : W) (x : Result E Packet × W)
        → net.listen network w ≡ x
        → let (r, w') = listened network iface x in opens w' ≡ opens w + ok_count r
    listened_counts network iface w (err e, w') h = omega (arith, k.listen_fails network w e w' h)
    listened_counts network iface w (ok pc, w') h =
        converted_counts network iface pc (net.as_ip_conn pc) w' (opens w)
          (k.listen_opens network w pc w' h)

    classified_counts :
        (x : Dialled) (n : ℕ)
        → opens x.1 ≡ n + ok_count x.0
        → opens (classified x).1 ≡ n + ok_count (classified x).0
    classified_counts (ok c, w) n h = h
    classified_counts (err e, w) n h = h

    -- A dial that succeeds leaves one connection more open than before, and one that fails at any
    -- point none.
    pub dial_icmp-counts :
        (fam : Family) (iface : String) (w : W)
        → let (r, w') = dial_icmp fam iface w in opens w' ≡ opens w + ok_count r
    unfolding dial_icmp dial_icmp_via
    dial_icmp-counts fam iface w =
        classified_counts (dial_icmp_via fam iface w) (opens w)
          (listened_counts (network_of fam) iface w (net.listen (network_of fam) w) refl)
