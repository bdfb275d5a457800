-- ===== src/Probe/Socket/Owned.antt =====
-- The connection of a socket from its dial to its close (daemon/internal/probe/socket.go).
use nixos_wanwatch.Prelude.{
  ℕ, suc, ◌+◌, ◌≡◌, refl, ◌∙◌, Option, none, some, String, Result, ok, err, ok_count, if_holds,
  arith,
}
use nixos_wanwatch.Prelude.Int.{ℤ}
use nixos_wanwatch.Probe.Family.{Family}
use nixos_wanwatch.Probe.Socket.{
  DialError, no_device, dial_failed, Socket, dialled, open_if, open_socket, close_if, close,
  is_bound_to, recheck_if, recheck,
}

-- The connections of a socket.
abbrev pub has : {C : Type 0} → Option C → ℕ
has none = 0
has (some c) = 1

module _ {W C E : Type 0} (dial : Family → String → W → Result (DialError E) (C × ℤ) × W)
    (if_index : String → W → Result E ℤ × W) (close_conn : C → W → W) where
  -- A dial that succeeds opens one connection, a close ends one, and nothing else opens or ends any.
  pub record Accounts (opens : W → ℕ) : Type 0 where
    pub dial_counts :
        (fam : Family) (iface : String) (w : W)
        → let (r, w') = dial fam iface w in opens w' ≡ opens w + ok_count r
    pub index_keeps : (iface : String) (w : W) → opens (if_index iface w).1 ≡ opens w
    pub close_ends : (c : C) (w : W) (n : ℕ) → opens w ≡ suc n → opens (close_conn c w) ≡ n

  module _ (opens : W → ℕ) (a : Accounts opens) (base : ℕ) where
    abbrev pub Owned : Socket C × W → Type 0
    Owned (s, w) = opens w ≡ base + has s.conn

    dialled-Owned :
        (s : Socket C) (x : Result (DialError E) (C × ℤ) × W)
        → s.conn ≡ none
        → opens x.1 ≡ base + ok_count x.0
        → let (_, s', w') = dialled dial if_index close_conn s x in Owned (s', w')
    dialled-Owned s (err no_device, w) e h = ground (arith, e, h)
    dialled-Owned s (err (dial_failed x), w) e h = ground (arith, e, h)
    dialled-Owned s (ok (c, i), w) e h = h

    open_if-Owned :
        (o : Option C) (s : Socket C) (w : W)
        → s.conn ≡ o
        → Owned (s, w)
        → let (_, s', w') = open_if dial if_index close_conn o s w in Owned (s', w')
    open_if-Owned (some c) s w e h = h
    open_if-Owned none s w e h =
        dialled-Owned s (dial s.family s.iface w) e
          (ground (arith, e, h, a.dial_counts s.family s.iface w))

    pub open-Owned :
        (s : Socket C) (w : W)
        → Owned (s, w)
        → let (_, s', w') = open_socket dial if_index close_conn s w in Owned (s', w')
    unfolding open_socket
    open-Owned s w h = open_if-Owned s.conn s w refl h

    close_if-Owned :
        (o : Option C) (s : Socket C) (w : W)
        → s.conn ≡ o
        → Owned (s, w)
        → let (s', w') = close_if dial if_index close_conn o s w in
          (s'.conn ≡ none) × (opens w' ≡ base)
    close_if-Owned none s w e h = (e, ground (arith, e, h))
    close_if-Owned (some c) s w e h = (refl, a.close_ends c w base (ground (arith, e, h)))

    pub close-Owned :
        (s : Socket C) (w : W)
        → Owned (s, w)
        → let (s', w') = close dial if_index close_conn s w in (s'.conn ≡ none) × (opens w' ≡ base)
    unfolding close
    close-Owned s w h = close_if-Owned s.conn s w refl h

    pub recheck_if-Owned :
        (o : Option C) (s : Socket C) (w : W)
        → Owned (s, w)
        → Owned (recheck_if dial if_index close_conn o s w)
    recheck_if-Owned none s w h = h
    recheck_if-Owned (some c) s w h =
        let (i, w') = if_index s.iface w in
        let kept : Owned (s, w') = a.index_keeps s.iface w ∙ h in
        let (gone, freed) = close-Owned s w' kept in
        if_holds Owned (is_bound_to dial if_index close_conn s.bound i) (λ e. kept)
          (λ e. ground (arith, gone, freed))

    pub recheck-Owned :
        (s : Socket C) (w : W) → Owned (s, w) → Owned (recheck dial if_index close_conn s w)
    unfolding recheck
    recheck-Owned s w h = recheck_if-Owned s.conn s w h
