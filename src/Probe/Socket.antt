-- ===== src/Probe/Socket.antt =====
-- daemon/internal/probe/socket.go: the ICMP socket of a Pinger over the lifetime of its interface. The
-- dial and the lookup of an interface's index are parameters over a world `W`.
pub mod Owned
use nixos_wanwatch.Prelude.{
  ◌≡◌, refl, ap, ◌∙◌, Bool, true, false, Option, none, some, String, Result, ok, err, arith,
  if◌then◌else◌,
}
use nixos_wanwatch.Prelude.Int.{ℤ, eq_ℤ, eq_ℤ_iff}
use nixos_wanwatch.Probe.Family.{Family}

-- An error of a dial: ENODEV, or another.
pub data DialError (E : Type 0) : Type 0 where
  no_device : DialError E
  dial_failed : E → DialError E

-- `conn` is nil while the interface is absent or the socket was closed.
pub record Socket (C : Type 0) : Type 0 where
  pub family : Family
  pub iface : String
  pub conn : Option C
  pub bound : ℤ
  pub lost : Bool

module _ {W C E : Type 0} (dial : Family → String → W → Result (DialError E) (C × ℤ) × W)
    (if_index : String → W → Result E ℤ × W) (close_conn : C → W → W) where
  abbrev pub dialled : Socket C → Result (DialError E) (C × ℤ) × W → Option E × Socket C × W
  dialled s (err no_device, w) = (none, record s { lost = true }, w)
  dialled s (err (dial_failed e), w) = (some e, s, w)
  dialled s (ok (c, i), w) = (none, record s { conn = some c; bound = i; lost = false }, w)

  abbrev pub open_if : Option C → Socket C → W → Option E × Socket C × W
  open_if (some c) s w = (none, s, w)
  open_if none s w = dialled s (dial s.family s.iface w)

  -- The first component is `none` on success.
  unfoldable pub open_socket : Socket C → W → Option E × Socket C × W
  open_socket s w = open_if s.conn s w

  abbrev pub close_if : Option C → Socket C → W → Socket C × W
  close_if none s w = (s, w)
  close_if (some c) s w = (record s { conn = none }, close_conn c w)

  unfoldable pub close : Socket C → W → Socket C × W
  close s w = close_if s.conn s w

  abbrev pub is_bound_to : ℤ → Result E ℤ → Bool
  is_bound_to i (err e) = false
  is_bound_to i (ok j) = eq_ℤ j i

  abbrev pub lose : Socket C × W → Socket C × W
  lose (s, w) = (record s { lost = true }, w)

  abbrev pub recheck_if : Option C → Socket C → W → Socket C × W
  recheck_if none s w = (s, w)
  recheck_if (some c) s w =
      let (i, w') = if_index s.iface w in
      let closed = lose (close s w') in if is_bound_to s.bound i then (s, w') else closed

  -- After a failed send.
  unfoldable pub recheck : Socket C → W → Socket C × W
  unfolding close
  recheck s w = recheck_if s.conn s w

  -- A socket is open only on the interface's index, or known to be lost.
  abbrev pub Current : (W → String → Option ℤ) → W → Socket C → Type 0
  Current index w s = (c : C) → s.conn ≡ some c → index w s.iface ≡ some s.bound

  open_if-Current :
      (index : W → String → Option ℤ) (o : Option C) (s : Socket C) (w : W)
      → s.conn ≡ o
      → ((fam : Family) (iface : String) (w : W) (c : C) (i : ℤ)
          → (dial fam iface w).0 ≡ ok (c, i)
          → index (dial fam iface w).1 iface ≡ some i)
      → Current index w s
      → let (_, s', w') = open_if o s w in Current index w' s'
  open_if-Current index (some c) s w e d h = h
  open_if-Current index none s w e d h = of (dial s.family s.iface w).0 refl
    where
      of :
          (r : Result (DialError E) (C × ℤ))
          → (dial s.family s.iface w).0 ≡ r
          → let (_, s', w') = dialled s (r, (dial s.family s.iface w).1) in Current index w' s'
      of (err no_device) q c p = ground (arith, e, p)
      of (err (dial_failed x)) q c p = ground (arith, e, p)
      of (ok (c, i)) q b p = d s.family s.iface w c i q

  close_if-conn :
      (o : Option C) (s : Socket C) (w : W) → s.conn ≡ o → (close_if o s w).0.conn ≡ none
  close_if-conn none s w e = e
  close_if-conn (some c) s w e = refl

  lose-Current :
      (index : W → String → Option ℤ) (x : Socket C × W)
      → x.0.conn ≡ none
      → let (s, w) = lose x in Current index w s
  lose-Current index x n c p = ground (arith, n, p)

  checked-Current :
      (index : W → String → Option ℤ) (s : Socket C) (w : W) (r : Result E ℤ)
      → ((i : ℤ) → r ≡ ok i → index w s.iface ≡ some i)
      → let (s', w') = (if is_bound_to s.bound r then (s, w) else lose (close s w)) in
        Current index w' s'
  unfolding close
  checked-Current index s w (err e) h =
      lose-Current index (close s w) (close_if-conn s.conn s w refl)
  checked-Current index s w (ok j) h = of (eq_ℤ j s.bound) refl
    where
      of :
          (b : Bool)
          → eq_ℤ j s.bound ≡ b
          → let (s', w') = (if b then (s, w) else lose (close s w)) in Current index w' s'
      of true q = λ c p. h j refl ∙ ap some ((eq_ℤ_iff j s.bound).0 q)
      of false q = lose-Current index (close s w) (close_if-conn s.conn s w refl)

  -- A failed send and the open at the next tick leave a socket that is bound to the index which the
  -- interface has then, or none. In between lies a wait, in which anything may happen, except that an
  -- interface whose socket stayed open keeps its index. The lookup shows the present index, and a dial
  -- binds to it.
  pub recheck-Current :
      (index : W → String → Option ℤ) (s : Socket C) (w : W) (wait : W → W)
      → ((fam : Family) (iface : String) (w : W) (c : C) (i : ℤ)
          → (dial fam iface w).0 ≡ ok (c, i)
          → index (dial fam iface w).1 iface ≡ some i)
      → ((iface : String) (w : W) (i : ℤ)
          → (if_index iface w).0 ≡ ok i
          → index (if_index iface w).1 iface ≡ some i)
      → let (s₁, w₁) = recheck s w in
        ((c : C) → s₁.conn ≡ some c → index (wait w₁) s₁.iface ≡ index w₁ s₁.iface)
        → (c : C)
        → let (_, s₂, w₂) = open_socket s₁ (wait w₁) in
          s₂.conn ≡ some c → index w₂ s₂.iface ≡ some s₂.bound
  unfolding open_socket recheck
  recheck-Current index s w wait d l same c h =
      let (s₁, w₁) = recheck s w in
      open_if-Current index s₁.conn s₁ (wait w₁) refl d (λ b p. same b p ∙ of s.conn refl b p) c h
    where
      of : (o : Option C) → s.conn ≡ o → let (s₁, w₁) = recheck_if o s w in Current index w₁ s₁
      of none e = λ c p. ground (arith, e, p)
      of (some x) e =
          checked-Current index s (if_index s.iface w).1 (if_index s.iface w).0
            (λ i q. l s.iface w i q)
