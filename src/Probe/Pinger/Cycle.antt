-- ===== src/Probe/Pinger/Cycle.antt =====
-- A whole cycle (daemon/internal/probe/pinger.go): the sequence numbers of its probes and the samples
-- that it pushes.
use nixos_wanwatch.Prelude.{
  ℕ, suc, subst, sym, ◌+◌, ◌%◌, ◌≤◌, ◌<◌, ◌≡◌, refl, Bool, true, false, none, List, [], ◌∷◌, String,
  ◌==◌, if◌then◌else◌, All, arith, count_if, length,
}
use nixos_wanwatch.Prelude.Dict.{lookup, insert}
use nixos_wanwatch.Prelude.Text.{str_eq}
use nixos_wanwatch.Probe.Icmp.{echo_request_bytes}
use nixos_wanwatch.Probe.Pinger.{
  Pinger, Pending, Inflight, eq_seq, lost_sample, record_loss, Datagram, read_loop, Sent, send_one,
  missed, launched, send_all, collect, cycle,
}
use nixos_wanwatch.Probe.Pinger.Samples.{
  samples_for, pending_for, Distinct, count_if-append, insert-fresh, insert-Distinct,
  read_loop-Settles, samples_for-record_loss,
}

-- The keys are the sequence numbers of the `i` sends from `seq` on.
abbrev Below : ℕ → ℕ → Inflight → Type 0
Below seq i m = All (λ e. (j : ℕ) × (j < i) × (e.0 ≡ (seq + j) % 65_536)) m

Below-suc : (seq i : ℕ) (m : Inflight) → Below seq i m → Below seq (suc i) m
Below-suc seq i [] b = tt
Below-suc seq i (e ∷ m) ((j, l, h), b) = ((j, ground arith, h), Below-suc seq i m b)

Below-missing :
    (seq i : ℕ) (m : Inflight)
    → i < 65_536
    → Below seq i m
    → lookup eq_seq ((seq + i) % 65_536) m ≡ none
unfolding lookup
Below-missing seq i [] h b = refl
Below-missing seq i ((k, v) ∷ m) h ((j, l, e), b) = ground (arith, Below-missing seq i m h b)

if-Below :
    (seq i : ℕ) (b : Bool) (x y : Inflight)
    → Below seq i x
    → Below seq i y
    → Below seq i (if b then x else y)
if-Below seq i true x y p q = p
if-Below seq i false x y p q = q

Below-insert :
    (seq i : ℕ) (v : Pending) (m : Inflight)
    → Below seq i m
    → Below seq (suc i) (insert eq_seq ((seq + i) % 65_536) v m)
unfolding insert
Below-insert seq i v [] b = ((i, ground arith, refl), tt)
Below-insert seq i v ((k, u) ∷ m) ((j, l, e), b) =
    let here : Below seq (suc i) (((seq + i) % 65_536, v) ∷ []) = ((i, ground arith, refl), tt) in
    if-Below seq (suc i) (k == (seq + i) % 65_536) (((seq + i) % 65_536, v) ∷ m)
      ((k, u) ∷ insert eq_seq ((seq + i) % 65_536) v m) (here.0, Below-suc seq i m b)
      ((j, ground arith, e), Below-insert seq i v m b)

abbrev sent_to : String → List String → ℕ
sent_to t = count_if (λ x. str_eq x t)

-- After `i` sends, `n t` of them to a Target `t`, each has its sample or its probe in flight.
record Sends {W : Type 0} (seq i : ℕ) (n : String → ℕ) (s : Sent W) : Type 0 where
  at : s.seq ≡ (seq + i) % 65_536
  distinct : Distinct s.inflight
  below : Below seq i s.inflight
  each : (t : String) → samples_for t s.pushes + pending_for t s.inflight ≡ n t

abbrev more : String → (String → ℕ) → String → ℕ
more x n t = n t + (if str_eq x t then 1 else 0)

missed-Sends :
    {W : Type 0} (seq i : ℕ) (n : String → ℕ) (target : String) (s : Sent W) (w : W)
    → Sends seq i n s
    → Sends seq (suc i) (more target n) (missed target s w)
missed-Sends seq i n target s w h = record {
  at = ground (arith, h.at);
  distinct = h.distinct;
  below = Below-suc seq i s.inflight h.below;
  each = λ t.
      ground (
        arith,
        h.each t,
        count_if-append (λ e. str_eq e.0 t) s.pushes ((target, lost_sample) ∷ []),
      );
}

launched-Sends :
    {W : Type 0} (seq i : ℕ) (n : String → ℕ) (target : String) (at : ℕ) (s : Sent W) (w : W)
    → i < 65_536
    → Sends seq i n s
    → Sends seq (suc i) (more target n) (launched target at s w)
launched-Sends seq i n target at s w l h =
    let v : Pending = record { target = target; sent = at } in
    let free : lookup eq_seq s.seq s.inflight ≡ none =
      subst (λ k. lookup eq_seq k s.inflight ≡ none) (sym h.at)
        (Below-missing seq i s.inflight l h.below) in
    record {
      at = ground (arith, h.at);
      distinct = insert-Distinct s.seq v s.inflight free h.distinct;
      below =
          subst (λ k. Below seq (suc i) (insert eq_seq k v s.inflight)) (sym h.at)
            (Below-insert seq i v s.inflight h.below);
      each = λ t. ground (arith, h.each t, insert-fresh t s.seq v s.inflight free);
    }

if-Sends :
    {W : Type 0} (seq i : ℕ) (n : String → ℕ) (b : Bool) (x y : Sent W)
    → Sends seq i n x
    → Sends seq i n y
    → Sends seq i n (if b then x else y)
if-Sends seq i n true x y p q = p
if-Sends seq i n false x y p q = q

module _ {W : Type 0} (p : Pinger) (write_to : List ℕ → String → W → Bool × W) (now : W → ℕ)
    (reads : W → List Datagram) (cancelled : W → Bool) where
  send_one-Sends :
      (seq i : ℕ) (n : String → ℕ) (target : String) (s : Sent W)
      → i < 65_536
      → Sends seq i n s
      → Sends seq (suc i) (more target n) (send_one p write_to now reads cancelled target s)
  unfolding send_one
  send_one-Sends seq i n target s l h =
      let (failed, w) = write_to (echo_request_bytes p.family p.ident s.seq []) target s.world in
      if-Sends seq (suc i) (more target n) failed (missed target s w) (launched target (now w) s w)
        (missed-Sends seq i n target s w h) (launched-Sends seq i n target (now w) s w l h)

  send_all-Sends :
      (seq i : ℕ) (n : String → ℕ) (targets : List String) (s : Sent W)
      → i + length targets ≤ 65_536
      → Sends seq i n s
      → let s' = send_all p write_to now reads cancelled targets s in
        Distinct s'.inflight
        × (s'.seq ≡ (seq + (i + length targets)) % 65_536)
        × ((t : String)
            → samples_for t s'.pushes + pending_for t s'.inflight
              ≡ n t + count_if (λ x. str_eq x t) targets)
  unfolding send_all
  send_all-Sends seq i n [] s l h =
      (h.distinct, ground (arith, h.at), λ t. ground (arith, h.each t))
  send_all-Sends seq i n (target ∷ targets) s l h =
      let s' = send_one p write_to now reads cancelled target s in
      let (u, q, k) =
        send_all-Sends seq (suc i) (more target n) targets s' (ground arith)
          (send_one-Sends seq i n target s (ground arith) h) in
      (u, ground (arith, q), λ t. ground (arith, k t))

  samples_for-collect :
      (t : String) (s : Sent W)
      → Distinct s.inflight
      → samples_for t (collect p write_to now reads cancelled s) ≡ pending_for t s.inflight
  unfolding collect
  samples_for-collect t s u =
      let (left, pushes) = read_loop p s.inflight (reads s.world) in
      let (_, k) = read_loop-Settles p s.inflight (reads s.world) u in
      ground (
        arith,
        k t,
        samples_for-record_loss t left,
        samples_for-record_loss t s.inflight,
        count_if-append (λ e. str_eq e.0 t) pushes (record_loss left),
      )

  -- A cycle over at most 65,536 Targets pushes one Sample for each Target, whichever sends fail, whatever
  -- datagrams arrive, and also when it is cancelled; and it uses up one sequence number for each.
  pub cycle_lem :
      (seq : ℕ) (w : W) (t : String)
      → seq < 65_536
      → length p.targets ≤ 65_536
      → let (pushes, seq', _, _) = cycle p write_to now reads cancelled seq w in
        (samples_for t pushes ≡ count_if (λ x. str_eq x t) p.targets)
        × (seq' ≡ (seq + length p.targets) % 65_536)
  unfolding cycle
  cycle_lem seq w t b l =
      let s₀ : Sent W = record {
        seq = seq;
        inflight = [];
        pushes = [];
        failed = false;
        world = w;
      } in
      let s = send_all p write_to now reads cancelled p.targets s₀ in
      let (u, q, k) =
        send_all-Sends seq 0 (λ t. 0) p.targets s₀ (ground arith)
          (record { at = ground arith; distinct = tt; below = tt; each = λ t. ground arith }) in
      (
        ground (
          arith,
          k t,
          samples_for-collect t s u,
          count_if-append (λ e. str_eq e.0 t) s.pushes (collect p write_to now reads cancelled s),
        ),
        ground (arith, q),
      )
