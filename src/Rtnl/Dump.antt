-- ===== src/Rtnl/Dump.antt =====
-- daemon/internal/rtnl/dump.go: reading a netlink dump again while the kernel interrupts it. The dump
-- is a parameter that may change the world `W`, and `cancelled` reads the context.
use nixos_wanwatch.Prelude.{
  ℕ, zero, suc, ◌+◌, ◌-◌, ◌≤◌, ◌≡◌, refl, arith, Bool, true, false, Result, ok, err, if◌then◌else◌,
}

-- An error of the dump: ErrDumpInterrupted, or another.
pub data DumpError (E : Type 0) : Type 0 where
  interrupted : DumpError E
  failed : E → DumpError E

pub data ReadError (E : Type 0) : Type 0 where
  always_interrupted : ReadError E
  dump_failed : E → ReadError E
  context_done : ReadError E

abbrev pub dump_attempts : ℕ
dump_attempts = 4

module _ {W A E : Type 0} (dump : W → Result (DumpError E) A × W) (cancelled : W → Bool) where
  abbrev pub Read : Type 0
  Read = Result (ReadError E) A × W

  -- What follows an attempt: only an interrupted one may go on, with `again`.
  abbrev pub after : Result (DumpError E) A → W → (W → Read) → Read
  after (ok v) w again = (ok v, w)
  after (err (failed e)) w again = (err (dump_failed e), w)
  after (err interrupted) w again = again w

  -- The loop, with `left` attempts after this one.
  pub retry : ℕ → W → Read
  retry zero w = let (r, w') = dump w in after r w' (λ v. (err always_interrupted, v))
  retry (suc left) w =
      let (r, w') = dump w in
      after r w'
        (λ v. let rest = retry left v in if cancelled v then (err context_done, v) else rest)

  pub retry_dump : W → Result (ReadError E) A × W
  unfolding retry
  retry_dump w = retry (dump_attempts - 1) w

  -- `calls` counts the dumps. Each attempt is one, and only an attempt that the kernel did not
  -- interrupt gives the value.
  abbrev pub Attempts : (W → ℕ) → ℕ → W → Read → Type 0
  Attempts calls n w (r, w') =
      (calls w' ≤ calls w + n)
      × (r ≡ err always_interrupted → calls w' ≡ calls w + n)
      × ((v : A) → r ≡ ok v → (u : W) × (dump u ≡ (ok v, w')))

  one-Attempts :
      (calls : W → ℕ) (w : W) (o : Result (DumpError E) A) (w' : W)
      → calls w' ≡ suc (calls w)
      → dump w ≡ (o, w')
      → Attempts calls 1 w (after o w' (λ v. (err always_interrupted, v)))
  one-Attempts calls w (ok v) w' h e =
      (ground (arith, h), λ n. ground (arith, n), λ x p. (w, ground (arith, e, p)))
  one-Attempts calls w (err interrupted) w' h e =
      (ground (arith, h), λ n. ground (arith, h), λ x p. ground (arith, p))
  one-Attempts calls w (err (failed y)) w' h e =
      (ground (arith, h), λ n. ground (arith, n), λ x p. ground (arith, p))

  if-Attempts :
      (calls : W → ℕ) (n : ℕ) (w : W) (b : Bool) (x y : Read)
      → Attempts calls n w x
      → Attempts calls n w y
      → Attempts calls n w (if b then x else y)
  if-Attempts calls n w true x y p q = p
  if-Attempts calls n w false x y p q = q

  abbrev stop_or : ℕ → W → Read
  stop_or left v = let rest = retry left v in if cancelled v then (err context_done, v) else rest

  later-Attempts :
      (calls : W → ℕ) (left : ℕ) (w w' : W)
      → calls w' ≡ suc (calls w)
      → Attempts calls (suc left) w' (stop_or left w')
      → Attempts calls (suc (suc left)) w (stop_or left w')
  later-Attempts calls left w w' c (p, q, r) =
      (ground (arith, p, c), λ e. ground (arith, q e, c), r)

  after-Attempts :
      (calls : W → ℕ) (left : ℕ) (w : W) (o : Result (DumpError E) A) (w' : W)
      → calls w' ≡ suc (calls w)
      → dump w ≡ (o, w')
      → Attempts calls (suc left) w' (retry left w')
      → Attempts calls (suc (suc left)) w (after o w' (stop_or left))
  after-Attempts calls left w (ok v) w' c e ih =
      (ground (arith, c), λ n. ground (arith, n), λ x p. (w, ground (arith, e, p)))
  after-Attempts calls left w (err (failed y)) w' c e ih =
      (ground (arith, c), λ n. ground (arith, n), λ x p. ground (arith, p))
  after-Attempts calls left w (err interrupted) w' c e ih = later-Attempts calls left w w' c (
      if-Attempts calls (suc left) w' (cancelled w') (err context_done, w') (retry left w')
        (ground arith, λ n. ground (arith, n), λ x p. ground (arith, p)) ih)

  retry-Attempts :
      (calls : W → ℕ) (left : ℕ) (w : W)
      → ((w : W) → calls (dump w).1 ≡ suc (calls w))
      → Attempts calls (suc left) w (retry left w)
  unfolding retry
  retry-Attempts calls zero w h = one-Attempts calls w (dump w).0 (dump w).1 (h w) refl
  retry-Attempts calls (suc left) w h =
      after-Attempts calls left w (dump w).0 (dump w).1 (h w) refl
        (retry-Attempts calls left (dump w).1 h)

  -- A read makes at most four dumps, gives up as always interrupted only after four of them, and a
  -- value that it returns is what its last dump returned uninterrupted.
  pub retry_dump-Attempts :
      (calls : W → ℕ) (w : W)
      → ((w : W) → calls (dump w).1 ≡ suc (calls w))
      → let (r, w') = retry_dump w in
        (calls w' ≤ calls w + dump_attempts)
        × (r ≡ err always_interrupted → calls w' ≡ calls w + dump_attempts)
        × ((v : A) → r ≡ ok v → (u : W) × (dump u ≡ (ok v, w')))
  unfolding retry_dump
  retry_dump-Attempts calls w h = retry-Attempts calls 3 w h
