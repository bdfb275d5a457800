-- ===== src/Apply/Conntrack/World.antt =====
-- A conntrack flush and the world (daemon/internal/apply/conntrack.go).
use nixos_wanwatch.Prelude.{
  ℕ, zero, suc, ◌-◌, Bool, true, Option, none, some, List, Result, ok, err, if_holds,
}
use nixos_wanwatch.Prelude.Int.{ℤ}
use nixos_wanwatch.Probe.Family.{Family, v6, eq_family}
use nixos_wanwatch.Rtnl.Event.{Ip}
use nixos_wanwatch.Apply.{Check, number}
use nixos_wanwatch.Apply.Conntrack.{
  RequestError, FlushError, FlushResult, interrupted, not_supported, always_interrupted, after_dump,
  dump_attempts, dump_loop, filtered, dump_flush, fall_back, flush_valid, validate_flush,
  flush_by_source,
}

module _ {W E Filter : Type 0} (is_v4 : List ℕ → Bool)
    (filtered_delete : Ip → W → Option (RequestError E) × W)
    (reply_dst_filter : Ip → Result E Filter)
    (dump_delete : ℤ → Filter → W → ℕ × Option (RequestError E) × W) (cancelled : W → Bool)
    (Q : W → Type 0) (delete_keeps : (ip : Ip) (w : W) → Q w → Q (filtered_delete ip w).1)
    (dump_keeps : (n : ℤ) (f : Filter) (w : W) → Q w → Q (dump_delete n f w).2) where
  abbrev Leaves : FlushResult × Option (FlushError E) × W → Type 0
  Leaves x = Q x.2

  after_dump-Leaves :
      (res : FlushResult) (x : ℕ × Option (RequestError E) × W)
      (again : FlushResult → W → RequestError E → FlushResult × Option (FlushError E) × W)
      → ((r : FlushResult) (w : W) (e : RequestError E) → Q w → Leaves (again r w e))
      → Q x.2
      → Leaves (after_dump is_v4 filtered_delete reply_dst_filter dump_delete cancelled res x again)
  after_dump-Leaves res (n, none, w) again h q = q
  after_dump-Leaves res (n, some e, w) again h q =
      if_holds Leaves (interrupted e) (λ i. h _ w e q) (λ i. q)

  dump_loop-Leaves :
      (fam : Family) (filter : Filter) (left : ℕ) (res : FlushResult) (w : W)
      → Q w
      → Leaves (
          dump_loop is_v4 filtered_delete reply_dst_filter dump_delete cancelled fam filter left res
            w)
  unfolding dump_loop
  dump_loop-Leaves fam filter zero res w q =
      if_holds Leaves (cancelled w) (λ c. q)
        (λ c.
          after_dump-Leaves res (dump_delete (number fam) filter w)
            (λ r v e. (r, some always_interrupted, v)) (λ r v e p. p)
            (dump_keeps (number fam) filter w q))
  dump_loop-Leaves fam filter (suc left) res w q =
      if_holds Leaves (cancelled w) (λ c. q)
        (λ c.
          after_dump-Leaves res (dump_delete (number fam) filter w)
            (λ r v e.
              dump_loop is_v4 filtered_delete reply_dst_filter dump_delete cancelled fam filter left
                r v)
            (λ r v e p. dump_loop-Leaves fam filter left r v p)
            (dump_keeps (number fam) filter w q))

  filtered-Leaves :
      (fam : Family) (f : Result E Filter) (w : W)
      → Q w
      → Leaves (filtered is_v4 filtered_delete reply_dst_filter dump_delete cancelled fam f w)
  unfolding filtered
  filtered-Leaves fam (err e) w q = q
  filtered-Leaves fam (ok filter) w q =
      dump_loop-Leaves fam filter (dump_attempts - 1) (record { dumped = true; entries = 0 }) w q

  dump_flush-Leaves :
      (fam : Family) (ip : Ip) (w : W)
      → Q w
      → Leaves (dump_flush is_v4 filtered_delete reply_dst_filter dump_delete cancelled fam ip w)
  unfolding dump_flush
  dump_flush-Leaves fam ip w q = filtered-Leaves fam (reply_dst_filter ip) w q

  fall_back-Leaves :
      (fam : Family) (ip : Ip) (x : Option (RequestError E) × W)
      → Q x.1
      → Leaves (fall_back is_v4 filtered_delete reply_dst_filter dump_delete cancelled fam ip x)
  fall_back-Leaves fam ip (none, w) q = q
  fall_back-Leaves fam ip (some e, w) q =
      if_holds Leaves (not_supported e) (λ n. dump_flush-Leaves fam ip w q) (λ n. q)

  flush_valid-Leaves :
      (fam : Family) (ip : Ip) (w : W) (c : Check)
      → Q w
      → Leaves (flush_valid is_v4 filtered_delete reply_dst_filter dump_delete cancelled fam ip w c)
  flush_valid-Leaves fam ip w (err e) q = q
  flush_valid-Leaves fam ip w (ok _) q =
      if_holds Leaves (eq_family fam v6) (λ e. dump_flush-Leaves fam ip w q)
        (λ e. fall_back-Leaves fam ip (filtered_delete ip w) (delete_keeps ip w q))

  -- What the requests keep true of the world, a flush keeps.
  pub flush_by_source-Leaves :
      (fam : Family) (ip : Ip) (w : W)
      → Q w
      → Leaves
          (flush_by_source is_v4 filtered_delete reply_dst_filter dump_delete cancelled fam ip w)
  unfolding flush_by_source
  flush_by_source-Leaves fam ip w q =
      if_holds Leaves (cancelled w) (λ c. q)
        (λ c.
          flush_valid-Leaves fam ip w
            (validate_flush is_v4 filtered_delete reply_dst_filter dump_delete cancelled fam ip) q)
