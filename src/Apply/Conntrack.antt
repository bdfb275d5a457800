-- ===== src/Apply/Conntrack.antt =====
-- daemon/internal/apply/conntrack.go: the flush of the flows of a vacated WAN. The requests to the
-- kernel and the library's filter are parameters over a world `W`.
pub mod World
use nixos_wanwatch.Prelude.{
  ℕ, zero, suc, ◌+◌, ◌-◌, ◌%◌, ◌^◌, ◌≡◌, Bool, true, false, Option, none, some, List, Result, ok,
  err, if◌then◌else◌,
}
use nixos_wanwatch.Prelude.Int.{ℤ}
use nixos_wanwatch.Probe.Family.{Family, v6, eq_family}
use nixos_wanwatch.Rtnl.Event.{Ip}
use nixos_wanwatch.Apply.{ApplyError, Check, number, validate_family_ip}

abbrev pub dump_attempts : ℕ
dump_attempts = 2

-- `entries` is a uint.
pub record FlushResult : Type 0 where
  pub dumped : Bool
  pub entries : ℕ

abbrev pub no_flush : FlushResult
no_flush = record { dumped = false; entries = 0 }

-- An error of a request: EINVAL, EOPNOTSUPP, ErrDumpInterrupted, or another.
pub data RequestError (E : Type 0) : Type 0 where
  einval eopnotsupp dump_interrupted : RequestError E
  failed : E → RequestError E

pub data FlushError (E : Type 0) : Type 0 where
  context_done : FlushError E
  invalid : ApplyError → FlushError E
  filter_failed : E → FlushError E
  request_failed : RequestError E → FlushError E
  always_interrupted : FlushError E

abbrev pub not_supported : {E : Type 0} → RequestError E → Bool
not_supported einval = true
not_supported eopnotsupp = true
not_supported e = false

abbrev interrupted : {E : Type 0} → RequestError E → Bool
interrupted dump_interrupted = true
interrupted e = false

module _ {W E Filter : Type 0} (is_v4 : List ℕ → Bool)
    (filtered_delete : Ip → W → Option (RequestError E) × W)
    (reply_dst_filter : Ip → Result E Filter)
    (dump_delete : ℤ → Filter → W → ℕ × Option (RequestError E) × W) (cancelled : W → Bool) where
  abbrev pub Flushed : Type 0
  Flushed = FlushResult × Option (FlushError E) × W

  abbrev add_entries : FlushResult → ℕ → FlushResult
  add_entries res n = record res { entries = (res.entries + n) % 2 ^ 64 }

  -- What follows a dump: only an interrupted one may go on, with `again`.
  abbrev after_dump :
      FlushResult
      → ℕ × Option (RequestError E) × W
      → (FlushResult → W → RequestError E → Flushed)
      → Flushed
  after_dump res (n, none, w) again = (add_entries res n, none, w)
  after_dump res (n, some e, w) again =
      if interrupted e
      then again (add_entries res n) w e
      else (add_entries res n, some (request_failed e), w)

  -- The loop, with `left` attempts after this one.
  dump_loop : Family → Filter → ℕ → FlushResult → W → Flushed
  dump_loop fam filter zero res w =
      let end =
        after_dump res (dump_delete (number fam) filter w)
          (λ r v e. (r, some always_interrupted, v)) in
      if cancelled w then (res, some context_done, w) else end
  dump_loop fam filter (suc left) res w =
      let end =
        after_dump res (dump_delete (number fam) filter w)
          (λ r v e. dump_loop fam filter left r v) in
      if cancelled w then (res, some context_done, w) else end

  filtered : Family → Result E Filter → W → Flushed
  unfolding dump_loop
  filtered fam (err e) w = (no_flush, some (filter_failed e), w)
  filtered fam (ok filter) w =
      dump_loop fam filter (dump_attempts - 1) (record { dumped = true; entries = 0 }) w

  pub dump_flush : Family → Ip → W → Flushed
  unfolding filtered
  dump_flush fam ip w = filtered fam (reply_dst_filter ip) w

  abbrev fall_back : Family → Ip → Option (RequestError E) × W → Flushed
  fall_back fam ip (none, w) = (no_flush, none, w)
  fall_back fam ip (some e, w) =
      let dumped = dump_flush fam ip w in
      if not_supported e then dumped else (no_flush, some (request_failed e), w)

  abbrev pub validate_flush : Family → Ip → Check
  validate_flush fam ip = validate_family_ip is_v4 fam ip

  abbrev flush_valid : Family → Ip → W → Check → Flushed
  flush_valid fam ip w (err e) = (no_flush, some (invalid e), w)
  flush_valid fam ip w (ok _) =
      let dumped = dump_flush fam ip w in
      let deleted = fall_back fam ip (filtered_delete ip w) in
      if eq_family fam v6 then dumped else deleted

  -- The second component is `none` on success.
  pub flush_by_source : Family → Ip → W → Flushed
  unfolding dump_flush
  flush_by_source fam ip w =
      if cancelled w
      then (no_flush, some context_done, w)
      else flush_valid fam ip w (validate_flush fam ip)

  -- `left_in w` counts the entries to the address that are in the table. What the kernel promises:
  -- a dump reports how many of them it deleted and leaves none when it succeeds; a filtered delete for
  -- an IPv4 address deletes all of them or fails. Of one for an IPv6 address nothing is promised.
  pub record Deletes (ip : Ip) (left_in : W → ℕ) : Type 0 where
    pub dump_counts :
        (fam : Family) (f : Filter) (w : W)
        → reply_dst_filter ip ≡ ok f
        → let (n, e, w') = dump_delete (number fam) f w in
          (left_in w' + n ≡ left_in w) × (e ≡ none → left_in w' ≡ 0)
    pub filtered_deletes :
        (bytes : List ℕ) (w : W)
        → ip ≡ some bytes
        → is_v4 bytes ≡ true
        → let (o, w') = filtered_delete ip w in
          (o ≡ none → left_in w' ≡ 0) × ((e : RequestError E) → o ≡ some e → left_in w' ≡ left_in w)

  -- After a flush that succeeds no entry is left, and a flush that dumped the table counted every
  -- entry that went, also when it failed.
  abbrev pub Accounts : (W → ℕ) → W → Flushed → Type 0
  Accounts left_in w (res, e, w') =
      (e ≡ none → left_in w' ≡ 0) × (res.dumped ≡ true → left_in w' + res.entries ≡ left_in w)
