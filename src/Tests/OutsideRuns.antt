-- ===== src/Tests/OutsideRuns.antt =====
-- The theorems on the daemon's ends: the kernel's tables, the links and what is supervised.
use nixos_wanwatch.Prelude.{
  ℕ, zero, suc, ◌+◌, max, ◌≤◌, ◌-◌, ◌≡◌, inl, refl, true, false, Option, none, some, List, [], ◌∷◌,
  String, Result, ok, err, if◌then◌else◌, arith, count_if, replicate, ltb,
}
use nixos_wanwatch.Prelude.Int.{ℤ}
use nixos_wanwatch.Prelude.Dict.{lookup}
use nixos_wanwatch.Rtnl.Event.{Ip}
use nixos_wanwatch.Rtnl.Dump.{
  DumpError, interrupted, always_interrupted, retry_dump, dump_attempts, retry_dump-Attempts,
}
use nixos_wanwatch.Rtnl.Links.{LinkUpdate, handle_all}
use nixos_wanwatch.Rtnl.Links.Agrees.{Agrees, learn, plain_all, handle_all-Agrees}
use nixos_wanwatch.Apply.Rule.{Rule, matches_rule, ensure_rule}
use nixos_wanwatch.Apply.Rule.Table.{Behaves, ensure_rule-One}
use nixos_wanwatch.Apply.Conntrack.{RequestError, einval, dump_interrupted}
use nixos_wanwatch.Daemon.Process.{Error, wrapped, supervise, exit_error, supervise-exit_error}
use nixos_wanwatch.Tests.ApplyRuns.{empty_rule, home, built, built_matches}

-- The kernel interrupts every dump of its table; the world counts them.
abbrev busy_dump : ℕ → Result (DumpError String) ℕ × ℕ
busy_dump w = (err interrupted, suc w)

retry_dump_example :
    let (r, w') = retry_dump busy_dump (λ w. false) 0 in
    (w' ≤ 0 + dump_attempts)
    × (r ≡ err always_interrupted → w' ≡ 0 + dump_attempts)
    × ((v : ℕ) → r ≡ ok v → (u : ℕ) × (busy_dump u ≡ (ok v, w')))
retry_dump_example = retry_dump-Attempts busy_dump (λ w. false) (λ w. w) 0 (λ w. refl)

abbrev plugged : LinkUpdate
plugged = record {
  deleted = false;
  flags = 65_536;
  link = record { name = "eth0"; raw_flags = 65_536; oper_state = 6 };
}

-- The second message tells nothing new, and then the link goes away.
handle_all-Agrees_example :
    let upds = plugged ∷ plugged ∷ record plugged { deleted = true } ∷ [] in
    Agrees (plain_all none upds []) (learn [] (handle_all none upds []).0)
unfolding lookup
handle_all-Agrees_example =
    handle_all-Agrees none (plugged ∷ plugged ∷ record plugged { deleted = true } ∷ []) [] []
      (λ name. inl refl)

-- A table of six flows. The kernel knows no filtered delete, is interrupted after half of the table,
-- and then deletes the rest.
abbrev no_filter : Ip → ℕ → Option (RequestError String) × ℕ
no_filter ip w = (some einval, w)

abbrev halves : ℤ → ℕ → ℕ → ℕ × Option (RequestError String) × ℕ
halves n f w = if ltb 3 w then (3, some dump_interrupted, w - 3) else (w, none, 0)

abbrev address : Ip
address = some (192 ∷ 0 ∷ 2 ∷ 1 ∷ [])

-- A table of copies of one rule; the world counts them.
abbrev copies : ℤ → ℕ → Result String (List Rule) × ℕ
copies fam w = (ok (replicate w built), w)

abbrev take_one : Rule → ℕ → Option String × ℕ
take_one k zero = (some "no such rule", zero)
take_one k (suc n) = (none, n)

abbrev add_one : Rule → ℕ → Option String × ℕ
add_one k w = (none, suc w)

count_copies : (n : ℕ) → count_if (λ k. matches_rule k home) (replicate n built) ≡ n
count_copies zero = refl
count_copies (suc n) = ground (arith, built_matches, count_copies n)

copies-Behaves : Behaves empty_rule copies add_one take_one (λ e. false) (λ w. false) home (λ w. w)
copies-Behaves = record {
  list_shows = λ w rules h. ground (arith, count_copies w, h);
  add_adds = λ w h. refl;
  add_exists = λ w e h. ground (arith, h);
  delete_takes = λ k w m h. taken k w h;
}
  where
    taken : (k : Rule) (w : ℕ) → (take_one k w).0 ≡ none → suc (take_one k w).1 ≡ w
    taken k zero h = ground (arith, h)
    taken k (suc n) h = refl

-- Two of three copies go.
ensure_rule_example :
    let (removed, _, w') =
      ensure_rule empty_rule copies add_one take_one (λ e. false) (λ w. false) home 3 in
    (w' ≡ 1) × (removed + 1 ≡ max 1 3)
unfolding ensure_rule
ensure_rule_example =
    ensure_rule-One empty_rule copies add_one take_one (λ e. false) (λ w. false) home (λ w. w) 3
      copies-Behaves refl

supervise_example :
    ((cause : Error) × (supervise "link subscriber" false none ≡ some cause)
      × (exit_error (some cause) ≡ some (wrapped "daemon stopped" cause)))
    × (supervise "link subscriber" true none ≡ none)
supervise_example = supervise-exit_error "link subscriber" none (λ x h. ground (arith, h))
