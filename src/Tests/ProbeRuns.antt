-- ===== src/Tests/ProbeRuns.antt =====
-- The theorems on a Pinger and its socket.
use nixos_wanwatch.Prelude.{
  ℕ, suc, ◌-◌, ◌≤◌, ◌≡◌, ◌≢◌, refl, Bool, true, false, none, some, List, [], ◌∷◌, String, Result,
  ok, arith, length,
}
use nixos_wanwatch.Prelude.Int.{ℤ, pos}
use nixos_wanwatch.Prelude.Text.{str_eq}
use text.Mathlib.TextEquality.{eq_iff}
use nixos_wanwatch.Probe.Family.{Family, v4}
use nixos_wanwatch.Probe.Window.{WindowStats, zero_sample, new_window}
use nixos_wanwatch.Probe.Pinger.{Pinger, Datagram}
use nixos_wanwatch.Probe.Pinger.Run.{context_done, run}
use nixos_wanwatch.Probe.Pinger.Run.Stands.{listed}
use nixos_wanwatch.Probe.Pinger.Run.Counts.{Results, run-Results}
use nixos_wanwatch.Probe.Pinger.Run.Closes.{run-Closes}
use nixos_wanwatch.Probe.Socket.{Socket, open_socket, recheck, recheck-Current, DialError}
use nixos_wanwatch.Probe.Socket.Owned.{Accounts}
use nixos_wanwatch.Rtnl.Event.{Ip}
use nixos_wanwatch.Tests.HealthRuns.{counts}

abbrev pinger : Pinger
pinger = record {
  wan = "primary";
  family = v4;
  interface = "eth0";
  targets = "192.0.2.9" ∷ "192.0.2.10" ∷ [];
  ident = 7;
  interval = pos 1_000_000_000;
  timeout = pos 500_000_000;
  window_size = pos 3;
}

-- The first send fails, and the reply to the second arrives after a message for someone else.
abbrev first_fails : List ℕ → String → ℕ → Bool × ℕ
first_fails req target w = (str_eq target "192.0.2.9", suc w)

abbrev replies : List Datagram
replies =
    record { bytes = 0 ∷ 0 ∷ 0 ∷ 0 ∷ 0 ∷ 9 ∷ 0 ∷ 0 ∷ []; at = 10 }
    ∷ record { bytes = 0 ∷ 0 ∷ 0 ∷ 0 ∷ 0 ∷ 7 ∷ 0 ∷ 0 ∷ []; at = 20 }
    ∷ []

-- The interface was made anew, and once more before the next tick: the world is its index.
abbrev bound : Socket ℕ
bound = record { family = v4; iface = "ppp0"; conn = some 1; bound = pos 3; lost = false }

abbrev dial : Family → String → ℕ → Result (DialError String) (ℕ × ℤ) × ℕ
dial fam iface w = (ok (2, pos w), w)

abbrev index_of : String → ℕ → Result String ℤ × ℕ
index_of name w = (ok (pos w), w)

recheck_example :
    let (s₁, w₁) = recheck dial index_of (λ c w. w) bound 4 in
    let (_, s₂, w₂) = open_socket dial index_of (λ c w. w) s₁ (suc w₁) in
    some (pos w₂) ≡ some s₂.bound
unfolding recheck open_socket
recheck_example =
    recheck-Current dial index_of (λ c w. w) (λ w name. some (pos w)) bound 4 (λ w. suc w)
      (λ fam iface w c i h. ground (arith, h)) (λ iface w i h. ground (arith, h))
      (λ c h. ground (arith, h)) 2 refl

abbrev closed_socket : Socket ℕ
closed_socket = record { family = v4; iface = "eth0"; conn = none; bound = pos 0; lost = false }

-- The world counts the open connections. Every dial succeeds, and the interface is always another.
abbrev dial_one : Family → String → ℕ → Result (DialError String) (ℕ × ℤ) × ℕ
dial_one fam iface w = (ok (1, pos 3), suc w)

abbrev other_index : String → ℕ → Result String ℤ × ℕ
other_index name w = (ok (pos 4), w)

abbrev close_one : ℕ → ℕ → ℕ
close_one c w = w - 1

abbrev fails_first : ℕ → List ℕ → String → ℕ → Bool × ℕ
fails_first c req target w = (str_eq target "192.0.2.9", w)

abbrev three_ticks : List (ℕ → ℕ)
three_ticks = (λ w. w) ∷ (λ w. w) ∷ (λ w. w) ∷ []

abbrev as_ip : String → Ip
as_ip t = some (192 ∷ 0 ∷ 2 ∷ 9 ∷ [])

abbrev three : WindowStats
three = record {
  capacity = 3;
  samples = zero_sample ∷ zero_sample ∷ zero_sample ∷ [];
  head = 0;
  filled = false;
}

three_made : new_window pinger.window_size ≡ ok three
unfolding new_window
three_made = refl

listed_once : (t : String) → listed t pinger.targets ≤ 1
listed_once t = ground (arith, eq_iff "192.0.2.9" t, eq_iff "192.0.2.10" t, apart)
  where
    apart : ◌≢◌ {A = String} "192.0.2.9" "192.0.2.10"
    apart h = let e = (eq_iff "192.0.2.9" "192.0.2.10").1 h in cc

-- The first send of each cycle fails.
run-Results_example :
    let (why, rs, _) =
      run counts pinger dial_one other_index close_one fails_first
        (λ w. w)
        (λ c w. replies)
        (λ w. false)
        (λ w. false)
        as_ip
        (λ b. true)
        three_ticks
        closed_socket
        0 in
    Results counts pinger dial_one other_index close_one fails_first
      (λ w. w)
      (λ c w. replies)
      (λ w. false)
      (λ w. false)
      three
      (omega arith)
      listed_once
      0
      rs
    × (((w : ℕ) → false ≡ false) → why ≡ context_done → length rs ≡ length three_ticks)
run-Results_example =
    run-Results counts pinger dial_one other_index close_one fails_first (λ w. w) (λ c w. replies)
      (λ w. false) (λ w. false) three (omega arith) listed_once as_ip (λ b. true) three_ticks
      closed_socket 0 three_made

one_open : Accounts dial_one other_index close_one (λ w. w)
one_open = record {
  dial_counts = λ fam iface w. omega arith;
  index_keeps = λ iface w. refl;
  close_ends = λ c w n h. omega (arith, h);
}

run-Closes_example :
    let (_, _, st) =
      run counts pinger dial_one other_index close_one fails_first
        (λ w. w)
        (λ c w. replies)
        (λ w. false)
        (λ w. false)
        as_ip
        (λ b. true)
        three_ticks
        closed_socket
        5 in
    (st.sock.conn ≡ none) × (st.world ≡ 5)
run-Closes_example =
    run-Closes counts pinger dial_one other_index close_one fails_first (λ w. w) (λ c w. replies)
      (λ w. false) (λ w. false) (λ w. w) one_open (λ c b t w. refl) as_ip (λ b. true) three_ticks
      closed_socket 5 ((λ w. refl), ((λ w. refl), ((λ w. refl), tt))) refl
