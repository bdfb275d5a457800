-- ===== src/Tests/WindowRuns.antt =====
-- The theorems on windows and their aggregation, at a window of three samples.
use text.Mathlib.TextEquality.{eq_iff}
use nixos_wanwatch.Prelude.{
  ℕ, ◌+◌, ◌*◌, ◌-◌, ◌/◌, ◌≡◌, ◌≢◌, ◌↔◌, ◌≤◌, refl, sym, ap, ◌∙◌, here, there, true, false, some,
  List, [], ◌∷◌, ok, String, last, length, min, arith,
}
use nixos_wanwatch.Prelude.Int.{pos}
use nixos_wanwatch.Prelude.Sort.{swap}
use nixos_wanwatch.Probe.Float.{Floats}
use nixos_wanwatch.Probe.Window.{Sample, WindowStats, new_window, len, for_each, loss_counts, walk}
use nixos_wanwatch.Probe.Window.Ring.{IsValid}
use nixos_wanwatch.Probe.Window.Refine.{contents}
use nixos_wanwatch.Probe.Window.History.{push_all, history}
use nixos_wanwatch.Probe.Aggregate.{aggregate}
use nixos_wanwatch.Probe.Aggregate.Order.{aggregate-Reorder, HasDistinctKeys}
use nixos_wanwatch.Probe.Aggregate.Bounds.{aggregate_loss-IsRatio, IsRatio, AllValid}

abbrev nat_floats : Floats
nat_floats = record {
  Float = ℕ;
  of_u64 = λ n. n;
  add_float = λ a b. a + b;
  sub_float = λ a b. a - b;
  mul_float = λ a b. a * b;
  div_float = λ a b. a / b;
  sqrt = λ a. a;
  to_u64 = λ a. a;
  nearest = λ n d. n / d;
}

abbrev reply : ℕ → Sample
reply n = record { rtt_micros = n; lost = false }

abbrev lost : Sample
lost = record { rtt_micros = 0; lost = true }

abbrev empty_window : WindowStats
empty_window = record {
  capacity = 3;
  samples = reply 0 ∷ reply 0 ∷ reply 0 ∷ [];
  head = 0;
  filled = false;
}

abbrev pushed : List Sample
pushed = reply 10 ∷ lost ∷ reply 30 ∷ reply 50 ∷ []

made : new_window (pos 3) ≡ ok empty_window
unfolding new_window
made = refl

history_example :
    (contents (push_all empty_window pushed) ≡ last 3 pushed)
    × (len (push_all empty_window pushed) ≡ min 3 (length pushed))
    × (((push_all empty_window pushed).filled ≡ true) ↔ (3 ≤ length pushed))
history_example = history (pos 3) pushed made

-- A full window whose oldest sample is in the middle of its buffer.
abbrev full_window : WindowStats
full_window = record {
  capacity = 3;
  samples = reply 50 ∷ lost ∷ reply 30 ∷ [];
  head = 1;
  filled = true;
}

full_window-IsValid : IsValid full_window
full_window-IsValid = record { nonempty = omega arith; sized = refl; head_in = omega arith }

abbrev two_targets : List (String × WindowStats)
two_targets = ("192.0.2.1", full_window) ∷ ("192.0.2.2", empty_window) ∷ []

two_targets-AllValid : AllValid nat_floats two_targets
two_targets-AllValid = (
  full_window-IsValid,
  (record { nonempty = omega arith; sized = refl; head_in = omega arith }, tt),
)

names_differ : ◌≢◌ {A = String} "192.0.2.1" "192.0.2.2"
names_differ h = let e = (eq_iff "192.0.2.1" "192.0.2.2").1 h in cc

distinct : HasDistinctKeys nat_floats two_targets
distinct a b (here p) (here q) e = p ∙ sym q
distinct a b (here p) (there (here q)) e =
    absurd (names_differ (sym (ap (λ x. x.0) p) ∙ e ∙ ap (λ x. x.0) q))
distinct a b (there (here p)) (here q) e =
    absurd (names_differ (sym (ap (λ x. x.0) q) ∙ sym e ∙ ap (λ x. x.0) p))
distinct a b (there (here p)) (there (here q)) e = p ∙ sym q
distinct a b (here p) (there (there m)) e = elim m [ ]
distinct a b (there (here p)) (there (there m)) e = elim m [ ]
distinct a b (there (there m)) n e = elim m [ ]

aggregate-Reorder_example :
    aggregate nat_floats two_targets
    ≡ aggregate nat_floats (("192.0.2.2", empty_window) ∷ ("192.0.2.1", full_window) ∷ [])
aggregate-Reorder_example = aggregate-Reorder nat_floats distinct (swap _ _ [])

a_third : (aggregate nat_floats two_targets).exact_loss ≡ some (record { num = 1; den = 3 })
unfolding aggregate loss_counts for_each len walk
a_third = refl

aggregate_loss_example : IsRatio (record { num = 1; den = 3 })
aggregate_loss_example =
    aggregate_loss-IsRatio nat_floats two_targets (record { num = 1; den = 3 }) two_targets-AllValid
      a_third
