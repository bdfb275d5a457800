-- ===== src/Probe/Aggregate.antt =====
-- daemon/internal/probe/result.go: the windows of a Family's Targets reduced to one result.
pub mod Order
pub mod Bounds
use nixos_wanwatch.Prelude.{
  ℕ, ◌+◌, ◌/◌, ◌≡◌, Bool, true, false, ◌&&◌, Option, none, some, List, [], ◌∷◌, ◌++◌, map, foldl,
  String, ◌==◌, if◌then◌else◌,
}
use nixos_wanwatch.Prelude.Text.{str_le}
use nixos_wanwatch.Prelude.Sort.{sort_by}
use nixos_wanwatch.Probe.Float.{Floats, Rat, add_rat, div_rat}
use nixos_wanwatch.Probe.Window.{WindowStats, mean_rtt, loss_counts, add_u64}
use nixos_wanwatch.Probe.Window.Jitter.{jitter_micros}

pub record IntMean : Type 0 where
  pub sum : ℕ
  pub n : ℕ

abbrev pub add_int : IntMean → ℕ → IntMean
add_int m v = record { sum = add_u64 m.sum v; n = add_u64 m.n 1 }

abbrev pub int_mean : IntMean → Option ℕ
int_mean m = if m.n == 0 then none else some (m.sum / m.n)

pub record RatMean : Type 0 where
  pub total : Rat
  pub count : ℕ

-- `count` is bounded by the number of Targets.
abbrev pub add_mean_rat : RatMean → Rat → RatMean
add_mean_rat m r = record { total = add_rat m.total r; count = m.count + 1 }

abbrev pub rat_mean : RatMean → Option Rat
rat_mean m = if m.count == 0 then none else some (div_rat m.total m.count)

module _ {ℓ κ} {A : Type ℓ} {B : Type κ} (f : A → B) where
  abbrev pub map_option : Option A → Option B
  map_option none = none
  map_option (some a) = some (f a)

-- `if v, ok := ...; ok { m.add(v) }`
abbrev pub add_some {ℓ κ} : {M : Type ℓ} {A : Type κ} → (M → A → M) → M → Option A → M
add_some add m none = m
add_some add m (some a) = add m a

-- The loss of a window with samples, from `LossCounts`.
abbrev pub loss_of : ℕ × ℕ → Option Rat
loss_of (lost, total) = if total == 0 then none else some (record { num = lost; den = total })

module _ (fl : Floats) where
  pub record TargetStats : Type 0 where
    pub target : String
    pub rtt_micros : Option ℕ
    pub jitter : Option ℕ
    pub exact_loss : Option Rat
    pub loss_ratio : Option fl.Float

  pub record FamilyStats : Type 0 where
    pub rtt_micros : Option ℕ
    pub jitter : Option ℕ
    pub exact_loss : Option Rat
    pub loss_ratio : Option fl.Float
    pub window_filled : Bool
    pub per_target : List TargetStats

  -- `nearest`
  abbrev pub nearest_float : Option Rat → Option fl.Float
  nearest_float = map_option (λ r. fl.nearest r.num r.den)

  abbrev pub target_stats : String × WindowStats → TargetStats
  target_stats (name, w) =
      let loss = loss_of (loss_counts w) in
      record {
        target = name;
        rtt_micros = mean_rtt w;
        jitter = jitter_micros fl w;
        exact_loss = loss;
        loss_ratio = nearest_float loss;
      }

  -- The variables of the loop.
  pub record Totals : Type 0 where
    pub per : List TargetStats
    pub rtt : IntMean
    pub jitter : IntMean
    pub loss : RatMean
    pub all_filled : Bool

  abbrev pub visit : Totals → String × WindowStats → Totals
  visit t e =
      let ts = target_stats e in
      record {
        per = t.per ++ ts ∷ [];
        rtt = add_some add_int t.rtt ts.rtt_micros;
        jitter = add_some add_int t.jitter ts.jitter;
        loss = add_some add_mean_rat t.loss ts.exact_loss;
        all_filled = if e.1.filled then t.all_filled else false;
      }

  abbrev pub no_totals : Totals
  no_totals = record {
    per = [];
    rtt = record { sum = 0; n = 0 };
    jitter = record { sum = 0; n = 0 };
    loss = record { total = record { num = 0; den = 1 }; count = 0 };
    all_filled = true;
  }

  abbrev pub by_target : TargetStats → TargetStats → Bool
  by_target a b = str_le a.target b.target

  abbrev pub no_stats : FamilyStats
  no_stats = record {
    rtt_micros = none;
    jitter = none;
    exact_loss = none;
    loss_ratio = none;
    window_filled = false;
    per_target = [];
  }

  abbrev pub summary : Totals → FamilyStats
  summary t =
      let exact = rat_mean t.loss in
      record {
        rtt_micros = int_mean t.rtt;
        jitter = int_mean t.jitter;
        exact_loss = exact;
        loss_ratio = nearest_float exact;
        window_filled = t.all_filled;
        per_target = sort_by by_target t.per;
      }

  unfoldable pub aggregate : List (String × WindowStats) → FamilyStats
  aggregate [] = no_stats
  aggregate (e ∷ targets) = summary (foldl visit no_totals (e ∷ targets))
