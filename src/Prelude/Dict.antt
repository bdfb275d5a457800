-- ===== src/Prelude/Dict.antt =====
-- A Go map as an association list, over the key's equality test. The list's order is an order in
-- which Go may visit the entries.
use mathlib.Core.Path.{◌≡◌, refl}
use mathlib.Core.Logic.{◌↔◌}
use mathlib.Core.Bool.{Bool, true}
use mathlib.Core.Option as Option
use mathlib.Core.Option.{Option, none, some}
use mathlib.Core.List.{List, [], ◌∷◌, map}
use native.Mathlib.Omega.{arith}
use nixos_wanwatch.Prelude.Tests.{if◌then◌else◌}
use nixos_wanwatch.Prelude.Lists.{count_if, length}

abbrev pub IsEquality {ℓ} : {K : Type ℓ} → (K → K → Bool) → Type ℓ
IsEquality {K} same = (a b : K) → (same a b ≡ true) ↔ (a ≡ b)

module _ {ℓ κ} {K : Type ℓ} {V : Type κ} (same : K → K → Bool) where
  unfoldable pub lookup : K → List (K × V) → Option V
  lookup k [] = none
  lookup k ((j, v) ∷ m) = if same j k then some v else lookup k m

  unfoldable pub insert : K → V → List (K × V) → List (K × V)
  insert k v [] = (k, v) ∷ []
  insert k v ((j, w) ∷ m) = if same j k then (k, v) ∷ m else (j, w) ∷ insert k v m

  unfoldable pub delete : K → List (K × V) → List (K × V)
  delete k [] = []
  delete k ((j, w) ∷ m) = let rest = delete k m in if same j k then rest else (j, w) ∷ rest

  pub lookup-insert :
      IsEquality same
      → (k j : K) (v : V) (m : List (K × V))
      → lookup j (insert k v m) ≡ (if same k j then some v else lookup j m)
  unfolding lookup insert
  lookup-insert iff k j v [] = refl
  lookup-insert iff k j v ((i, w) ∷ m) =
      ground (arith, iff k j, iff i k, iff i j, lookup-insert iff k j v m)

  -- A write to a key that is there keeps what is counted of the values.
  pub count_if-insert :
      (q : V → Bool) (k : K) {v : V} (v' : V) (m : List (K × V))
      → lookup k m ≡ some v
      → q v' ≡ q v
      → (count_if (λ e. q e.1) (insert k v' m) ≡ count_if (λ e. q e.1) m)
        × (length (insert k v' m) ≡ length m)
  unfolding lookup insert
  count_if-insert q k v' [] e h = cc
  count_if-insert q k {v} v' ((j, w) ∷ m) e h = ground (arith, count_if-insert q k {v = v} v' m)

  pub lookup-delete :
      IsEquality same
      → (k j : K) (m : List (K × V))
      → lookup j (delete k m) ≡ (if same k j then none else lookup j m)
  unfolding lookup delete
  lookup-delete iff k j [] = ground arith
  lookup-delete iff k j ((i, w) ∷ m) =
      ground (arith, iff k j, iff i k, iff i j, lookup-delete iff k j m)

pub lookup-map {ℓ κ μ} :
    {K : Type ℓ} {V : Type κ} {U : Type μ} (same : K → K → Bool) (f : V → U) (k : K)
    (m : List (K × V))
    → lookup same k (map (λ e. (e.0, f e.1)) m) ≡ Option.map f (lookup same k m)
unfolding lookup
lookup-map same f k [] = refl
lookup-map same f k ((j, v) ∷ m) = ground (arith, lookup-map same f k m)
