-- ===== src/Health/Hysteresis/Traces.antt =====
-- The verdict over a whole sequence of observations.
use mathlib.Core.List.{foldl-append}
use nixos_wanwatch.Prelude.{
  ℕ, zero, suc, ◌+◌, ◌≤◌, ◌<◌, ◌≡◌, refl, ◌∙◌, ap, Bool, not, if◌then◌else◌, List, [], ◌∷◌, ◌++◌,
  foldl, subst, arith, replicate, max,
}
use nixos_wanwatch.Health.Hysteresis.{Hysteresis, observe, seed}
use nixos_wanwatch.Health.Hysteresis.Runs.{
  Verdict, same_bool, limit, judge, view, IsValid, observe_refines, seed-IsValid,
}

abbrev pub observe_all : Hysteresis → List Bool → Hysteresis
observe_all = foldl observe

pub observe_all_refines :
    (xs : List Bool) {up down : ℕ} {h : Hysteresis}
    → IsValid up down h
    → IsValid up down (observe_all h xs)
      × (view (observe_all h xs) ≡ foldl (judge up down) (view h) xs)
observe_all_refines [] v = (v, refl)
observe_all_refines (x ∷ xs) {up} {down} v =
    let (v', e) = observe_refines x v in
    let (v'', e') = observe_all_refines xs v' in (v'', e' ∙ ap (λ u. foldl (judge up down) u xs) e)

-- The longest run of `o` in a sequence that follows `r` of them.
abbrev pub longest_run : Bool → ℕ → List Bool → ℕ
longest_run o r [] = r
longest_run o r (x ∷ xs) =
    let more = longest_run o (r + 1) xs in
    let anew = longest_run o 0 xs in if same_bool o x then more else max r anew

longest_run-ge : (o : Bool) (r : ℕ) (xs : List Bool) → r ≤ longest_run o r xs
longest_run-ge o r [] = omega arith
longest_run-ge o r (x ∷ xs) = ground (arith, longest_run-ge o (r + 1) xs)

judge_holds :
    (up down : ℕ) (xs : List Bool) (v : Verdict)
    → longest_run (not v.healthy) v.against xs < limit up down v.healthy
    → (foldl (judge up down) v xs).healthy ≡ v.healthy
unfolding judge
judge_holds up down [] v h = refl
judge_holds up down (x ∷ xs) v h = ground (
  arith,
  judge_holds up down xs (record { healthy = v.healthy; against = 0 }),
  judge_holds up down xs (record { healthy = v.healthy; against = v.against + 1 }),
  longest_run-ge (not v.healthy) (v.against + 1) xs,
)

-- On a valid Hysteresis the seeded verdict stands as long as no run of contrary observations
-- reaches its limit: `consecutive_down` of a healthy verdict, `consecutive_up` of an unhealthy one.
pub flaps_are_suppressed :
    {up down : ℕ} {h : Hysteresis} (o : Bool) (xs : List Bool)
    → IsValid up down h
    → longest_run (not o) 0 xs < limit up down o
    → (observe_all (seed h o) xs).healthy ≡ o
flaps_are_suppressed {up} {down} {h} o xs v short =
    let (v', e) = seed-IsValid o v in
    ap (λ (u : Verdict). u.healthy) ((observe_all_refines xs v').1)
    ∙ ap (λ u. (foldl (judge up down) u xs).healthy) e
    ∙ judge_holds up down xs (record { healthy = o; against = 0 }) short

judge_flips :
    (up down : ℕ) (o : Bool) (n : ℕ) (v : Verdict)
    → (v.healthy ≡ not o → limit up down (not o) ≤ v.against + n)
    → (v.healthy ≡ not o → v.against < limit up down (not o))
    → (foldl (judge up down) v (replicate n o)).healthy ≡ o
unfolding judge
judge_flips up down o zero v h k = ground arith
judge_flips up down o (suc n) v h k = ground (
  arith,
  judge_flips up down o n (record { healthy = v.healthy; against = v.against + 1 }),
  judge_flips up down o n (record { healthy = o; against = 0 }),
  judge_flips up down o n (record { healthy = v.healthy; against = 0 }),
)

-- On a valid Hysteresis a full run of equal observations makes them the verdict, after any history.
pub full_run_decides :
    {up down : ℕ} {h : Hysteresis} (o : Bool) (xs : List Bool)
    → IsValid up down h
    → (observe_all h (xs ++ replicate (limit up down (not o)) o)).healthy ≡ o
full_run_decides {up} {down} {h} o xs v =
    let run = replicate (limit up down (not o)) o in
    let (valid, _) = observe_all_refines xs v in
    let (_, e) = observe_all_refines run valid in
    let held = observe_all h xs in
    ap (λ (u : Hysteresis). u.healthy) (foldl-append observe h xs run ∙ refl)
    ∙ ap (λ (u : Verdict). u.healthy) e
    ∙ judge_flips up down o (limit up down (not o)) (view held) (λ k. omega arith)
        (λ k. subst (λ b. (view held).against < limit up down b) k valid.short)
