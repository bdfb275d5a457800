-- ===== src/Probe/Pinger/Run/Stands.antt =====
-- The windows of a Pinger as histories of samples (daemon/internal/probe/pinger.go).
use text.Mathlib.TextEquality.{eq_iff}
use nixos_wanwatch.Prelude.{
  ℕ, suc, ◌<◌, ◌≡◌, refl, sym, ap, ◌∙◌, Bool, true, false, Option, none, some, List, [], ◌∷◌, ◌++◌,
  String, ok, if◌then◌else◌, arith, count_if, length, ◌==◌, length-append,
}
use nixos_wanwatch.Prelude.Int.{ℤ}
use nixos_wanwatch.Prelude.Dict.{lookup, insert, lookup-insert}
use nixos_wanwatch.Prelude.Text.{str_eq}
use nixos_wanwatch.Probe.Window.{Sample, WindowStats, new_window, push}
use nixos_wanwatch.Probe.Window.History as History
use nixos_wanwatch.Probe.Window.History.{history}
use nixos_wanwatch.Probe.Pinger.{Push, lost_sample, push_all, push_lost, push_to}
use nixos_wanwatch.Probe.Pinger.Samples.{samples_for}
use nixos_wanwatch.Probe.Pinger.Run.{Windows, add_windows}

-- How often a Target is listed.
abbrev pub listed : String → List String → ℕ
listed t = count_if (λ x. str_eq x t)

-- The samples among the pushes that go to a Target.
abbrev pub own : String → List Push → List Sample
own t [] = []
own t ((u, x) ∷ pushes) = let rest = own t pushes in if str_eq u t then x ∷ rest else rest

pub length-own : (t : String) (pushes : List Push) → length (own t pushes) ≡ samples_for t pushes
length-own t [] = refl
length-own t ((u, x) ∷ pushes) = ground (arith, length-own t pushes)

-- The window of a Target after its samples.
abbrev pub after : List Sample → Option WindowStats → Option WindowStats
after xs none = none
after xs (some w) = some (History.push_all w xs)

-- The window of `t` after a push to `u`.
abbrev after_one : Bool → Sample → Option WindowStats → Option WindowStats
after_one true x none = none
after_one true x (some w) = some (push w x)
after_one false x o = o

lookup-push_to :
    (x : Sample) (u t : String) (windows : Windows) (o : Option WindowStats)
    → lookup str_eq u windows ≡ o
    → lookup str_eq t (push_to x u windows o) ≡ after_one (str_eq u t) x (lookup str_eq t windows)
lookup-push_to x u t windows none e = ground (arith, eq_iff u t, e)
lookup-push_to x u t windows (some w) e =
    ground (arith, eq_iff u t, e, lookup-insert str_eq eq_iff u t (push w x) windows)

after_nil : (o : Option WindowStats) → o ≡ after [] o
unfolding History.push_all
after_nil none = refl
after_nil (some w) = refl

after_cons :
    (b : Bool) (x : Sample) (xs : List Sample) (o : Option WindowStats)
    → after xs (after_one b x o) ≡ after (if b then x ∷ xs else xs) o
unfolding History.push_all
after_cons true x xs none = refl
after_cons true x xs (some w) = refl
after_cons false x xs o = refl

pub lookup-push_all :
    (pushes : List Push) (windows : Windows) (t : String)
    → lookup str_eq t (push_all pushes windows) ≡ after (own t pushes) (lookup str_eq t windows)
unfolding push_all History.push_all
lookup-push_all [] windows t = after_nil (lookup str_eq t windows)
lookup-push_all ((u, x) ∷ pushes) windows t =
    lookup-push_all pushes (push_to x u windows (lookup str_eq u windows)) t
    ∙ ap (after (own t pushes)) (lookup-push_to x u t windows (lookup str_eq u windows) refl)
    ∙ after_cons (str_eq u t) x (own t pushes) (lookup str_eq t windows)

pub lookup-push_lost :
    (windows : Windows) (t : String)
    → lookup str_eq t (push_lost windows) ≡ after (lost_sample ∷ []) (lookup str_eq t windows)
unfolding push_lost lookup History.push_all
lookup-push_lost [] t = refl
lookup-push_lost ((u, w) ∷ windows) t = ground (arith, lookup-push_lost windows t)

-- Of a Target that is listed, the window holds what was pushed over `n` ticks to a new one.
pub record Stands (targets : List String) (w₀ : WindowStats) (n : ℕ) (windows : Windows)
    : Type 0 where
  pub samples : String → List Sample
  pub counted : (t : String) → 0 < listed t targets → length (samples t) ≡ n
  pub found :
      (t : String)
      → 0 < listed t targets
      → lookup str_eq t windows ≡ some (History.push_all w₀ (samples t))

add_windows-cons :
    (size : ℤ) (w₀ : WindowStats)
    → new_window size ≡ ok w₀
    → (u : String) (ts : List String) (acc : Windows)
    → add_windows size (u ∷ ts) acc ≡ add_windows size ts (insert str_eq u w₀ acc)
unfolding add_windows
add_windows-cons size w₀ made u ts acc = ground (arith, made)

pub add_windows-found :
    (size : ℤ) (w₀ : WindowStats)
    → new_window size ≡ ok w₀
    → (ts : List String) (acc windows : Windows) → add_windows size ts acc ≡ ok windows
    → (t : String)
    → lookup str_eq t windows ≡ (if listed t ts == 0 then lookup str_eq t acc else some w₀)
unfolding add_windows
add_windows-found size w₀ made [] acc windows h t = ground (arith, h)
add_windows-found size w₀ made (u ∷ ts) acc windows h t = ground (
  arith,
  add_windows-found size w₀ made ts (insert str_eq u w₀ acc) windows
      (sym (add_windows-cons size w₀ made u ts acc) ∙ h) t,
  lookup-insert str_eq eq_iff u t w₀ acc,
)

push_all-append :
    (w : WindowStats) (xs ys : List Sample)
    → History.push_all (History.push_all w xs) ys ≡ History.push_all w (xs ++ ys)
unfolding History.push_all
push_all-append w [] ys = refl
push_all-append w (x ∷ xs) ys = push_all-append (push w x) xs ys

-- A tick that gives each Target its samples.
pub grows :
    {targets : List String} {w₀ : WindowStats} {n : ℕ} {windows windows' : Windows}
    (new : String → List Sample)
    → ((t : String) → 0 < listed t targets → length (new t) ≡ 1)
    → ((t : String) → lookup str_eq t windows' ≡ after (new t) (lookup str_eq t windows))
    → Stands targets w₀ n windows
    → Stands targets w₀ (suc n) windows'
grows {w₀} new c h s = record {
  samples = λ t. s.samples t ++ new t;
  counted = λ t l. omega (arith, length-append (s.samples t) (new t), c t l, s.counted t l);
  found = λ t l.
      h t ∙ ap (after (new t)) (s.found t l) ∙ ap some (push_all-append w₀ (s.samples t) (new t));
}
