-- ===== src/Rtnl/Route/Selected.antt =====
-- Which default routes are selected: one for each interface and Family, with the least metric.
use text.Mathlib.TextEquality.{eq_iff}
use nixos_wanwatch.Prelude.{
  ◌≡◌, ◌↔◌, refl, sym, ap, ◌∙◌, true, false, Option, none, some, List, [], ◌∷◌, map, String, All,
  arith, if◌then◌else◌, Bool-cases, inl, inr,
}
use nixos_wanwatch.Prelude.Int.{ℤ, ltb_ℤ}
use nixos_wanwatch.Probe.Family.{eq_family_iff}
use nixos_wanwatch.Rtnl.Event.{RouteEvent, del}
use nixos_wanwatch.Rtnl.Route.{
  Candidate, same_key, select_one, select_all, event_of, answer, Net, Route, Cache, without_deleted,
  dump_candidates, select_defaults, reconcile,
}

same_key_iff :
    (a b : RouteEvent) → (same_key a b ≡ true) ↔ ((a.iface ≡ b.iface) × (a.family ≡ b.family))
unfolding same_key
same_key_iff a b = ground (arith, eq_iff a.iface b.iface, eq_family_iff a.family b.family)

moved : (a b e : RouteEvent) → same_key a b ≡ true → same_key a e ≡ same_key b e
moved a b e h = ground (arith, same_key_iff a b, same_key_iff a e, same_key_iff b e)

met : (a b e : RouteEvent) → same_key a e ≡ true → same_key b e ≡ true → same_key a b ≡ true
met a b e h k = ground (arith, same_key_iff a b, same_key_iff a e, same_key_iff b e)

-- The first Candidate of the pair of `e`.
pub chosen : RouteEvent → List Candidate → Option Candidate
chosen e [] = none
chosen e (c ∷ cs) = let rest = chosen e cs in if same_key c.event e then some c else rest

abbrev pub lesser : Candidate → Option Candidate → Candidate
lesser c none = c
lesser c (some d) = if ltb_ℤ d.metric c.metric then d else c

-- The Candidate of the pair of `e` with the least metric, the first listed of equals.
pub best : RouteEvent → List Candidate → Option Candidate
best e [] = none
best e (c ∷ cs) = let rest = best e cs in if same_key c.event e then some (lesser c rest) else rest

-- A Candidate kept unless a later one is less.
abbrev keep_or : Option Candidate → Option Candidate → Option Candidate
keep_or none new = new
keep_or (some c) new = some (lesser c new)

chosen_one :
    (e : RouteEvent) (sel : List Candidate) (c : Candidate)
    → chosen e (select_one sel c)
      ≡ (if same_key c.event e then keep_or (chosen e sel) (some c) else chosen e sel)
unfolding select_one chosen
chosen_one e [] c = refl
chosen_one e (p ∷ sel) c =
    ground (arith, moved p.event c.event e, met p.event c.event e, chosen_one e sel c)

kept_lesser :
    (o : Option Candidate) (c : Candidate) (r : Option Candidate)
    → keep_or (keep_or o (some c)) r ≡ keep_or o (some (lesser c r))
kept_lesser none c r = refl
kept_lesser (some p) c none = refl
kept_lesser (some p) c (some d) = ground arith

chosen_all :
    (e : RouteEvent) (cs : List Candidate) (sel : List Candidate)
    → chosen e (select_all sel cs) ≡ keep_or (chosen e sel) (best e cs)
unfolding select_all best
chosen_all e [] sel = kept_none (chosen e sel)
  where
    kept_none : (o : Option Candidate) → o ≡ keep_or o none
    kept_none none = refl
    kept_none (some c) = refl
chosen_all e (c ∷ cs) sel = ground (
  arith,
  chosen_all e cs (select_one sel c),
  chosen_one e sel c,
  kept_lesser (chosen e sel) c (best e cs),
)

-- What `selectDefaults` gives for an interface and Family is the Candidate with the least metric, the
-- first listed of equals, and none when the dump has none.
pub select_all-best :
    (e : RouteEvent) (cs : List Candidate) → chosen e (select_all [] cs) ≡ best e cs
unfolding chosen
select_all-best e cs = chosen_all e cs []

-- No two Candidates selected are of one interface and Family.
abbrev pub OnePerKey : List Candidate → Type 0
OnePerKey [] = Unit
OnePerKey (c ∷ cs) = All (λ d. same_key c.event d.event ≡ false) cs × OnePerKey cs

abbrev Apart : Candidate → List Candidate → Type 0
Apart c cs = All (λ d. same_key c.event d.event ≡ false) cs

same_key_sym : (a b : RouteEvent) → same_key a b ≡ same_key b a
same_key_sym a b = ground (arith, same_key_iff a b, same_key_iff b a)

Apart-one :
    (q c : Candidate) (sel : List Candidate)
    → same_key q.event c.event ≡ false
    → Apart q sel
    → Apart q (select_one sel c)
unfolding select_one
Apart-one q c [] h a = (h, tt)
Apart-one q c (p ∷ sel) h (x, xs) = elim (Bool-cases (same_key p.event c.event)) [
  | inl e ↦ elim (Bool-cases (ltb_ℤ c.metric p.metric)) [
    | inl l ↦ rw (e, l) (h, xs)
    | inr l ↦ rw (e, l) (x, xs)
  ]
  | inr e ↦ rw e (x, Apart-one q c sel h xs)
]

Apart-moved :
    (p c : Candidate) (sel : List Candidate)
    → same_key p.event c.event ≡ true
    → Apart p sel
    → Apart c sel
Apart-moved p c [] h a = tt
Apart-moved p c (d ∷ sel) h (x, xs) =
    (sym (moved p.event c.event d.event h) ∙ x, Apart-moved p c sel h xs)

select_one-OnePerKey :
    (c : Candidate) (sel : List Candidate) → OnePerKey sel → OnePerKey (select_one sel c)
unfolding select_one
select_one-OnePerKey c [] u = (tt, tt)
select_one-OnePerKey c (p ∷ sel) (a, u) = elim (Bool-cases (same_key p.event c.event)) [
  | inl e ↦ elim (Bool-cases (ltb_ℤ c.metric p.metric)) [
    | inl l ↦ rw (e, l) (Apart-moved p c sel e a, u)
    | inr l ↦ rw (e, l) (a, u)
  ]
  | inr e ↦ rw e (Apart-one p c sel e a, select_one-OnePerKey c sel u)
]

-- Candidates of different pairs stay of different pairs, whichever Candidates follow.
pub select_all-OnePerKey :
    (cs : List Candidate) (sel : List Candidate) → OnePerKey sel → OnePerKey (select_all sel cs)
unfolding select_all
select_all-OnePerKey [] sel u = u
select_all-OnePerKey (c ∷ cs) sel u =
    select_all-OnePerKey cs (select_one sel c) (select_one-OnePerKey c sel u)

abbrev pub event_or : Option Candidate → RouteEvent → RouteEvent
event_or none d = d
event_or (some c) d = c.event

answer-chosen :
    (e : RouteEvent) (cs : List Candidate)
    → answer e (map (λ c. c.event) cs) ≡ event_or (chosen e cs) (event_of del e)
unfolding chosen
answer-chosen e [] = refl
answer-chosen e (c ∷ cs) = ground (arith, answer-chosen e cs)

-- A read of the current routes answers with the pair's default of least metric, the first listed of
-- equals, or with a Del exactly when the dump, without the route just deleted, has no default for it.
pub reconcile_lem :
    (net : Net) (interfaces : Option (List String)) (iface_lookup : ℤ → Option String)
    (routes : List (Route net.Mask)) (ev : RouteEvent) (deleted : Option (Route net.Mask))
    (cache : Cache)
    → let (cs, cache') =
        dump_candidates net interfaces iface_lookup (without_deleted net deleted routes) cache in
      reconcile net interfaces iface_lookup routes ev deleted cache
      ≡ (event_or (best ev cs) (event_of del ev), cache')
unfolding reconcile select_defaults
reconcile_lem net interfaces iface_lookup routes ev deleted cache =
    let (cs, cache') =
      dump_candidates net interfaces iface_lookup (without_deleted net deleted routes) cache in
    ap (λ e. (e, cache'))
      (answer-chosen ev (select_all [] cs)
        ∙ ap (λ o. event_or o (event_of del ev)) (select_all-best ev cs))
