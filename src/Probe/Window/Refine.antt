-- ===== src/Probe/Window/Refine.antt =====
-- A window against a bounded queue: the last `capacity` samples, oldest first.
use Prim.Native.Nat.{ℕ, suc, ◌+◌, ◌-◌, ◌%◌, ◌≤◌, ◌<◌}
use native.Mathlib.Nat.{mod-eq_of_lt, mod-eq-sub-mod, mod_self}
use native.Mathlib.Decide.{dec_lt}
use nixos_wanwatch.Prelude.{
  ◌≡◌, refl, sym, ap, ◌∙◌, List, [], ◌∷◌, ◌++◌, foldl, append-nil, append_assoc, length,
  length-append, length-take, length-drop, length-set, get_or, set, take, drop, last, last_all,
  last-cons, take-suc-set, drop-suc-set, drop_at, take_all, drop_all, get_or-take, get_or-drop,
  get_or-append_left, get_or-append_right, Bool-cases, inl, inr, arith, if◌then◌else◌,
}
use nixos_wanwatch.Probe.Window.{Sample, zero_sample, WindowStats, push, len, walk, for_each}
use nixos_wanwatch.Probe.Window.Ring.{IsValid}

-- The samples that a window holds, oldest first.
abbrev pub contents : WindowStats → List Sample
contents w =
    if w.filled then drop w.head w.samples ++ take w.head w.samples else take w.head w.samples

-- The bounded queue: a new sample goes last, and the oldest goes when there are more than `c`.
abbrev pub enqueue : ℕ → List Sample → Sample → List Sample
enqueue c q s = last c (q ++ s ∷ [])

pub length-contents : {w : WindowStats} → IsValid w → length (contents w) ≡ len w
unfolding len
length-contents {w} v = ground (
  arith,
  length-append (drop w.head w.samples) (take w.head w.samples),
  length-take w.head w.samples,
  length-drop w.head w.samples,
)

module _ (xs : List Sample) (h : ℕ) (s : Sample) (inside : h < length xs) where
  -- Before the first wrap, the samples up to the one just written.
  grow : (c : ℕ) → length xs ≡ c → take (suc h) (set xs h s) ≡ enqueue c (take h xs) s
  grow c sized =
      take-suc-set xs h s inside
      ∙ sym (
          last_all c (take h xs ++ s ∷ [])
            (omega (arith, length-append (take h xs) (s ∷ []), length-take h xs)))

  -- After it, the samples from the next slot round to the one just written.
  rotate :
      (c : ℕ)
      → length xs ≡ c
      → drop (suc h) (set xs h s) ++ take (suc h) (set xs h s)
        ≡ enqueue c (drop h xs ++ take h xs) s
  rotate c sized =
      rw (drop-suc-set xs h s, take-suc-set xs h s inside, drop_at xs h zero_sample inside)
        (sym (
          last-cons c _ _ (omega (arith, whole))
          ∙ last_all c _ (omega (arith, whole))
          ∙ append_assoc rest front _))
    where
      rest : List Sample
      rest = drop (suc h) xs

      front : List Sample
      front = take h xs

      whole : length ((rest ++ front) ++ s ∷ []) ≡ length xs
      whole = omega (
        arith,
        length-append (rest ++ front) (s ∷ []),
        length-append rest front,
        length-take h xs,
        length-drop (suc h) xs,
      )

  -- The write that ends the buffer: the oldest sample is then the first.
  wrap :
      suc h ≡ length xs
      → (set xs h s ≡ take (suc h) (set xs h s)) × (drop (suc h) (set xs h s) ≡ [])
  wrap e = (
    sym (take_all (suc h) (set xs h s) (omega (arith, length-set xs h s))),
    drop_all (suc h) (set xs h s) (omega (arith, length-set xs h s)),
  )

next_inside : (h c : ℕ) → h + 1 < c → (h + 1) % c ≡ suc h
next_inside h c p = mod-eq_of_lt p ∙ (omega arith)

next_wraps : (h c : ℕ) → h + 1 ≡ c → (h + 1) % c ≡ 0
next_wraps h c p = rw (p, mod_self)

pub length-contents-le : {w : WindowStats} → IsValid w → length (contents w) ≤ w.capacity
unfolding len
length-contents-le v = ground (arith, length-contents v)

-- `Push` on a valid window is the queue's own step: it appends the sample and drops the oldest one
-- exactly when the window is full.
pub push_refines :
    {w : WindowStats} (s : Sample)
    → IsValid w
    → contents (push w s) ≡ enqueue w.capacity (contents w) s
unfolding push
push_refines {w} s v = elim (dec_lt (w.head + 1) w.capacity) [
  | yes p ↦ ground (
    arith,
    next_inside w.head w.capacity p,
    grow w.samples w.head s (omega arith) w.capacity v.sized,
    rotate w.samples w.head s (omega arith) w.capacity v.sized,
  )
  | no p ↦ ground (
    arith,
    next_wraps w.head w.capacity (omega arith),
    append-nil (set w.samples w.head s),
    wrap w.samples w.head s (omega arith) (omega arith),
    grow w.samples w.head s (omega arith) w.capacity v.sized,
    rotate w.samples w.head s (omega arith) w.capacity v.sized,
  )
]

-- What a loop over an array in order does is a fold over it.
walk-foldl {ℓ} :
    {S : Type ℓ} (at : ℕ → Sample) (fn : S → Sample → S) (l : List Sample) (i : ℕ) (acc : S)
    → ((k : ℕ) → k < length l → at (i + k) ≡ get_or l k zero_sample)
    → walk at fn i (length l) acc ≡ foldl fn acc l
unfolding walk
walk-foldl at fn [] i acc reads = refl
walk-foldl at fn (x ∷ l) i acc reads =
    let first : at i ≡ x = ap at (omega arith) ∙ reads 0 (omega arith) in
    let shift = λ (k : ℕ) (p : k < length l). next k p in
    walk-foldl at fn l (i + 1) (fn acc (at i)) shift ∙ ap (λ y. foldl fn (fn acc y) l) first
  where
    next : (k : ℕ) → k < length l → at (i + 1 + k) ≡ get_or l k zero_sample
    next k p = let e : i + 1 + k ≡ i + suc k = omega arith in ap at e ∙ reads (suc k) (omega arith)

-- Where the slot `h + k`, taken round the buffer, lies in the contents.
slot :
    (xs : List Sample) (c h k : ℕ)
    → length xs ≡ c
    → h < c
    → k < c
    → get_or xs ((h + k) % c) zero_sample ≡ get_or (drop h xs ++ take h xs) k zero_sample
slot xs c h k sized hc kc = elim (dec_lt (h + k) c) [
  | yes p ↦
      rw
        (
          mod-eq_of_lt p,
          get_or-append_left (drop h xs) (take h xs) k zero_sample
              (omega (arith, length-drop h xs)),
        )
        (sym (get_or-drop h xs k zero_sample))
  | no p ↦
      let e : (h + k) % c ≡ h + k - c =
        mod-eq-sub-mod {n = h + k} {m = c} (omega arith)
        ∙ mod-eq_of_lt {n = h + k - c} {m = c} (omega arith) in
      let at : k ≡ length (drop h xs) + (h + k - c) = omega (arith, length-drop h xs) in
      rw e (
        sym (
          ap (λ j. get_or (drop h xs ++ take h xs) j zero_sample) at
          ∙ get_or-append_right (drop h xs) (take h xs) (h + k - c) zero_sample
          ∙ get_or-take h xs (h + k - c) zero_sample (omega arith)))
]

walk_list {ℓ} :
    {S : Type ℓ} (at : ℕ → Sample) (fn : S → Sample → S) (l : List Sample) (n : ℕ) (acc : S)
    → length l ≡ n
    → ((k : ℕ) → k < n → at k ≡ get_or l k zero_sample)
    → walk at fn 0 n acc ≡ foldl fn acc l
walk_list at fn l n acc e reads = rw (← e) (
    walk-foldl at fn l 0 acc
      (λ k p. let z : 0 + k ≡ k = omega arith in ap at z ∙ reads k (omega arith)))

-- On a valid window `forEach` visits the contents, oldest first, each sample once, whatever the callback
-- does.
pub for_each_refines {ℓ} :
    {S : Type ℓ} {w : WindowStats} (fn : S → Sample → S) (acc : S)
    → IsValid w
    → for_each w fn acc ≡ foldl fn acc (contents w)
unfolding for_each
for_each_refines {w} fn acc v = elim (Bool-cases w.filled) [
  | inl full ↦ rw full (
      walk_list _ fn ring w.capacity acc length-ring
        (λ k p. slot w.samples w.capacity w.head k v.sized v.head_in p))
  | inr part ↦ rw part (
      walk_list _ fn (take w.head w.samples) w.head acc
        (omega (arith, length-take w.head w.samples))
        (λ k p. sym (get_or-take w.head w.samples k zero_sample p)))
]
  where
    ring : List Sample
    ring = drop w.head w.samples ++ take w.head w.samples

    length-ring : length ring ≡ w.capacity
    length-ring = omega (
      arith,
      length-append (drop w.head w.samples) (take w.head w.samples),
      length-take w.head w.samples,
      length-drop w.head w.samples,
    )
