-- ===== src/Probe/Window/History.antt =====
-- A window after any number of pushes, against the whole history of samples.
use Prim.Native.Nat.{ℕ, zero, suc, ◌-◌, ◌≤◌, ◌<◌, min}
use native.Mathlib.Decide.{dec_lt}
use nixos_wanwatch.Prelude.{
  ◌≡◌, refl, sym, ap, ◌∙◌, ◌↔◌, true, List, [], ◌∷◌, ◌++◌, foldl, append-nil, append_assoc, length,
  length-append, length-drop, last, last_all, last-cons, arith, ok,
}
use nixos_wanwatch.Prelude.Int.{ℤ, pos, negsuc}
use nixos_wanwatch.Probe.Window.{Sample, WindowStats, new_window, push, len}
use nixos_wanwatch.Probe.Window.Ring.{IsValid, push-IsValid, new_window-IsValid}
use nixos_wanwatch.Probe.Window.Refine.{contents, enqueue, push_refines, length-contents}

unfoldable pub push_all : WindowStats → List Sample → WindowStats
push_all = foldl push

pub push_all-IsValid :
    (xs : List Sample) {w : WindowStats}
    → IsValid w
    → IsValid (push_all w xs) × ((push_all w xs).capacity ≡ w.capacity)
unfolding push_all
push_all-IsValid [] v = (v, refl)
push_all-IsValid (x ∷ xs) {w} v =
    let (v', e) = push-IsValid x v in let (v'', e') = push_all-IsValid xs v' in (v'', e' ∙ e)

-- Dropping the oldest early or late comes to the same.
last-enqueue :
    (c : ℕ) (q : List Sample) (x : Sample) (xs : List Sample)
    → 0 < c
    → length q ≤ c
    → last c (enqueue c q x ++ xs) ≡ last c (q ++ x ∷ xs)
last-enqueue c [] x xs h bound = ap (λ l. last c (l ++ xs)) (last_all c (x ∷ []) (omega arith))
last-enqueue c (y ∷ q) x xs h bound = elim (dec_lt (length (y ∷ q)) c) [
  | yes p ↦
      ap (λ l. last c (l ++ xs))
        (last_all c (y ∷ (q ++ x ∷ [])) (omega (arith, length-append q (x ∷ []))))
      ∙ ap (λ l. last c (y ∷ l)) (append_assoc q (x ∷ []) xs)
  | no p ↦
      let size : length (q ++ x ∷ []) ≡ c = omega (arith, length-append q (x ∷ [])) in
      let kept : enqueue c (y ∷ q) x ≡ q ++ x ∷ [] =
        last-cons c y (q ++ x ∷ []) (omega arith) ∙ last_all c (q ++ x ∷ []) (omega arith) in
      ap (λ l. last c (l ++ xs)) kept
      ∙ ap (last c) (append_assoc q (x ∷ []) xs)
      ∙ sym (
          last-cons c y (q ++ x ∷ xs)
            (omega (arith, length-append q (x ∷ xs), length-append q (x ∷ []))))
]

pub length-enqueue : (c : ℕ) (q : List Sample) (x : Sample) → length (enqueue c q x) ≤ c
length-enqueue c q x = omega (arith, length-drop (length (q ++ x ∷ []) - c) (q ++ x ∷ []))

contents-push_all :
    (xs : List Sample) {w : WindowStats}
    → IsValid w
    → length (contents w) ≤ w.capacity
    → contents (push_all w xs) ≡ last w.capacity (contents w ++ xs)
unfolding push_all
contents-push_all [] {w} v h = rw append-nil (sym (last_all w.capacity (contents w) h))
contents-push_all (x ∷ xs) {w} v h =
    let (v', e) = push-IsValid x v in
    let p = push_refines x v in
    contents-push_all xs v' (rw (p, e) (length-enqueue w.capacity (contents w) x))
    ∙ rw (p, e) (last-enqueue w.capacity (contents w) x xs v.nonempty h)

contents-new : (c : ℤ) {w : WindowStats} → new_window c ≡ ok w → contents w ≡ []
unfolding new_window
contents-new (pos zero) made = cc
contents-new (pos (suc c)) made = ground arith
contents-new (negsuc c) made = cc

-- `Filled` says whether the window holds as many samples as it can.
pub filled_iff_len : {w : WindowStats} → IsValid w → (w.filled ≡ true) ↔ (len w ≡ w.capacity)
unfolding len
filled_iff_len v = (λ e. ground arith, λ e. ground arith)

-- From a new window of capacity `c`, whatever is pushed, the window holds the last `c` samples in
-- order, `Len` is their number, and `Filled` holds exactly when at least `c` samples were pushed.
pub history :
    (c : ℤ) {w : WindowStats} (xs : List Sample)
    → new_window c ≡ ok w
    → (contents (push_all w xs) ≡ last w.capacity xs)
      × (len (push_all w xs) ≡ min w.capacity (length xs))
      × (((push_all w xs).filled ≡ true) ↔ (w.capacity ≤ length xs))
history c {w} xs made = (
  held,
  counted,
  (λ e. omega (arith, counted, same, filled.0 e), λ h. filled.1 (omega (arith, counted, same))),
)
  where
    start : IsValid w
    start = (new_window-IsValid c made).0

    after : IsValid (push_all w xs)
    after = (push_all-IsValid xs start).0

    same : (push_all w xs).capacity ≡ w.capacity
    same = (push_all-IsValid xs start).1

    empty : contents w ≡ []
    empty = contents-new c made

    held : contents (push_all w xs) ≡ last w.capacity xs
    held = contents-push_all xs start (rw empty (omega arith)) ∙ rw empty

    counted : len (push_all w xs) ≡ min w.capacity (length xs)
    counted =
        omega
          (arith, length-contents after, ap length held, length-drop (length xs - w.capacity) xs)

    filled : ((push_all w xs).filled ≡ true) ↔ (len (push_all w xs) ≡ (push_all w xs).capacity)
    filled = filled_iff_len after
