-- ===== src/State/Hooks/Runs.antt =====
-- How many Hooks of an event run, what they may print, and how a Hook is killed
-- (daemon/internal/state/hooks.go).
use nixos_wanwatch.Prelude.{
  ℕ, zero, suc, ◌-◌, ◌≤◌, ◌≡◌, refl, ap, ap₂, subst, sym, ◌∙◌, Bool, true, false, Option, List, [],
  ◌∷◌, ◌++◌, map, String, Result, arith, length, take, take_all, min, count_if, if◌then◌else◌, ltb,
  leb, ◌&&◌, append-nil, append_assoc, length-append,
}
use nixos_wanwatch.Prelude.Int.{ℤ}
use nixos_wanwatch.State.Hooks.{
  hook_skipped, HookResult, CappedBuffer, empty_buffer, write_buffer, write_all, buffer_text,
  truncated_mark, classify, RunError, Ended, DirError, DirEntry, HookRunner, run_one, run_each,
  skipped_result,
}

abbrev pub concat : List (List ℕ) → List ℕ
concat [] = []
concat (p ∷ ps) = p ++ concat ps

-- A buffer that keeps the first bytes of `all`.
record Holds (all : List ℕ) (b : CappedBuffer) : Type 0 where
  kept : b.buf ≡ take b.limit all
  counted : b.written ≡ length all

take-append :
    (n : ℕ) (xs ys : List ℕ) → take n (xs ++ ys) ≡ take n xs ++ take (n - length (take n xs)) ys
take-append zero xs ys = refl
take-append (suc n) [] ys = sub_zero (suc n)
  where
    sub_zero : (a : ℕ) → take a ys ≡ take (a - 0) ys
    sub_zero a = ground arith
take-append (suc n) (x ∷ xs) ys =
    ap (λ l. x ∷ l)
      (take-append n xs ys ∙ ap (λ k. take n xs ++ take k ys) (sub_suc n (length (take n xs))))
  where
    sub_suc : (a b : ℕ) → a - b ≡ suc a - suc b
    sub_suc a b = ground arith

take-min : (n : ℕ) (p : List ℕ) → take (min (length p) n) p ≡ take n p
take-min n p = ground (arith, take_all n p, take_all (length p) p)

write_buffer-Holds :
    (p all : List ℕ) (b : CappedBuffer) → Holds all b → Holds (all ++ p) (write_buffer p b)
unfolding write_buffer
write_buffer-Holds p all b h = record {
  kept =
      full_or b.buf (b.limit - length b.buf) p
      ∙ ap (λ l. l ++ take (b.limit - length l) p) h.kept
      ∙ sym (take-append b.limit all p);
  counted = ground (arith, h.counted, length-append all p);
}
  where
    take_none : (room : ℕ) (p : List ℕ) → room ≡ 0 → take room p ≡ []
    take_none room p h = ap (λ n. take n p) h

    full_or :
        (buf : List ℕ) (room : ℕ) (p : List ℕ)
        → (if ltb 0 room then buf ++ take (min (length p) room) p else buf) ≡ buf ++ take room p
    full_or buf room p = ground (arith, take-min room p, append-nil buf, take_none room p)

write_all-Holds :
    (ps : List (List ℕ)) (all : List ℕ) (b : CappedBuffer)
    → Holds all b
    → Holds (all ++ concat ps) (write_all ps b)
write_all-Holds [] all b h = subst (λ l. Holds l b) (sym (append-nil all)) h
write_all-Holds (p ∷ ps) all b h =
    subst (λ l. Holds l (write_all ps (write_buffer p b))) (append_assoc all p (concat ps))
      (write_all-Holds ps (all ++ p) (write_buffer p b) (write_buffer-Holds p all b h))

empty_kept : (n : ℕ) → ◌≡◌ {A = List ℕ} [] (take n [])
empty_kept zero = refl
empty_kept (suc n) = refl

write_buffer-limit : (p : List ℕ) (b : CappedBuffer) → (write_buffer p b).limit ≡ b.limit
unfolding write_buffer
write_buffer-limit p b = refl

write_all-limit : (ps : List (List ℕ)) (b : CappedBuffer) → (write_all ps b).limit ≡ b.limit
write_all-limit [] b = refl
write_all-limit (p ∷ ps) b = write_all-limit ps (write_buffer p b) ∙ write_buffer-limit p b

-- However a Hook splits its output into writes, what is kept is the first `limit` bytes of it all, with
-- the mark behind exactly if there were more.
pub buffer_text_lem :
    (ps : List (List ℕ)) (limit : ℕ)
    → buffer_text (write_all ps (empty_buffer limit)) ≡ (
        if ltb limit (length (concat ps))
        then take limit (concat ps) ++ truncated_mark
        else take limit (concat ps))
unfolding buffer_text
buffer_text_lem ps limit =
    let b = write_all ps (empty_buffer limit) in
    let h =
      write_all-Holds ps [] (empty_buffer limit)
        (record { kept = empty_kept limit; counted = refl }) in
    let e : b.limit ≡ limit = write_all-limit ps (empty_buffer limit) in
    let k : b.buf ≡ take limit (concat ps) = h.kept ∙ ap (λ n. take n (concat ps)) e in
    ap₂ (λ (n : ℕ) (m : ℕ). if ltb n m then b.buf ++ truncated_mark else b.buf) e h.counted
    ∙ ap (λ l. if ltb limit (length (concat ps)) then l ++ truncated_mark else l) k

abbrev pub was_run : HookResult → Bool
was_run r = elim r.outcome [ hook_skipped ↦ false | _ ↦ true ]

classify-path :
    (path : String) (out : List ℕ) (p d : Bool) (e : Option RunError)
    → (classify path out p d e).path ≡ path
unfolding classify
classify-path path out p d e = ground arith

module _ {W E : Type 0} (run_process : String → List String → ℤ → W → Ended × W)
    (read_dir : String → W → Result (DirError E) (List DirEntry)) (stat : String → W → Option ℕ)
    (cancelled : W → Bool) (r : HookRunner) (env : List String) (timeout : ℤ) where
  -- The results are of the first Hooks in order, and at most `left` of them ran.
  abbrev pub Capped : ℕ → List String → List HookResult → Type 0
  Capped left paths results =
      (map (λ x. x.path) results ≡ take (length results) paths)
      × (1 ≤ r.max_hooks → count_if was_run results ≤ left)

  run_one-path :
      (path : String) (w : W)
      → (run_one run_process read_dir stat cancelled env timeout path w).0.path ≡ path
  unfolding run_one
  run_one-path path w = classify-path path _ _ _ _

  Capped-cons :
      (i : ℕ) (path : String) (paths : List String) (x : HookResult) (results : List HookResult)
      → x.path ≡ path
      → (1 ≤ r.max_hooks → leb r.max_hooks i ≡ true → was_run x ≡ false)
      → Capped (r.max_hooks - suc i) paths results
      → Capped (r.max_hooks - i) (path ∷ paths) (x ∷ results)
  Capped-cons i path paths x results e s (p, c) =
      (ap₂ (λ y ys. y ∷ ys) e p, λ h. ground (arith, c h, s h))

  abbrev one : Bool → String → W → HookResult × W
  one b path w =
      if b
      then (skipped_result run_process read_dir stat cancelled path, w)
      else run_one run_process read_dir stat cancelled env timeout path w

  one-path : (b : Bool) (path : String) (w : W) → (one b path w).0.path ≡ path
  one-path true path w = refl
  one-path false path w = run_one-path path w

  if-Capped :
      (n : ℕ) (paths : List String) (b : Bool) (x y : List HookResult × W)
      → Capped n paths x.0
      → Capped n paths y.0
      → Capped n paths (if b then x else y).0
  if-Capped n paths true x y p q = p
  if-Capped n paths false x y p q = q

  one_skipped : (b : Bool) (path : String) (w : W) → b ≡ true → was_run (one b path w).0 ≡ false
  one_skipped true path w h = refl
  one_skipped false path w h = ground arith

  -- The results of a run, from the Hook with index `i` on, are of the Hooks in order without a gap, and
  -- with a limit at most as many of them ran as the limit still allows.
  pub run_each-Capped :
      (i : ℕ) (paths : List String) (w : W)
      → Capped
          (r.max_hooks - i)
          paths
          (run_each run_process read_dir stat cancelled r env timeout i paths w).0
  unfolding run_each
  run_each-Capped i [] w = (refl, λ h. ground arith)
  run_each-Capped i (path ∷ paths) w =
      let skip = ltb 0 r.max_hooks && leb r.max_hooks i in
      let (x, w') = one skip path w in
      let (rest, v) = run_each run_process read_dir stat cancelled r env timeout (suc i) paths w' in
      if-Capped (r.max_hooks - i) (path ∷ paths) (cancelled w) ([], w) (x ∷ rest, v)
        (refl, λ h. ground arith)
        (Capped-cons i path paths x rest (one-path skip path w)
          (λ h e. one_skipped skip path w (ground arith)) (run_each-Capped (suc i) paths w'))
