-- ===== src/Apply/Rule/Table.antt =====
-- What the kernel's rules are after EnsureRule (daemon/internal/apply/rule.go).
use nixos_wanwatch.Prelude.{
  ℕ, suc, ◌+◌, ◌≤◌, ◌≡◌, refl, ap, sym, ◌∙◌, Bool, true, false, Option, none, some, List, [], ◌∷◌,
  Result, ok, err, if◌then◌else◌, keep, count_if, length, All, arith, max,
}
use nixos_wanwatch.Prelude.Int.{ℤ}
use nixos_wanwatch.Prelude.Sort.{sort_by, insert_by}
use nixos_wanwatch.Apply.{Check, number}
use nixos_wanwatch.Apply.Rule.{
  FwmarkRule, Rule, matches_rule, validate_rule, context_done, Ensured, by_priority, build_rule,
  delete_copies, added, settle, listed, valid, ensure_rule,
}

module _ {A : Type 0} (le : A → A → Bool) (P : A → Type 0) where
  All-insert_by : (a : A) (xs : List A) → P a → All P xs → All P (insert_by le a xs)
  All-insert_by a [] p h = (p, tt)
  All-insert_by a (x ∷ xs) p (q, h) = ground (arith, All-insert_by a xs p h)

  All-sort_by : (xs : List A) → All P xs → All P (sort_by le xs)
  All-sort_by [] h = tt
  All-sort_by (x ∷ xs) (p, h) = All-insert_by x (sort_by le xs) p (All-sort_by xs h)

  length-insert_by : (a : A) (xs : List A) → length (insert_by le a xs) ≡ suc (length xs)
  length-insert_by a [] = refl
  length-insert_by a (x ∷ xs) = ground (arith, length-insert_by a xs)

  length-sort_by : (xs : List A) → length (sort_by le xs) ≡ length xs
  length-sort_by [] = refl
  length-sort_by (x ∷ xs) = ground (arith, length-insert_by x (sort_by le xs), length-sort_by xs)

All-keep : {A : Type 0} (p : A → Bool) (xs : List A) → All (λ x. p x ≡ true) (keep p xs)
All-keep p [] = tt
All-keep p (x ∷ xs) = ground (arith, All-keep p xs)

length-keep : {A : Type 0} (p : A → Bool) (xs : List A) → length (keep p xs) ≡ count_if p xs
length-keep p [] = refl
length-keep p (x ∷ xs) = ground (arith, length-keep p xs)

module _ {W E : Type 0} (new_rule : Rule) (list : ℤ → W → Result E (List Rule) × W)
    (add del : Rule → W → Option E × W) (is_exist : E → Bool) (cancelled : W → Bool)
    (r : FwmarkRule) (count : W → ℕ) where
  -- `count` counts the kernel's rules that match. What the kernel promises: a list that succeeds shows
  -- the rules as they are, an add that succeeds adds the one, an add fails with EEXIST only where it is
  -- there, and a delete that succeeds takes one away.
  pub record Behaves : Type 0 where
    pub list_shows :
        (w : W) (rules : List Rule)
        → let (l, w') = list (number r.family) w in
          l ≡ ok rules → (count_if (λ k. matches_rule k r) rules ≡ count w) × (count w' ≡ count w)
    pub add_adds :
        (w : W) → let (e, w') = add (build_rule new_rule r) w in e ≡ none → count w' ≡ suc (count w)
    pub add_exists :
        (w : W) (e : E)
        → (add (build_rule new_rule r) w).0 ≡ some e
        → is_exist e ≡ true
        → 1 ≤ count w
    pub delete_takes :
        (k : Rule) (w : W)
        → matches_rule k r ≡ true
        → let (e, w') = del k w in e ≡ none → suc (count w') ≡ count w

  -- On success one rule matches, and as many copies were removed as there were.
  abbrev pub One : W → Ensured W E → Type 0
  One w (removed, e, w') = e ≡ none → (count w' ≡ 1) × (removed + 1 ≡ max 1 (count w))

  copies-One :
      (ks : List Rule) (removed : ℕ) (w w₀ : W)
      → Behaves
      → All (λ k. matches_rule k r ≡ true) ks
      → count w ≡ suc (length ks)
      → removed + count w ≡ count w₀
      → One w₀ (delete_copies new_rule list add del is_exist cancelled ks removed w)
  unfolding delete_copies
  copies-One [] removed w w₀ b a h e = ground arith
  copies-One (k ∷ ks) removed w w₀ b (m, a) h e =
      let w' = (del k w).1 in
      let q = λ (n : (del k w).0 ≡ none).
        copies-One ks (removed + 1) w' w₀ b a (ground (arith, b.delete_takes k w m n))
          (ground (arith, b.delete_takes k w m n)) in
      ground (arith, q)

  added-One :
      (o : Option E) (w' w w₀ : W)
      → (o ≡ none → count w' ≡ suc (count w))
      → ((e : E) → o ≡ some e → is_exist e ≡ true → 1 ≤ count w)
      → count w ≡ 0
      → count w ≡ count w₀
      → One w₀ (added new_rule list add del is_exist cancelled (o, w'))
  added-One none w' w w₀ a x h e = ground (arith, a)
  added-One (some y) w' w w₀ a x h e = ground (arith, x y refl)

  settle-One :
      (ks : List Rule) (w w₀ : W)
      → Behaves
      → All (λ k. matches_rule k r ≡ true) ks
      → count w ≡ length ks
      → count w ≡ count w₀
      → One w₀ (settle new_rule list add del is_exist cancelled r ks w)
  unfolding delete_copies
  settle-One [] w w₀ b a h e =
      let (o, w') = add (build_rule new_rule r) w in
      added-One o w' w w₀ (b.add_adds w) (λ x. b.add_exists w x) h e
  settle-One (k ∷ ks) w w₀ b (m, a) h e = copies-One ks 0 w w₀ b a h (ground arith)

  listed-One :
      (l : Result E (List Rule)) (w w' : W)
      → Behaves
      → list (number r.family) w ≡ (l, w')
      → One w (listed new_rule list add del is_exist cancelled r (l, w'))
  listed-One (err e) w w' b h = ground arith
  listed-One (ok rules) w w' b h =
      let p : Rule → Bool = λ k. matches_rule k r in
      let ks = sort_by by_priority (keep p rules) in
      let (shown, kept) = b.list_shows w rules (ap (λ x. x.0) h) in
      let same : count w' ≡ count w = ap (λ x. count x.1) (sym h) ∙ kept in
      let all = All-sort_by by_priority (λ k. p k ≡ true) (keep p rules) (All-keep p rules) in
      let q =
        settle-One ks w' w b all
          (same
            ∙ sym shown
            ∙ sym (length-keep p rules)
            ∙ sym (length-sort_by by_priority (λ k. p k ≡ true) (keep p rules)))
          same in
      if-One w (cancelled w') (0, some context_done, w')
        (settle new_rule list add del is_exist cancelled r ks w') (ground arith) q
    where
      if-One :
          (w : W) (b : Bool) (x y : Ensured W E) → One w x → One w y → One w (if b then x else y)
      if-One w true x y p q = p
      if-One w false x y p q = q

  -- EnsureRule leaves exactly one rule that matches when it succeeds: it adds one where there was none,
  -- and of several it keeps one and reports how many it removed.
  pub ensure_rule-One :
      (w : W)
      → Behaves
      → (ensure_rule new_rule list add del is_exist cancelled r w).1 ≡ none
      → let (removed, _, w') = ensure_rule new_rule list add del is_exist cancelled r w in
        (count w' ≡ 1) × (removed + 1 ≡ max 1 (count w))
  unfolding ensure_rule
  ensure_rule-One w b h = let q = valid-One (validate_rule r) in ground (arith, q, h)
    where
      valid-One : (c : Check) → One w (valid new_rule list add del is_exist cancelled r w c)
      valid-One (err e) = ground arith
      valid-One (ok _) =
          listed-One (list (number r.family) w).0 w (list (number r.family) w).1 b refl
