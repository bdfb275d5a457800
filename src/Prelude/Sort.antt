-- ===== src/Prelude/Sort.antt =====
-- `slices.SortFunc` and `slices.SortStableFunc` as an insertion sort by a test `a <= b`.
use mathlib.Core.Path.{◌≡◌, refl, ap, ◌∙◌}
use mathlib.Core.Logic.{◌⊎◌, inl, inr}
use mathlib.Core.Bool.{Bool, true}
use mathlib.Core.List.{List, [], ◌∷◌, ◌++◌}
use native.Mathlib.Omega.{arith}
use nixos_wanwatch.Prelude.Tests.{if◌then◌else◌, Bool-cases}
use nixos_wanwatch.Prelude.Lists.{All, In, here, there, keep}

-- `ys` holds the members of `xs` in another order, as another run over a map gives them.
pub data Reorder {ℓ} {A : Type ℓ} : List A → List A → Type ℓ where
  same : (xs : List A) → Reorder xs xs
  skip : (x : A) {xs ys : List A} → Reorder xs ys → Reorder (x ∷ xs) (x ∷ ys)
  swap : (x y : A) (xs : List A) → Reorder (x ∷ y ∷ xs) (y ∷ x ∷ xs)
  trans : {xs ys zs : List A} → Reorder xs ys → Reorder ys zs → Reorder xs zs

pub Reorder-symm {ℓ} : {A : Type ℓ} {xs ys : List A} → Reorder xs ys → Reorder ys xs
Reorder-symm (same xs) = same xs
Reorder-symm (skip x r) = skip x (Reorder-symm r)
Reorder-symm (swap x y xs) = swap y x xs
Reorder-symm (trans r s) = trans (Reorder-symm s) (Reorder-symm r)

pub In-Reorder {ℓ} : {A : Type ℓ} {xs ys : List A} {a : A} → Reorder xs ys → In a ys → In a xs
In-Reorder (same _) m = m
In-Reorder (skip x r) (here e) = here e
In-Reorder (skip x r) (there m) = there (In-Reorder r m)
In-Reorder (swap x y xs) (here e) = there (here e)
In-Reorder (swap x y xs) (there (here e)) = here e
In-Reorder (swap x y xs) (there (there m)) = there (there m)
In-Reorder (trans r s) m = In-Reorder r (In-Reorder s m)

pub Reorder-map {ℓ κ} :
    {A : Type ℓ} {B : Type κ} (f : A → B) {xs ys : List A}
    → Reorder xs ys
    → Reorder (mathlib.Core.List.map f xs) (mathlib.Core.List.map f ys)
Reorder-map f (same xs) = same _
Reorder-map f (skip x r) = skip (f x) (Reorder-map f r)
Reorder-map f (swap x y xs) = swap (f x) (f y) _
Reorder-map f (trans r s) = trans (Reorder-map f r) (Reorder-map f s)

pub Reorder-keep {ℓ} :
    {A : Type ℓ} (p : A → Bool) {xs ys : List A} → Reorder xs ys → Reorder (keep p xs) (keep p ys)
Reorder-keep p (same xs) = same _
Reorder-keep p (skip x r) = elim (Bool-cases (p x)) [
  | inl e ↦ rw e (skip x (Reorder-keep p r))
  | inr e ↦ rw e (Reorder-keep p r)
]
Reorder-keep p (swap x y xs) = elim (Bool-cases (p x)) [
  | inl e ↦ elim (Bool-cases (p y)) [
    | inl e' ↦ rw (e, e') (swap x y _)
    | inr e' ↦ rw (e, e') (same _)
  ]
  | inr e ↦ rw e (same _)
]
Reorder-keep p (trans r s) = trans (Reorder-keep p r) (Reorder-keep p s)

module _ {ℓ} {A : Type ℓ} (le : A → A → Bool) where
  abbrev pub insert_by : A → List A → List A
  insert_by a [] = a ∷ []
  insert_by a (x ∷ xs) = let rest = insert_by a xs in if le a x then a ∷ x ∷ xs else x ∷ rest

  abbrev pub sort_by : List A → List A
  sort_by [] = []
  sort_by (x ∷ xs) = insert_by x (sort_by xs)

  abbrev pub IsTotal : Type ℓ
  IsTotal = (a b : A) → (le a b ≡ true) ⊎ (le b a ≡ true)

  abbrev pub IsTransitive : Type ℓ
  IsTransitive = (a b c : A) → le a b ≡ true → le b c ≡ true → le a c ≡ true

  -- Members that the test does not tell apart are equal.
  abbrev pub IsStrictOn : List A → Type ℓ
  IsStrictOn xs = (a b : A) → In a xs → In b xs → le a b ≡ true → le b a ≡ true → a ≡ b

  abbrev pub IsSorted : List A → Type ℓ
  IsSorted [] = Unit
  IsSorted (x ∷ xs) = All (λ y. le x y ≡ true) xs × IsSorted xs

  In-insert_by : {a b : A} (xs : List A) → In b (insert_by a xs) → (b ≡ a) ⊎ In b xs
  In-insert_by [] (here e) = inl e
  In-insert_by [] (there m) = elim m [ ]
  In-insert_by {a} {b} (x ∷ xs) m = elim (Bool-cases (le a x)) [
    | inl p ↦ first (rw p at m)
    | inr p ↦ later (In-insert_by xs) (rw p at m)
  ]
    where
      first : In b (a ∷ x ∷ xs) → (b ≡ a) ⊎ In b (x ∷ xs)
      first (here e) = inl e
      first (there n) = inr n

      later :
          (In b (insert_by a xs) → (b ≡ a) ⊎ In b xs)
          → In b (x ∷ insert_by a xs)
          → (b ≡ a) ⊎ In b (x ∷ xs)
      later ih (here e) = inr (here e)
      later ih (there n) = elim (ih n) [ inl e ↦ inl e | inr k ↦ inr (there k) ]

  pub In-sort_by : {b : A} (xs : List A) → In b (sort_by xs) → In b xs
  In-sort_by [] m = elim m [ ]
  In-sort_by (x ∷ xs) m = elim (In-insert_by (sort_by xs) m) [
    | inl e ↦ here e
    | inr n ↦ there (In-sort_by xs n)
  ]

  pub In-insert_by_self : (a : A) (xs : List A) → In a (insert_by a xs)
  In-insert_by_self a [] = here refl
  In-insert_by_self a (x ∷ xs) = elim (Bool-cases (le a x)) [
    | inl p ↦ rw p (here refl)
    | inr p ↦ rw p (there (In-insert_by_self a xs))
  ]

  In-insert_by_old : {b : A} (a : A) (xs : List A) → In b xs → In b (insert_by a xs)
  In-insert_by_old a [] m = elim m [ ]
  In-insert_by_old a (x ∷ xs) (here e) = elim (Bool-cases (le a x)) [
    | inl p ↦ rw p (there (here e))
    | inr p ↦ rw p (here e)
  ]
  In-insert_by_old a (x ∷ xs) (there m) = elim (Bool-cases (le a x)) [
    | inl p ↦ rw p (there (there m))
    | inr p ↦ rw p (there (In-insert_by_old a xs m))
  ]

  pub sort_by-In : {b : A} (xs : List A) → In b xs → In b (sort_by xs)
  sort_by-In [] m = elim m [ ]
  sort_by-In {b} (x ∷ xs) (here e) = rw e (In-insert_by_self x (sort_by xs))
  sort_by-In (x ∷ xs) (there m) = In-insert_by_old x (sort_by xs) (sort_by-In xs m)

  All-insert_by :
      (z a : A) (xs : List A)
      → le z a ≡ true
      → All (λ y. le z y ≡ true) xs
      → All (λ y. le z y ≡ true) (insert_by a xs)
  All-insert_by z a [] p h = (p, tt)
  All-insert_by z a (x ∷ xs) p h = elim (Bool-cases (le a x)) [
    | inl q ↦ rw q (p, h)
    | inr q ↦ rw q (h.0, All-insert_by z a xs p h.1)
  ]

  insert_by-IsSorted :
      IsTotal → IsTransitive → (a : A) (xs : List A) → IsSorted xs → IsSorted (insert_by a xs)
  insert_by-IsSorted total le_trans a [] s = (tt, tt)
  insert_by-IsSorted total le_trans a (x ∷ xs) s = elim (Bool-cases (le a x)) [
    | inl p ↦ rw p ((p, above p xs s.0), s)
    | inr p ↦ rw p (
      All-insert_by x a xs (elim (total a x) [ inl q ↦ cc | inr q ↦ q ]) s.0,
      insert_by-IsSorted total le_trans a xs s.1,
    )
  ]
    where
      above :
          le a x ≡ true → (ys : List A) → All (λ y. le x y ≡ true) ys → All (λ y. le a y ≡ true) ys
      above p [] h = tt
      above p (y ∷ ys) h = (le_trans a x y p h.0, above p ys h.1)

  pub sort_by-IsSorted : IsTotal → IsTransitive → (xs : List A) → IsSorted (sort_by xs)
  sort_by-IsSorted total le_trans [] = tt
  sort_by-IsSorted total le_trans (x ∷ xs) =
      insert_by-IsSorted total le_trans x (sort_by xs) (sort_by-IsSorted total le_trans xs)

  insert_by_comm :
      IsTotal
      → IsTransitive
      → (a b : A) (xs : List A) → (le a b ≡ true → le b a ≡ true → a ≡ b)
      → insert_by a (insert_by b xs) ≡ insert_by b (insert_by a xs)
  insert_by_comm total le_trans a b [] strict = ground (arith, total a b)
  insert_by_comm total le_trans a b (x ∷ xs) strict = ground (
    arith,
    total a b,
    le_trans b a x,
    le_trans a b x,
    insert_by_comm total le_trans a b xs strict,
  )

  -- Sorting undoes a reordering, where the test tells all members apart.
  pub sort_by-Reorder :
      IsTotal
      → IsTransitive
      → {xs ys : List A} → IsStrictOn xs
      → Reorder xs ys
      → sort_by xs ≡ sort_by ys
  sort_by-Reorder total le_trans strict (same xs) = refl
  sort_by-Reorder total le_trans strict (skip x r) =
      ap (insert_by x)
        (sort_by-Reorder total le_trans (λ a b m n. strict a b (there m) (there n)) r)
  sort_by-Reorder total le_trans strict (swap x y xs) =
      insert_by_comm total le_trans x y (sort_by xs) (strict x y (here refl) (there (here refl)))
  sort_by-Reorder total le_trans strict (trans r s) =
      sort_by-Reorder total le_trans strict r
      ∙ sort_by-Reorder total le_trans (λ a b m n. strict a b (In-Reorder r m) (In-Reorder r n)) s

module _ {ℓ} {A : Type ℓ} where
  pub Reorder-append_right :
      {xs ys : List A} (zs : List A) → Reorder xs ys → Reorder (xs ++ zs) (ys ++ zs)
  Reorder-append_right zs (same xs) = same _
  Reorder-append_right zs (skip x r) = skip x (Reorder-append_right zs r)
  Reorder-append_right zs (swap x y xs) = swap x y _
  Reorder-append_right zs (trans r s) =
      trans (Reorder-append_right zs r) (Reorder-append_right zs s)

  pub Reorder-append_left :
      (zs : List A) {xs ys : List A} → Reorder xs ys → Reorder (zs ++ xs) (zs ++ ys)
  Reorder-append_left [] r = r
  Reorder-append_left (z ∷ zs) r = skip z (Reorder-append_left zs r)

pub In-map {ℓ κ} :
    {A : Type ℓ} {B : Type κ} (f : A → B) {b : B} (xs : List A)
    → In b (mathlib.Core.List.map f xs)
    → (a : A) × In a xs × (b ≡ f a)
In-map f [] m = elim m [ ]
In-map f (x ∷ xs) (here e) = (x, here refl, e)
In-map f (x ∷ xs) (there m) = let (a, n, e) = In-map f xs m in (a, there n, e)
