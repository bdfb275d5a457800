-- ===== src/Probe/Ident/Total.antt =====
-- Where there are no more keys than identifiers and no key twice, an allocation succeeds.
use nixos_wanwatch.Prelude.{
  ℕ, zero, suc, ◌+◌, ◌-◌, ◌%◌, ◌<◌, ◌≤◌, ◌==◌, ==_iff, ltb, ◌≡◌, ◌≢◌, refl, sym, subst, ◌∙◌, false,
  none, some, List, [], ◌∷◌, length, ok, arith, Bool-cases, Option-cases, inl, inr, All,
}
use nixos_wanwatch.Prelude.Dict.{lookup, insert, delete, lookup-insert, lookup-delete}
use nixos_wanwatch.Probe.Ident.{
  IdentKey, same_ident, ident_space, Idents, Owners, find_free, allocate_from, allocate_idents,
}
use nixos_wanwatch.Probe.Ident.Distinct.{same_ident_iff}

length-delete-le : (k : ℕ) (m : Owners) → length (delete ◌==◌ k m) ≤ length m
unfolding delete
length-delete-le k [] = omega arith
length-delete-le k ((j, w) ∷ m) = ground (arith, length-delete-le k m)

length-delete : (k : ℕ) (m : Owners) → lookup ◌==◌ k m ≢ none → length (delete ◌==◌ k m) < length m
unfolding delete lookup
length-delete k [] h = absurd (h refl)
length-delete k ((j, w) ∷ m) h = elim (Bool-cases (j == k)) [
  | inl e ↦ rw e (omega (arith, length-delete-le k m))
  | inr e ↦ rw e (omega (arith, length-delete k m (rw e at h)))
]

length-insert : (k : ℕ) (v : IdentKey) (m : Owners) → length (insert ◌==◌ k v m) ≤ length m + 1
unfolding insert
length-insert k v [] = omega arith
length-insert k v ((j, w) ∷ m) = ground (arith, length-insert k v m)

-- A map with every key below `n` has at least `n` entries.
pigeonhole : (n : ℕ) (m : Owners) → ((c : ℕ) → c < n → lookup ◌==◌ c m ≢ none) → n ≤ length m
pigeonhole zero m h = omega arith
pigeonhole (suc n) m h =
    let fewer : n ≤ length (delete ◌==◌ n m) = pigeonhole n (delete ◌==◌ n m) others in
    omega (arith, fewer, length-delete n m (h n (omega arith)))
  where
    others : (c : ℕ) → c < n → lookup ◌==◌ c (delete ◌==◌ n m) ≢ none
    others c p e =
        h c (omega arith) (ground (arith, e, lookup-delete ◌==◌ ==_iff n c m, ==_iff n c))

no_some {ℓ} : {A : Type ℓ} {a : A} → none ≡ some a → ⊥
no_some h = cc

-- A search that finds nothing has seen an owner at every offset.
all_taken :
    (left : ℕ) (owners : Owners) (start offset j : ℕ)
    → find_free left owners start offset ≡ none
    → j < left
    → lookup ◌==◌ ((start + (offset + j)) % ident_space) owners ≢ none
unfolding find_free
all_taken zero owners start offset j h p = absurd (omega arith)
all_taken (suc left) owners start offset j h p =
    elim (Option-cases (lookup ◌==◌ ((start + offset) % ident_space) owners)) [
      | inl e ↦ absurd (no_some (sym (rw e at h)))
      | inr (k, e) ↦ later k e (λ i q. all_taken left owners start (offset + 1) i (rw e at h) q) j p
    ]
  where
    later :
        (k : IdentKey)
        → lookup ◌==◌ ((start + offset) % ident_space) owners ≡ some k
        → ((i : ℕ)
            → i < left
            → lookup ◌==◌ ((start + (offset + 1 + i)) % ident_space) owners ≢ none)
        → (j : ℕ) → j < suc left
        → lookup ◌==◌ ((start + (offset + j)) % ident_space) owners ≢ none
    later k e rest zero p = λ h.
        let same : start + (offset + 0) ≡ start + offset = omega arith in
        no_some (sym (subst (λ v. lookup ◌==◌ (v % ident_space) owners ≡ none) same h) ∙ e)
    later k e rest (suc j) p = λ h.
        let same : start + (offset + suc j) ≡ start + (offset + 1 + j) = omega arith in
        rest j (omega arith) (subst (λ v. lookup ◌==◌ (v % ident_space) owners ≡ none) same h)

-- With fewer owners than identifiers the search finds one.
finds :
    (owners : Owners) (start : ℕ)
    → length owners < ident_space
    → (i : ℕ) × (find_free ident_space owners start 0 ≡ some i)
finds owners start room = elim (Option-cases (find_free ident_space owners start 0)) [
  | inr found ↦ found
  | inl e ↦ absurd (omega (arith, pigeonhole ident_space owners (owned e), room))
]
  where
    owned :
        find_free ident_space owners start 0 ≡ none
        → (c : ℕ) → c < ident_space
        → lookup ◌==◌ c owners ≢ none
    owned e c p h =
        let j = (c + ident_space - start % ident_space) % ident_space in
        let same : (start + (0 + j)) % ident_space ≡ c = omega arith in
        all_taken ident_space owners start 0 j e (omega arith)
          (subst (λ v. lookup ◌==◌ v owners ≡ none) (sym same) h)

-- No key stands twice.
abbrev pub NoRepeat : List IdentKey → Type 0
NoRepeat [] = Unit
NoRepeat (k ∷ ks) = All (λ j. same_ident k j ≡ false) ks × NoRepeat ks

abbrev AreNew : Idents → List IdentKey → Type 0
AreNew allocated = All (λ k. lookup same_ident k allocated ≡ none)

still_new :
    (k : IdentKey) (i : ℕ) (allocated : Idents) (ks : List IdentKey)
    → All (λ j. same_ident k j ≡ false) ks
    → AreNew allocated ks
    → AreNew (insert same_ident k i allocated) ks
still_new k i allocated [] a n = tt
still_new k i allocated (j ∷ ks) (a, as') (n, ns) = (
  lookup-insert same_ident same_ident_iff k j i allocated ∙ rw a n,
  still_new k i allocated ks as' ns,
)

module _ (initial_ident : IdentKey → ℕ) where
  from_total :
      (keys : List IdentKey) (allocated : Idents) (owners : Owners)
      → length owners + length keys ≤ ident_space
      → NoRepeat keys
      → AreNew allocated keys
      → (m : Idents) × (allocate_from initial_ident keys allocated owners ≡ ok m)
  unfolding allocate_from
  from_total [] allocated owners room d n = (allocated, refl)
  from_total (k ∷ ks) allocated owners room (a, d) (n, ns) =
      let (i, e) = finds owners (initial_ident k) (omega arith) in
      let (m, h) =
        from_total ks (insert same_ident k i allocated) (insert ◌==◌ i k owners)
          (omega (arith, length-insert i k owners)) d (still_new k i allocated ks a ns) in
      (m, rw (n, e) h)

  -- An allocation of at most 65535 keys, none of them twice, succeeds.
  pub allocate_total :
      (keys : List IdentKey)
      → length keys < ident_space
      → NoRepeat keys
      → (m : Idents) × (allocate_idents initial_ident keys ≡ ok m)
  unfolding allocate_idents lookup
  allocate_total keys room d =
      let (m, h) = from_total keys [] [] (omega (arith, room)) d (all_new keys) in
      (m, rw (within (length keys) room) h)
    where
      within : (n : ℕ) → n < ident_space → ltb ident_space n ≡ false
      within n p = ground arith

      all_new : (ks : List IdentKey) → AreNew [] ks
      all_new [] = tt
      all_new (k ∷ ks) = (refl, all_new ks)
