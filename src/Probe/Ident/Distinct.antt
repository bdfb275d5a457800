-- ===== src/Probe/Ident/Distinct.antt =====
-- The identifiers allocated are distinct and fit in 16 bits.
use text.Mathlib.TextEquality.{eq_iff}
use nixos_wanwatch.Prelude.{
  ℕ, zero, suc, ◌+◌, ◌%◌, ◌<◌, ◌==◌, ==_iff, ltb, ◌≡◌, refl, sym, ap, subst, ◌∙◌, Option, none,
  some, List, [], ◌∷◌, length, Result, ok, err, ◌>>=◌, if◌then◌else◌, arith, Bool-cases,
  Option-cases, inl, inr, In, here, there,
}
use nixos_wanwatch.Prelude.Dict.{lookup, insert, lookup-insert, IsEquality}
use nixos_wanwatch.Probe.Family.{eq_family_iff}
use nixos_wanwatch.Probe.Ident.{
  IdentKey, same_ident, ident_space, IdentError, Idents, Owners, find_free, pick, allocate_from,
  allocate_idents,
}

pub same_ident_iff : IsEquality same_ident
unfolding same_ident
same_ident_iff a b = ground (arith, eq_iff a.wan b.wan, eq_family_iff a.family b.family)

free_here :
    (c i : ℕ) (owners : Owners)
    → c < ident_space
    → lookup ◌==◌ c owners ≡ none
    → some c ≡ some i
    → (i < ident_space) × (lookup ◌==◌ i owners ≡ none)
free_here c i owners b e h =
    let same : c ≡ i = ap (λ o. elim o [ none ↦ c | some v ↦ v ]) h in
    subst (λ v. (v < ident_space) × (lookup ◌==◌ v owners ≡ none)) same (b, e)

-- A free identifier is in range and has no owner.
find_free_lem :
    (left : ℕ) (owners : Owners) (start offset i : ℕ)
    → find_free left owners start offset ≡ some i
    → (i < ident_space) × (lookup ◌==◌ i owners ≡ none)
unfolding find_free
find_free_lem zero owners start offset i h = cc
find_free_lem (suc left) owners start offset i h =
    elim (Option-cases (lookup ◌==◌ ((start + offset) % ident_space) owners)) [
      | inl e ↦ free_here ((start + offset) % ident_space) i owners (omega arith) e (rw e at h)
      | inr (k, e) ↦ find_free_lem left owners start (offset + 1) i (rw e at h)
    ]

-- The two maps are inverse to each other, and the identifiers fit in 16 bits.
abbrev pub IsAllocation : Idents → Owners → Type 0
IsAllocation allocated owners =
    (k : IdentKey) (i : ℕ)
    → lookup same_ident k allocated ≡ some i
    → (i < ident_space) × (lookup ◌==◌ i owners ≡ some k)

abbrev or_idents : Idents → Result IdentError Idents → Idents
or_idents a (ok m) = m
or_idents a (err e) = a

ok_inj : {a b : Idents} → ◌≡◌ {A = Result IdentError Idents} (ok a) (ok b) → a ≡ b
ok_inj {a = a} h = ap (λ r. or_idents a r) h

no_ok {ℓ} :
    {P : Type ℓ} {e : IdentError} {m : Idents}
    → ◌≡◌ {A = Result IdentError Idents} (err e) (ok m)
    → P
no_ok h = cc

some_inj : {a b : IdentKey} → some a ≡ some b → a ≡ b
some_inj {a = a} h = ap (λ o. elim o [ none ↦ a | some v ↦ v ]) h

nothing {ℓ} : {P : Type ℓ} (k : IdentKey) {i : ℕ} → lookup same_ident k [] ≡ some i → P
unfolding lookup
nothing k h = cc

bound :
    (r : Result IdentError ℕ) {f : ℕ → Result IdentError Idents} {m : Idents}
    → (r >>= f) ≡ ok m
    → (i : ℕ) × (r ≡ ok i) × (f i ≡ ok m)
bound (ok i) h = (i, refl, h)
bound (err e) h = cc

picked :
    (k : IdentKey) (seen free : Option ℕ) {i : ℕ}
    → pick k seen free ≡ ok i
    → (seen ≡ none) × (free ≡ some i)
picked k (some j) free h = cc
picked k none none h = cc
picked k none (some i) h = (refl, ap some (ap (λ r. elim r [ ok v ↦ v | err e ↦ i ]) h))

-- What is allocated stays so when a new key takes a free identifier.
grown :
    (allocated : Idents) (owners : Owners) (k : IdentKey) (i : ℕ)
    → IsAllocation allocated owners
    → i < ident_space
    → lookup ◌==◌ i owners ≡ none
    → IsAllocation (insert same_ident k i allocated) (insert ◌==◌ i k owners)
grown allocated owners k i inv b free j n h =
    let h' : (if same_ident k j then some i else lookup same_ident j allocated) ≡ some n =
      sym (lookup-insert same_ident same_ident_iff k j i allocated) ∙ h in
    rw (lookup-insert ◌==◌ ==_iff i n k owners)
      (ground (arith, h', same_ident_iff k j, inv j n, ==_iff i n, no_owner n))
  where
    no_owner : (v : ℕ) → i ≡ v → lookup ◌==◌ v owners ≡ none
    no_owner v e = subst (λ x. lookup ◌==◌ x owners ≡ none) e free

abbrev Kept : Idents → Idents → Type 0
Kept old new =
    (k : IdentKey) (i : ℕ) → lookup same_ident k old ≡ some i → lookup same_ident k new ≡ some i

Kept-insert :
    (k : IdentKey) (i : ℕ) (allocated : Idents)
    → lookup same_ident k allocated ≡ none
    → Kept allocated (insert same_ident k i allocated)
Kept-insert k i allocated new j n h =
    rw (lookup-insert same_ident same_ident_iff k j i allocated)
      (ground (arith, h, same_ident_iff k j, moved j))
  where
    moved : (v : IdentKey) → k ≡ v → lookup same_ident v allocated ≡ none
    moved v e = subst (λ x. lookup same_ident x allocated ≡ none) e new

module _ (initial_ident : IdentKey → ℕ) where
  -- What an allocation that succeeds leaves of the keys and of what was allocated before.
  abbrev Finished : List IdentKey → Idents → Idents → Type 0
  Finished keys allocated m =
      ((owners : Owners) × IsAllocation m owners)
      × Kept allocated m
      × ((k : IdentKey) → In k keys → (i : ℕ) × (lookup same_ident k m ≡ some i))

  from_lem :
      (keys : List IdentKey) {m : Idents} (allocated : Idents) (owners : Owners)
      → IsAllocation allocated owners
      → allocate_from initial_ident keys allocated owners ≡ ok m
      → Finished keys allocated m
  unfolding allocate_from
  from_lem [] {m} allocated owners inv h =
      let same : allocated ≡ m = ok_inj h in
      (
        (owners, subst (λ x. IsAllocation x owners) same inv),
        (λ k i e. subst (λ x. lookup same_ident k x ≡ some i) same e),
        (λ k n. elim n [ ]),
      )
  from_lem (k ∷ ks) {m} allocated owners inv h =
      let (i, p, rest) =
        bound
          (pick k (lookup same_ident k allocated)
            (find_free ident_space owners (initial_ident k) 0))
          h in
      let (new, e) = picked k (lookup same_ident k allocated) _ p in
      let (b, free) = find_free_lem ident_space owners (initial_ident k) 0 i e in
      let (o, kept, all) =
        from_lem ks {m = m} (insert same_ident k i allocated) (insert ◌==◌ i k owners)
          (grown allocated owners k i inv b free) rest in
      (o, (λ j n q. kept j n (Kept-insert k i allocated new j n q)), covered i kept all)
    where
      covered :
          (i : ℕ)
          → Kept (insert same_ident k i allocated) m
          → ((j : IdentKey) → In j ks → (n : ℕ) × (lookup same_ident j m ≡ some n))
          → (j : IdentKey) → In j (k ∷ ks)
          → (n : ℕ) × (lookup same_ident j m ≡ some n)
      covered i kept all j (there q) = all j q
      covered i kept all j (here q) = (
        i,
        kept j i (
            lookup-insert same_ident same_ident_iff k j i allocated
            ∙ ground (arith, same_ident_iff k j, q)),
      )

  finished :
      (keys : List IdentKey) (m : Idents)
      → allocate_idents initial_ident keys ≡ ok m
      → Finished keys [] m
  unfolding allocate_idents
  finished keys m h = elim (Bool-cases (ltb ident_space (length keys))) [
    | inl e ↦ no_ok (rw e at h)
    | inr e ↦ from_lem keys {m = m} [] [] (λ k i q. nothing k q) (rw e at h)
  ]

  -- An allocation that succeeds gives every key an identifier of 16 bits.
  pub allocate_covers :
      (keys : List IdentKey) (m : Idents) (k : IdentKey)
      → allocate_idents initial_ident keys ≡ ok m
      → In k keys
      → (i : ℕ) × (lookup same_ident k m ≡ some i) × (i < ident_space)
  allocate_covers keys m k h n =
      let ((owners, inv), _, all) = finished keys m h in
      let (i, q) = all k n in (i, q, (inv k i q).0)

  -- An allocation that succeeds gives no identifier to two keys.
  pub allocate_distinct :
      (keys : List IdentKey) (m : Idents) (a b : IdentKey) (i : ℕ)
      → allocate_idents initial_ident keys ≡ ok m
      → lookup same_ident a m ≡ some i
      → lookup same_ident b m ≡ some i
      → a ≡ b
  allocate_distinct keys m a b i h p q =
      let ((owners, inv), _, _) = finished keys m h in some_inj (sym (inv a i p).1 ∙ (inv b i q).1)
