-- ===== src/Selector/Choice.antt =====
-- What `primaryBackup` chooses: the healthy Member that comes first by priority, then by name.
use nixos_wanwatch.Prelude.{
  ◌≡◌, refl, sym, ap, ◌∙◌, ◌⊎◌, inl, inr, true, false, List, [], ◌∷◌, arith, Bool-cases, All, In,
  here, there, In-keep, keep-In, subst,
}
use nixos_wanwatch.Prelude.Int.{eq_ℤ, eq_ℤ_iff, ltb_ℤ}
use nixos_wanwatch.Prelude.Text.{str_le, str_le_total, str_le_trans, str_le_antisymm}
use nixos_wanwatch.Prelude.Sort.{
  Reorder, Reorder-keep, sort_by, IsTotal, IsTransitive, IsSorted, IsStrictOn, In-sort_by,
  sort_by-In, sort_by-IsSorted, sort_by-Reorder,
}
use nixos_wanwatch.Selector.{
  Group, MemberHealth, no_active, preferred, healthy_members, first_active, primary_backup,
}

pub preferred_total : IsTotal preferred
unfolding preferred
preferred_total a b = ground (arith, str_le_total a.member.wan b.member.wan)

pub preferred_trans : IsTransitive preferred
unfolding preferred
preferred_trans a b c p q = ground (arith, str_le_trans a.member.wan b.member.wan c.member.wan)

preferred_antisymm :
    (a b : MemberHealth)
    → preferred a b ≡ true
    → preferred b a ≡ true
    → a.healthy ≡ b.healthy
    → a ≡ b
unfolding preferred
preferred_antisymm a b p q h = ground (arith, str_le_antisymm a.member.wan b.member.wan)

-- `m` has a lower priority than `n`, or the same one and a name that is not after `n`'s.
abbrev pub Precedes : MemberHealth → MemberHealth → Type 0
Precedes m n =
    (ltb_ℤ m.member.priority n.member.priority ≡ true)
    ⊎ ((m.member.priority ≡ n.member.priority) × (str_le m.member.wan n.member.wan ≡ true))

preferred-Precedes : (m n : MemberHealth) → preferred m n ≡ true → Precedes m n
unfolding preferred
preferred-Precedes m n h = elim (Bool-cases (eq_ℤ m.member.priority n.member.priority)) [
  | inl e ↦ inr ((eq_ℤ_iff m.member.priority n.member.priority).0 e, rw e at h)
  | inr e ↦ inl (rw e at h)
]

-- `m` is a healthy Member of the list that precedes every healthy one.
pub record IsChoice (members : List MemberHealth) (m : MemberHealth) : Type 0 where
  pub listed : In m members
  pub is_healthy : m.healthy ≡ true
  pub first : (n : MemberHealth) → In n members → n.healthy ≡ true → Precedes m n

All-In :
    (m : MemberHealth) (l : List MemberHealth)
    → All (λ n. preferred m n ≡ true) l
    → (n : MemberHealth) → In n l
    → preferred m n ≡ true
All-In m [] h n k = elim k [ ]
All-In m (x ∷ l) h n (here e) = rw e h.0
All-In m (x ∷ l) h n (there k) = All-In m l h.1 n k

preferred_refl : (m : MemberHealth) → preferred m m ≡ true
preferred_refl m = elim (preferred_total m m) [ inl e ↦ e | inr e ↦ e ]

head-first :
    (m : MemberHealth) (l : List MemberHealth)
    → IsSorted preferred (m ∷ l)
    → (n : MemberHealth) → In n (m ∷ l)
    → preferred m n ≡ true
head-first m l s n (here e) = rw e (preferred_refl m)
head-first m l s n (there k) = All-In m l s.0 n k

abbrev sorted : List MemberHealth → List MemberHealth
sorted members = sort_by preferred (healthy_members members)

-- What the first of the sorted list says of the whole list.
IsChoice-of :
    (members : List MemberHealth) (l : List MemberHealth)
    → sorted members ≡ l
    → ((first_active l ≡ no_active) × ((n : MemberHealth) → In n members → n.healthy ≡ false))
      ⊎ ((m : MemberHealth) × IsChoice members m
          × (first_active l ≡ record { wan = m.member.wan; has = true }))
unfolding healthy_members
IsChoice-of members [] e = inl (refl, λ n k. none_healthy n k (Bool-cases n.healthy))
  where
    none_healthy :
        (n : MemberHealth)
        → In n members
        → (n.healthy ≡ true) ⊎ (n.healthy ≡ false)
        → n.healthy ≡ false
    none_healthy n k (inr h) = h
    none_healthy n k (inl h) =
        elim (subst (In n) e
          (sort_by-In preferred _ (keep-In (λ (x : MemberHealth). x.healthy) members k h))) [ ]
IsChoice-of members (m ∷ l) e =
    inr (m, record { listed = found.0; is_healthy = found.1; first = λ n k h. leads n k h }, refl)
  where
    found : In m members × (m.healthy ≡ true)
    found =
        In-keep (λ (x : MemberHealth). x.healthy) members
          (In-sort_by preferred _ (subst (In m) (sym e) (here refl)))

    ordered : IsSorted preferred (m ∷ l)
    ordered =
        subst (IsSorted preferred) e
          (sort_by-IsSorted preferred preferred_total preferred_trans (healthy_members members))

    leads : (n : MemberHealth) → In n members → n.healthy ≡ true → Precedes m n
    leads n k h = preferred-Precedes m n (
        head-first m l ordered n (
          subst (In n) e
            (sort_by-In preferred _ (keep-In (λ (x : MemberHealth). x.healthy) members k h))))

-- Either no Member is healthy and nothing is selected, or the WAN selected is that of a healthy
-- Member with the lowest priority, the first by name among those of its priority.
pub primary_backup_lem :
    (g : Group) (members : List MemberHealth)
    → let active = (primary_backup g members).active in
      ((active ≡ no_active) × ((n : MemberHealth) → In n members → n.healthy ≡ false))
      ⊎ ((m : MemberHealth) × IsChoice members m
          × (active ≡ record { wan = m.member.wan; has = true }))
unfolding primary_backup
primary_backup_lem g members = IsChoice-of members (sorted members) refl

-- The Selection does not depend on the order in which the Members are listed.
pub primary_backup-Reorder :
    (g : Group) {xs ys : List MemberHealth}
    → Reorder xs ys
    → primary_backup g xs ≡ primary_backup g ys
unfolding primary_backup healthy_members
primary_backup-Reorder g {xs} r =
    ap (λ l. record { group = g.name; active = first_active l })
      (sort_by-Reorder preferred preferred_total preferred_trans strict
        (Reorder-keep (λ (x : MemberHealth). x.healthy) r))
  where
    strict : IsStrictOn preferred (healthy_members xs)
    strict a b m n p q = preferred_antisymm a b p q (
        (In-keep (λ (x : MemberHealth). x.healthy) xs m).1
        ∙ sym ((In-keep (λ (x : MemberHealth). x.healthy) xs n).1))
